-- ===== src/Inventory/Closing.antt =====
-- What a release and a decrement do to each product's stock.
use mathlib.Core.Path.{subst}
use micromart.Prelude.{
  ℕ, ◌+◌, ◌≡◌, refl, Bool, true, false, Option, some, List, [], ◌∷◌, arith, String, if◌then◌else◌,
  filter, some-eq, ==_refl, ◌==◌,
}
use micromart.Prelude.Int.{◌-ℤ◌}
use micromart.Prelude.Exec.{ok, >>=-eq-ok, with_state}
use micromart.Sql.{World, Uuids, statement, transaction, begun}
use micromart.Sql.Laws.{statement-eq-ok, transaction-eq-ok}
use micromart.Inventory.Entity.{
  Product, StockReservation, ReservationStatus, released, decremented, is_reserved, Tables, other,
  find_product,
}
use micromart.Inventory.Stock.{
  reserve_less, take_stock, update_product, update_each, is_held_by, settle, release_stock,
  decrement_stock,
}
use micromart.Inventory.Holdings.{held, total, held-mark}
use micromart.Inventory.Updates.{
  Both-refl, Both-map, Updated-Both, update_product-Updated, reserve_less_keeps, take_stock_keeps,
}
use micromart.Inventory.Settles.{Settles, settle-Settles}
use micromart.Inventory.Effects.{Falls, StockFalls, StockFalls-trans}

-- What is taken out of stock for a quantity: all of it by a decrement, nothing by a release.
abbrev pub taken : Bool → ℕ → ℕ
taken leaves q = if leaves then q else 0

module _ (leaves : Bool) (set : ℕ → ℕ → Product → Option Product)
    (keeps : (q now : ℕ) (a b : Product) → set q now a ≡ some b → b.id ≡ a.id)
    (falls : (q now : ℕ) (p p' : Product)
      → set q now p ≡ some p'
      → Falls (taken leaves q) p p') where
  update_each-StockFalls :
      (rs : List StockReservation) (w : World Tables) {x : Unit {0}} {w' : World Tables}
      → update_each set rs w ≡ (ok x, w')
      → StockFalls (λ j. taken leaves (total j rs)) w.tables w'.tables
  unfolding update_each total
  update_each-StockFalls [] w {x} {w'} h =
      let same : w.tables ≡ w'.tables = ground arith in
      subst (λ (t : Tables). StockFalls (λ j. taken leaves 0) w.tables t) same
        (λ j.
          Both-refl (Falls (taken leaves 0)) (λ p. ground arith) (find_product j w.tables.products))
  update_each-StockFalls (r ∷ rs) w {x} {w'} h =
      let (_, w1, e, h1) =
        >>=-eq-ok (statement other (update_product r.product_id (set r.quantity)))
          (λ _. update_each set rs) w h in
      let (updated, _) =
        update_product-Updated (set r.quantity) (keeps r.quantity) r.product_id _
          (statement-eq-ok _ _ w e) in
      λ j.
        Both-map
          (Falls (
            taken leaves (if r.product_id == j then r.quantity else 0) + taken leaves (total j rs)))
          (Falls (taken leaves ((if r.product_id == j then r.quantity else 0) + total j rs)))
          (λ p p' f. ground arith) _ _
          (StockFalls-trans (λ j. taken leaves (if r.product_id == j then r.quantity else 0))
            (λ j. taken leaves (total j rs)) w.tables w1.tables w'.tables
            (Updated-Both _ r.product_id _ _
              (λ j. Falls (taken leaves (if r.product_id == j then r.quantity else 0))) updated
              (λ p p' s. rw (==_refl r.product_id) (falls r.quantity w.now p p' s))
              (λ j n p. ground arith))
            (update_each-StockFalls rs w1 h1) j)

-- What closing the reservations of order `o` does. `leaves` says whether they leave the stock.
pub record Closes (leaves : Bool) (o : ℕ) (t t' : Tables) : Type 0 where
  pub stock : StockFalls (λ j. taken leaves (total j (filter (is_held_by o) t.reservations))) t t'
  pub counted :
      (j : ℕ)
      → held j t'.reservations + total j (filter (is_held_by o) t.reservations)
        ≡ held j t.reservations

module _ (leaves : Bool) (set : ℕ → ℕ → Product → Option Product)
    (keeps : (q now : ℕ) (a b : Product) → set q now a ≡ some b → b.id ≡ a.id)
    (falls : (q now : ℕ) (p p' : Product) → set q now p ≡ some p' → Falls (taken leaves q) p p')
    (st : ReservationStatus) (closed : is_reserved st ≡ false) where
  pub Settles-Closes : (o : ℕ) (t t' : Tables) → Settles set st o t t' → Closes leaves o t t'
  Settles-Closes o t t' s = record {
    stock = rw s.kept (
        subst
          (λ (a : Tables).
            StockFalls (λ j. taken leaves (total j (filter (is_held_by o) t.reservations))) a
              s.stop.tables)
          s.start_tables
          (update_each-StockFalls leaves set keeps falls (filter (is_held_by o) t.reservations)
            s.start s.loop));
    counted = λ j. rw s.closed (held-mark j o s.now st t.reservations closed);
  }

  transaction-Closes :
      ⦃u : Uuids⦄ (id : String) (o : ℕ) (w : World Tables) {x : Unit {0}}
      → u.parse id ≡ some o
      → (transaction other (settle set st id) w).0 ≡ ok x
      → Closes leaves o w.tables (transaction other (settle set st id) w).1.tables
  transaction-Closes id o w po h =
      let (e, left) = transaction-eq-ok other (settle set st id) w h in
      let (o', po', s) = settle-Settles set keeps st id (begun w) (with_state _ e) in
      rw left (
        subst (λ (i : ℕ). Closes leaves i w.tables (settle set st id (begun w)).1.tables)
          (some-eq po' po) (Settles-Closes o' w.tables _ s))

pub reserve_less-Falls :
    (q now : ℕ) (p p' : Product) → reserve_less q now p ≡ some p' → Falls 0 p p'
reserve_less-Falls q now p p' e = ground arith

pub take_stock-Falls : (q now : ℕ) (p p' : Product) → take_stock q now p ≡ some p' → Falls q p p'
unfolding ◌-ℤ◌
take_stock-Falls q now p p' e = ground arith

module _ ⦃u : Uuids⦄ (id : String) (o : ℕ) (w : World Tables) (po : u.parse id ≡ some o) where
  -- A release that returns leaves the stock alone and frees what the order held.
  pub release_stock-Closes :
      (release_stock id w).0 ≡ ok tt → Closes false o w.tables (release_stock id w).1.tables
  unfolding release_stock
  release_stock-Closes =
      transaction-Closes false reserve_less reserve_less_keeps reserve_less-Falls released refl id o
        w po

  -- A decrement that returns takes what the order held out of the stock.
  pub decrement_stock-Closes :
      (decrement_stock id w).0 ≡ ok tt → Closes true o w.tables (decrement_stock id w).1.tables
  unfolding decrement_stock
  decrement_stock-Closes =
      transaction-Closes true take_stock take_stock_keeps take_stock-Falls decremented refl id o w
        po
