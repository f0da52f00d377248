-- ===== src/Inventory/Settlement.antt =====
-- ReleaseStock and DecrementStock keep the tables consistent: what they take off the products is
-- what the reservations that they close held.
use mathlib.Core.Path.{subst, fun_ext}
use micromart.Prelude.{ℕ, ◌+◌, ◌≡◌, refl, false, Option, some, List, [], ◌∷◌, arith, String, filter}
use micromart.Prelude.Int.{◌-ℤ◌}
use micromart.Prelude.Exec.{ok, >>=-eq-ok}
use micromart.Sql.{World, Uuids, statement}
use micromart.Sql.Laws.{statement-eq-ok}
use micromart.Sql.Keys.{IsPrimary}
use micromart.Inventory.Entity.{
  Product, StockReservation, ReservationStatus, released, decremented, is_reserved, Tables, other,
}
use micromart.Inventory.Stock.{
  reserve_less, take_stock, update_product, update_each, is_held_by, release_stock, decrement_stock,
}
use micromart.Inventory.Holdings.{held, total, held-mark}
use micromart.Inventory.Updates.{update_product-Updated, reserve_less_keeps, take_stock_keeps}
use micromart.Inventory.Invariants.{settle-KeepsTables}
use micromart.Inventory.Settles.{Settles}
use micromart.Inventory.Consistency.{Accounts, AllAccounts, IsConsistent, Updated-AllAccounts}

module _ (set : ℕ → ℕ → Product → Option Product)
    (keeps : (q now : ℕ) (a b : Product) → set q now a ≡ some b → b.id ≡ a.id)
    (lowers : (q m now : ℕ) (p p' : Product)
      → Accounts (q + m) p
      → set q now p ≡ some p'
      → Accounts m p') where
  -- The loop takes the quantities of its reservations off the counts.
  update_each-AllAccounts :
      (base : ℕ → ℕ) (rs : List StockReservation) (w : World Tables) {x : Unit {0}}
      {w' : World Tables}
      → update_each set rs w ≡ (ok x, w')
      → IsPrimary (λ p. p.id) w.tables.products
      → AllAccounts (λ j. total j rs + base j) w.tables.products
      → IsPrimary (λ p. p.id) w'.tables.products × AllAccounts base w'.tables.products
  unfolding update_each total
  update_each-AllAccounts base [] w {x} {w'} h prim acc =
      let same : w.tables ≡ w'.tables = ground arith in
      subst (λ (t : Tables). IsPrimary (λ p. p.id) t.products × AllAccounts base t.products) same
        (
          prim,
          λ k p f.
              (ground (arith, acc k p f), ground (arith, acc k p f), ground (arith, acc k p f)),
        )
  update_each-AllAccounts base (r ∷ rs) w h prim acc =
      let (_, w1, e, h1) =
        >>=-eq-ok (statement other (update_product r.product_id (set r.quantity)))
          (λ _. update_each set rs) w h in
      let (updated, same) =
        update_product-Updated (set r.quantity) (keeps r.quantity) r.product_id _
          (statement-eq-ok _ _ w e) in
      let (prim', acc') = update_each-AllAccounts base rs w1 h1 (updated.0 prim) (
        Updated-AllAccounts _ r.product_id _ _ _ (λ j. total j rs + base j) updated acc
          (λ j n. ground arith)
          (λ p p' f a s.
            lowers r.quantity (total r.product_id rs + base r.product_id) w.now p p' (ground arith)
              s)) in
      (prim', acc')

  Settles-IsConsistent :
      (st : ReservationStatus)
      → is_reserved st ≡ false
      → (o : ℕ) (t t' : Tables) → Settles set st o t t'
      → IsConsistent t
      → IsConsistent t'
  Settles-IsConsistent st open_no o t t' s c =
      let rs = filter (is_held_by o) t.reservations in
      let base = λ (j : ℕ). held j t'.reservations in
      let sums : (j : ℕ) → held j t.reservations ≡ total j rs + base j =
        λ j. rw s.closed (omega (arith, held-mark j o s.now st t.reservations open_no)) in
      let (prim, acc) =
        update_each-AllAccounts base rs s.start s.loop (rw s.start_tables c.primary) (
          rw s.start_tables
            (subst (λ (n : ℕ → ℕ). AllAccounts n t.products) (fun_ext sums) c.accounted)) in
      record { primary = rw s.kept prim; accounted = rw s.kept acc }

pub reserve_less_lowers :
    (q m now : ℕ) (p p' : Product)
    → Accounts (q + m) p
    → reserve_less q now p ≡ some p'
    → Accounts m p'
unfolding ◌-ℤ◌
reserve_less_lowers q m now p p' a e = ground arith

pub take_stock_lowers :
    (q m now : ℕ) (p p' : Product)
    → Accounts (q + m) p
    → take_stock q now p ≡ some p'
    → Accounts m p'
unfolding ◌-ℤ◌
take_stock_lowers q m now p p' a e = ground arith

module _ ⦃u : Uuids⦄ (id : String) (w : World Tables) (c : IsConsistent w.tables) where
  -- ReleaseStock keeps the tables consistent, however its calls end.
  pub release_stock-IsConsistent : IsConsistent (release_stock id w).1.tables
  unfolding release_stock
  release_stock-IsConsistent =
      settle-KeepsTables IsConsistent reserve_less reserve_less_keeps released
        (Settles-IsConsistent reserve_less reserve_less_keeps reserve_less_lowers released refl) id
        w c

  -- DecrementStock keeps the tables consistent, however its calls end.
  pub decrement_stock-IsConsistent : IsConsistent (decrement_stock id w).1.tables
  unfolding decrement_stock
  decrement_stock-IsConsistent =
      settle-KeepsTables IsConsistent take_stock take_stock_keeps decremented
        (Settles-IsConsistent take_stock take_stock_keeps take_stock_lowers decremented refl) id w c
