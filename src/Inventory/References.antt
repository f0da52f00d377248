-- ===== src/Inventory/References.antt =====
-- The foreign key of stock_reservations, as an invariant of the tables: nothing is held of a product
-- that is not there.
use micromart.Prelude.{
  ℕ, String, ◌≡◌, refl, ◌∙◌, inl, inr, false, Option, none, some, List, [], ◌∷◌, arith, ap, sym,
  ℕ-cases,
}
use micromart.Prelude.Int.{ℤ}
use micromart.Prelude.Exec.{ok, >>=-eq-ok}
use micromart.Sql.{World, Uuids, statement, begun}
use micromart.Sql.Keys.{find_key-missing}
use micromart.Sql.Laws.{statement-cases, statement-eq-ok}
use micromart.Sql.Tables.{check_int, check_bigint, and_then, and_then-eq-some}
use micromart.Inventory.Entity.{
  Product, StockReservation, ReservationStatus, released, decremented, is_reserved, Tables, other,
  find_product,
}
use micromart.Inventory.Stock.{
  StockItem, reserve_less, take_stock, update_product, update_each, reserve_stock, release_stock,
  decrement_stock, reserve_more,
}
use micromart.Inventory.Products
use micromart.Inventory.Products.{
  CreateProductParams, UpdateProductParams, insert_product, create_product, put_new_product,
  new_product,
}
use micromart.Inventory.Holdings.{held-mark}
use micromart.Inventory.Updates.{
  Both, Updated, update_product-Updated, reserve_less_keeps, take_stock_keeps,
}
use micromart.Inventory.Takes.{Takes}
use micromart.Inventory.Settles.{Settles}
use micromart.Inventory.Consistency.{held-Takes}
use micromart.Inventory.Invariants.{
  reserve_stock-KeepsTables, settle-KeepsTables, update_product-KeepsTables,
}
use micromart.Inventory.ProductCreation.{IsReferenced, put_product-eq-some}

Both-none :
    (R : Product → Product → Type 0) (o o' : Option Product) → Both R o o' → o' ≡ none → o ≡ none
Both-none R none o' b e = refl
Both-none R (some p) none b e = absurd b
Both-none R (some p) (some q) b e = cc

-- An UPDATE removes no product.
Updated-none :
    (set : Product → Option Product) (k : ℕ) (ps ps' : List Product)
    → Updated set k ps ps'
    → (j : ℕ) → find_product j ps' ≡ none
    → find_product j ps ≡ none
Updated-none set k ps ps' (_, others, one) j missing = elim (ℕ-cases j k) [
  | inl same ↦ rw same (Both-none (λ p p'. set p ≡ some p') _ _ one (rw same at missing))
  | inr differs ↦ sym (others j differs) ∙ missing
]

Takes-IsReferenced :
    (o k : ℕ) (q : ℤ) (t t' : Tables) → Takes o k q t t' → IsReferenced t → IsReferenced t'
Takes-IsReferenced o k q t t' tk r j missing =
    let before =
      Updated-none (reserve_more q tk.now) k t.products tk.middle.products tk.updated j
        (ap (find_product j) (sym tk.recorded.kept) ∙ missing) in
    ground (arith, held-Takes tk j, r j before, tk.found)

-- ReserveStock keeps the reference.
pub reserve_stock-IsReferenced :
    ⦃u : Uuids⦄ (order_id : String) (items : List StockItem) (w : World Tables)
    → IsReferenced w.tables
    → IsReferenced (reserve_stock order_id items w).1.tables
reserve_stock-IsReferenced = reserve_stock-KeepsTables IsReferenced Takes-IsReferenced

module _ (set : ℕ → ℕ → Product → Option Product)
    (keeps : (q now : ℕ) (a b : Product) → set q now a ≡ some b → b.id ≡ a.id) where
  update_each-none :
      (rs : List StockReservation) (w : World Tables) {x : Unit {0}} {w' : World Tables}
      → update_each set rs w ≡ (ok x, w')
      → (j : ℕ) → find_product j w'.tables.products ≡ none
      → find_product j w.tables.products ≡ none
  unfolding update_each
  update_each-none [] w {x} {w'} h j missing = ground arith
  update_each-none (r ∷ rs) w h j missing =
      let (_, w1, e, h1) =
        >>=-eq-ok (statement other (update_product r.product_id (set r.quantity)))
          (λ _. update_each set rs) w h in
      let (updated, _) =
        update_product-Updated (set r.quantity) (keeps r.quantity) r.product_id _
          (statement-eq-ok _ _ w e) in
      Updated-none _ r.product_id _ _ updated j (update_each-none rs w1 h1 j missing)

  Settles-IsReferenced :
      (st : ReservationStatus)
      → is_reserved st ≡ false
      → (o : ℕ) (t t' : Tables) → Settles set st o t t'
      → IsReferenced t
      → IsReferenced t'
  Settles-IsReferenced st closed o t t' s r j missing =
      let before =
        update_each-none _ s.start s.loop j (ap (find_product j) (sym s.kept) ∙ missing) in
      let there : find_product j t.products ≡ none = rw (← s.start_tables) before in
      rw s.closed (omega (arith, held-mark j o s.now st t.reservations closed, r j there))

module _ ⦃u : Uuids⦄ (id : String) (w : World Tables) (r : IsReferenced w.tables) where
  pub release_stock-IsReferenced : IsReferenced (release_stock id w).1.tables
  unfolding release_stock
  release_stock-IsReferenced =
      settle-KeepsTables IsReferenced reserve_less reserve_less_keeps released
        (Settles-IsReferenced reserve_less reserve_less_keeps released refl) id w r

  pub decrement_stock-IsReferenced : IsReferenced (decrement_stock id w).1.tables
  unfolding decrement_stock
  decrement_stock-IsReferenced =
      settle-KeepsTables IsReferenced take_stock take_stock_keeps decremented
        (Settles-IsReferenced take_stock take_stock_keeps decremented refl) id w r

pub update_product-IsReferenced :
    ⦃u : Uuids⦄ (id : String) (q : UpdateProductParams) (w : World Tables)
    → IsReferenced w.tables
    → IsReferenced (Products.update_product id q w).1.tables
update_product-IsReferenced =
    update_product-KeepsTables IsReferenced λ set k t t' keeps updated same r j missing.
      rw same (r j (Updated-none set k t.products t'.products updated j missing))

insert_product-IsReferenced :
    (p : CreateProductParams) (w : World Tables) {q : Product} {w' : World Tables}
    → insert_product p w ≡ some (q, w')
    → IsReferenced w.tables
    → IsReferenced w'.tables
unfolding insert_product
insert_product-IsReferenced p w {q} {w'} h r j missing =
    let (price, e1, h1) =
      and_then-eq-some (check_bigint p.price_cents)
        (λ price. and_then (check_int p.initial_stock) λ stock. put_new_product p price stock w)
        h in
    let (stock, e2, h2) =
      and_then-eq-some (check_int p.initial_stock) (λ stock. put_new_product p price stock w) h1 in
    let (free, rows, same) = put_product-eq-some _ (new_product p price stock w) w h2 in
    rw same (
      r j (
        find_key-missing (λ p. p.id) j w.tables.products (new_product p price stock w)
          (rw rows at missing)))

-- CreateProduct keeps the reference.
pub create_product-IsReferenced :
    (p : CreateProductParams) (w : World Tables)
    → IsReferenced w.tables
    → IsReferenced (create_product p w).1.tables
unfolding create_product
create_product-IsReferenced p w r = elim (statement-cases other (insert_product p) w) [
  | inl same ↦ rw same r
  | inr (q, w', made, left) ↦ rw left (insert_product-IsReferenced p (begun w) made r)
]
