-- ===== src/Inventory/Conserved.antt =====
-- The ledger of the stock through each operation of services/inventory that writes.
use micromart.Prelude.{ℕ, String, ◌≡◌, refl, Option, some, List, arith, inl, inr, false, true, Bool}
use micromart.Prelude.Int.{ℤ}
use micromart.Prelude.Exec.{Exec}
use micromart.Prelude.Keeps.{Keeps}
use micromart.Sql.{World, Uuids, begun}
use micromart.Sql.Tables.{and_then-eq-some, check_int, check_bigint, and_then}
use micromart.Sql.Keys.{find_key-kept}
use micromart.Sql.Laws.{statement-cases}
use micromart.Inventory.Entity.{
  Product, ReservationStatus, released, decremented, is_reserved, Tables, Error, other,
}
use micromart.Inventory.Stock.{
  StockItem, reserve_more, reserve_less, take_stock, reserve_stock, release_stock, decrement_stock,
}
use micromart.Inventory.Products
use micromart.Inventory.Products.{
  CreateProductParams, UpdateProductParams, new_product, put_new_product, insert_product,
  create_product,
}
use micromart.Inventory.Updates.{Updated, Updated-Both, reserve_less_keeps, take_stock_keeps}
use micromart.Inventory.Takes.{Takes}
use micromart.Inventory.Settles.{Settles}
use micromart.Inventory.Effects.{Falls}
use micromart.Inventory.Closing.{taken, Settles-Closes, reserve_less-Falls, take_stock-Falls}
use micromart.Inventory.Invariants.{
  KeepsStock, reserve_stock-KeepsTables, settle-KeepsTables, update_product-KeepsTables,
}
use micromart.Inventory.ProductCreation.{put_product-eq-some}
use micromart.Inventory.Ledger.{
  is_decremented, Conserves, Conserves-trans, StockFalls-Conserves, sold-append, sold-mark,
}

reserve_more_stock :
    (q : ℤ) (now : ℕ) (p p' : Product) → reserve_more q now p ≡ some p' → Falls 0 p p'
reserve_more_stock q now p p' e = ground arith

Takes-Conserves : (o k : ℕ) (q : ℤ) (t t' : Tables) → Takes o k q t t' → Conserves t t'
Takes-Conserves o k q t t' tk =
    StockFalls-Conserves (λ _. 0) t t'
      (λ j. rw tk.recorded.kept (
        Updated-Both _ k t.products tk.middle.products (λ _. Falls 0) tk.updated
          (reserve_more_stock q tk.now) (λ _ _ _. omega arith) j))
      (λ j.
        rw (tk.recorded.added, tk.unchanged)
          (omega (arith, sold-append j t.reservations tk.recorded.row tk.recorded.row_status)))

Settles-Conserves :
    (leaves : Bool) (set : ℕ → ℕ → Product → Option Product)
    (keeps : (q now : ℕ) (a b : Product) → set q now a ≡ some b → b.id ≡ a.id)
    (falls : (q now : ℕ) (p p' : Product) → set q now p ≡ some p' → Falls (taken leaves q) p p')
    (st : ReservationStatus)
    → is_reserved st ≡ false
    → is_decremented st ≡ leaves
    → (o : ℕ) (t t' : Tables) → Settles set st o t t'
    → Conserves t t'
Settles-Conserves leaves set keeps falls st closed sells o t t' s =
    StockFalls-Conserves _ t t' (Settles-Closes leaves set keeps falls st closed o t t' s).stock
      (λ j. rw s.closed (sold-mark leaves j o s.now st t.reservations sells))

row-Conserves :
    (set : Product → Option Product) (k : ℕ) (t t' : Tables)
    → ((a b : Product) → set a ≡ some b → KeepsStock a b)
    → Updated set k t.products t'.products
    → t'.reservations ≡ t.reservations
    → Conserves t t'
row-Conserves set k t t' keeps updated same =
    StockFalls-Conserves (λ _. 0) t t'
      (Updated-Both set k t.products t'.products (λ _. Falls 0) updated
        (λ p p' s. ground (arith, keeps p p' s)) (λ _ _ _. omega arith))
      (λ j. rw same (omega arith))

insert_product-Conserves :
    (p : CreateProductParams) (w : World Tables) {q : Product} {w' : World Tables}
    → insert_product p w ≡ some (q, w')
    → Conserves w.tables w'.tables
unfolding insert_product
insert_product-Conserves p w {q} {w'} h k x found =
    let (price, e1, h1) =
      and_then-eq-some (check_bigint p.price_cents)
        (λ price. and_then (check_int p.initial_stock) λ stock. put_new_product p price stock w)
        h in
    let (stock, e2, h2) =
      and_then-eq-some (check_int p.initial_stock) (λ stock. put_new_product p price stock w) h1 in
    let (free, rows, same) = put_product-eq-some _ (new_product p price stock w) w h2 in
    (
      x,
      rw rows (find_key-kept (λ p. p.id) k w.tables.products (new_product p price stock w) found),
      rw same refl,
    )

-- From any tables `t` on, each operation goes on conserving.
module _ (t : Tables) where
  abbrev pub SinceStart : {A : Type 0} → Exec (World Tables) Error A → Type 0
  SinceStart m = Keeps (λ w. Conserves t w.tables) m

  pub create_product-Conserves : (p : CreateProductParams) → SinceStart (create_product p)
  unfolding create_product
  create_product-Conserves p w c = elim (statement-cases other (insert_product p) w) [
    | inl same ↦ rw same c
    | inr (q, w', made, left) ↦
        rw left (Conserves-trans t w.tables w'.tables c (insert_product-Conserves p (begun w) made))
  ]

  module _ ⦃u : Uuids⦄ where
    pub reserve_stock-Conserves :
        (order_id : String) (items : List StockItem) → SinceStart (reserve_stock order_id items)
    reserve_stock-Conserves =
        reserve_stock-KeepsTables (Conserves t)
          λ o k q a b tk c. Conserves-trans t a b c (Takes-Conserves o k q a b tk)

    pub release_stock-Conserves : (id : String) → SinceStart (release_stock id)
    unfolding release_stock
    release_stock-Conserves =
        settle-KeepsTables (Conserves t) reserve_less reserve_less_keeps released λ o a b s c.
          Conserves-trans t a b c (
            Settles-Conserves false reserve_less reserve_less_keeps reserve_less-Falls released refl
              refl o a b s)

    pub decrement_stock-Conserves : (id : String) → SinceStart (decrement_stock id)
    unfolding decrement_stock
    decrement_stock-Conserves =
        settle-KeepsTables (Conserves t) take_stock take_stock_keeps decremented λ o a b s c.
          Conserves-trans t a b c (
            Settles-Conserves true take_stock take_stock_keeps take_stock-Falls decremented refl
              refl o a b s)

    pub update_product-Conserves :
        (id : String) (q : UpdateProductParams) → SinceStart (Products.update_product id q)
    update_product-Conserves =
        update_product-KeepsTables (Conserves t) λ set k a b keeps updated same c.
          Conserves-trans t a b c (row-Conserves set k a b keeps updated same)
