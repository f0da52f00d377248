-- ===== src/Inventory/Effects.antt =====
-- What a reservation, a release and a decrement do to each product's stock.
use mathlib.Core.Path.{subst}
use micromart.Prelude.{
  ap, ℕ, ◌+◌, ◌≡◌, refl, true, Option, none, some, List, [], ◌∷◌, arith, String, ◌==◌,
  if◌then◌else◌, filter, some-eq,
}
use micromart.Prelude.Int.{ℤ, pos_part}
use micromart.Prelude.Exec.{Result, ok, >>=-eq-ok, ◌>>◌, pure, with_state}
use micromart.Sql.{World, Uuids, begun}
use micromart.Sql.Laws.{transaction-eq-ok}
use micromart.Inventory.Entity.{
  Product, StockReservation, Tables, Error, other, find_product, reserved,
}
use micromart.Inventory.Stock.{
  StockItem, reserve_more, is_held_by, reserve_item, reserve_items, reserve_stock,
}
use micromart.Inventory.Holdings.{held, total, total-filter-append}
use micromart.Inventory.Updates.{Both, Both-refl, Both-trans, Updated-Both}
use micromart.Inventory.Takes.{Takes, reserve_item-Takes}
use micromart.Inventory.Consistency.{held-Takes}

-- The stock of a product falls by `n`.
abbrev pub Falls : ℕ → Product → Product → Type 0
Falls n p p' = p'.stock_available + n ≡ p.stock_available

-- Lookups before and after find the same products, whose stock has fallen by `n`.
abbrev pub StockFalls : (ℕ → ℕ) → Tables → Tables → Type 0
StockFalls n t t' =
    (j : ℕ) → Both (Falls (n j)) (find_product j t.products) (find_product j t'.products)

pub StockFalls-trans :
    (n m : ℕ → ℕ) (a b c : Tables)
    → StockFalls n a b
    → StockFalls m b c
    → StockFalls (λ j. n j + m j) a c
StockFalls-trans n m a b c f g j =
    Both-trans (Falls (n j)) (Falls (m j)) (Falls (n j + m j)) (λ p q r x y. omega arith) _ _ _
      (f j) (g j)

-- How much of product `j` the items ask for.
abbrev pub asks : Option ℕ → ℕ → ℤ → ℕ
asks none j q = 0
asks (some k) j q = if k == j then pos_part q else 0

unfoldable pub demand : ⦃u : Uuids⦄ → ℕ → List StockItem → ℕ
demand j [] = 0
demand ⦃u⦄ j (item ∷ items) = asks (u.parse item.product_id) j item.quantity + demand j items

-- What a reservation of `items` for order `o` does.
pub record Reserves ⦃u : Uuids⦄ (o : ℕ) (items : List StockItem) (t t' : Tables) : Type 0 where
  pub stock : StockFalls (λ _. 0) t t'
  pub counted : (j : ℕ) → held j t'.reservations ≡ held j t.reservations + demand j items
  pub of_order :
      (j : ℕ)
      → total j (filter (is_held_by o) t'.reservations)
        ≡ total j (filter (is_held_by o) t.reservations) + demand j items

reserve_more_stock :
    (q : ℤ) (now : ℕ) (p p' : Product) → reserve_more q now p ≡ some p' → Falls 0 p p'
reserve_more_stock q now p p' e = ground arith

is_held_by_one :
    (o : ℕ) (r : StockReservation) → r.status ≡ reserved → r.order_id ≡ o → is_held_by o r ≡ true
is_held_by_one o r s e = ground arith

module _ ⦃u : Uuids⦄ {o k : ℕ} {t t' : Tables} (item : StockItem)
    (tk : Takes o k item.quantity t t') (pk : u.parse item.product_id ≡ some k) where
  open tk use {recorded, middle, now}

  Takes-asks :
      (j : ℕ) → asks (u.parse item.product_id) j item.quantity ≡ (if k == j then recorded.n else 0)
  Takes-asks j = rw (pk, recorded.whole) refl

  Takes-Reserves : Reserves o (item ∷ []) t t'
  unfolding demand
  Takes-Reserves = record {
    stock = λ j. rw recorded.kept (
        Updated-Both _ k t.products middle.products (λ _. Falls 0) tk.updated
          (reserve_more_stock item.quantity now) (λ _ _ _. omega arith) j);
    counted = λ j. omega (arith, held-Takes tk j, Takes-asks j);
    of_order = λ j.
        rw (recorded.added, tk.unchanged)
          (omega (
            arith,
            total-filter-append j o t.reservations recorded.row
                (is_held_by_one o recorded.row recorded.row_status recorded.row_order),
            Takes-asks j,
            row_asks j,
          ));
  }
    where
      row_asks :
          (j : ℕ)
          → (if recorded.row.product_id == j then recorded.row.quantity else 0)
            ≡ (if k == j then recorded.n else 0)
      row_asks j = rw (recorded.row_product, recorded.row_quantity) refl

Reserves-cons :
    ⦃u : Uuids⦄ (o : ℕ) (item : StockItem) (items : List StockItem) (a b c : Tables)
    → Reserves o (item ∷ []) a b
    → Reserves o items b c
    → Reserves o (item ∷ items) a c
unfolding demand
Reserves-cons o item items a b c r s = record {
  stock = StockFalls-trans (λ _. 0) (λ _. 0) a b c r.stock s.stock;
  counted = λ j. omega (arith, r.counted j, s.counted j);
  of_order = λ j. omega (arith, r.of_order j, s.of_order j);
}

Reserves-nil : ⦃u : Uuids⦄ (o : ℕ) (t : Tables) → Reserves o [] t t
unfolding demand
Reserves-nil o t = record {
  stock = λ j. Both-refl (Falls 0) (λ p. omega arith) (find_product j t.products);
  counted = λ j. omega arith;
  of_order = λ j. omega arith;
}

module _ ⦃u : Uuids⦄ (order_id : String) (o : ℕ) (po : u.parse order_id ≡ some o) where
  reserve_items-Reserves :
      (items : List StockItem) (w : World Tables) {x : Unit {0}} {w' : World Tables}
      → reserve_items order_id items w ≡ (ok x, w')
      → Reserves o items w.tables w'.tables
  unfolding reserve_items
  reserve_items-Reserves [] w {x} {w'} h =
      let same : w.tables ≡ w'.tables = ground arith in
      subst (λ (t : Tables). Reserves o [] w.tables t) same (Reserves-nil o w.tables)
  reserve_items-Reserves (item ∷ items) w {x} {w'} h =
      let (_, w1, e, h1) =
        >>=-eq-ok (reserve_item order_id item) (λ _. reserve_items order_id items) w h in
      let (o', k, po', pk, tk) = reserve_item-Takes order_id item w e in
      Reserves-cons o item items w.tables w1.tables w'.tables
        (Takes-Reserves item
          (subst (λ (i : ℕ). Takes i k item.quantity w.tables w1.tables) (some-eq po' po) tk) pk)
        (reserve_items-Reserves items w1 h1)

  -- When ReserveStock returns, no product's available stock has changed, and what the reservations
  -- hold of each product, all together and those of this order, has grown by what the items ask
  -- for, however the calls ended.
  pub reserve_stock-Reserves :
      (items : List StockItem) (w : World Tables) {id : String}
      → (reserve_stock order_id items w).0 ≡ ok id
      → Reserves o items w.tables (reserve_stock order_id items w).1.tables
  unfolding reserve_stock
  reserve_stock-Reserves items w h =
      let (e, left) = transaction-eq-ok other (reserve_items order_id items >> pure order_id) w h in
      let (_, w1, e1, h1) =
        >>=-eq-ok (reserve_items order_id items) (λ _. pure order_id) (begun w) (with_state _ e) in
      rw (left, ← (ap (λ (r : Result Error String × World Tables). r.1.tables) h1))
        (reserve_items-Reserves items (begun w) e1)
