-- ===== src/Inventory/RoundTrip.antt =====
-- A reservation followed by a release gives every product its counts back; followed by a
-- decrement it takes the quantities out of stock.
use micromart.Prelude.{
  ℕ, ◌+◌, ◌≤◌, ◌≡◌, refl, Bool, false, true, some, List, [], arith, String, filter,
}
use micromart.Prelude.Exec.{ok}
use micromart.Sql.{World, Uuids}
use micromart.Inventory.Entity.{Product, Tables, find_product}
use micromart.Inventory.Stock.{StockItem, is_held_by, reserve_stock, release_stock, decrement_stock}
use micromart.Inventory.Holdings.{total}
use micromart.Inventory.Updates.{Both, Both-and, Both-before}
use micromart.Inventory.Consistency.{IsConsistent, reserve_stock-IsConsistent}
use micromart.Inventory.Settlement.{release_stock-IsConsistent, decrement_stock-IsConsistent}
use micromart.Inventory.Effects.{Falls, StockFalls-trans, demand, reserve_stock-Reserves}
use micromart.Inventory.Closing.{Closes, taken, release_stock-Closes, decrement_stock-Closes}

-- A product whose available stock has fallen by `n`, with as much reserved as before.
abbrev pub Settled : ℕ → Product → Product → Type 0
Settled n p p' =
    (p'.stock_available + n ≡ p.stock_available) × (p'.stock_reserved ≡ p.stock_reserved)

-- What a client can see of the products' stock, before and after.
abbrev pub AllSettled : (ℕ → ℕ) → Tables → Tables → Type 0
AllSettled n t t' =
    (j : ℕ) → Both (Settled (n j)) (find_product j t.products) (find_product j t'.products)

module _ ⦃u : Uuids⦄ (order_id : String) (o : ℕ) (items : List StockItem) (w : World Tables)
    (po : u.parse order_id ≡ some o) (c : IsConsistent w.tables)
    (fresh : filter (is_held_by o) w.tables.reservations ≡ []) {id : String}
    (reserved : (reserve_stock order_id items w).0 ≡ ok id) where
  -- The world in which the reservation leaves the service.
  abbrev pub after_reserve : World Tables
  after_reserve = (reserve_stock order_id items w).1

  pub Closes-AllSettled :
      (leaves : Bool) (t : Tables)
      → IsConsistent t
      → Closes leaves o after_reserve.tables t
      → AllSettled (λ j. taken leaves (demand j items)) w.tables t
  Closes-AllSettled leaves t ct k j =
      let r = reserve_stock-Reserves order_id o po items w reserved in
      Both-and
        (Falls
          (0 + taken leaves (total j (filter (is_held_by o) after_reserve.tables.reservations))))
        (Settled (taken leaves (demand j items))) _ _
        (λ p p' f f' falls.
          let a = c.accounted j p f in
          let a' = ct.accounted j p' f' in
          let of_order = r.of_order j in
          let none_before : total j (filter (is_held_by o) w.tables.reservations) ≡ 0 =
            unfold total in rw fresh refl in
          ground (arith, r.counted j, k.counted j))
        (StockFalls-trans (λ _. 0)
          (λ j. taken leaves (total j (filter (is_held_by o) after_reserve.tables.reservations)))
          w.tables after_reserve.tables t r.stock k.stock j)

  -- From consistent tables in which the order holds nothing: a ReserveStock that returned, followed
  -- by a ReleaseStock that returned, gives every product the counts that it had before.
  pub release-reserve :
      (release_stock order_id after_reserve).0 ≡ ok tt
      → AllSettled (λ _. 0) w.tables (release_stock order_id after_reserve).1.tables
  release-reserve h =
      Closes-AllSettled false _
        (release_stock-IsConsistent order_id after_reserve
          (reserve_stock-IsConsistent order_id items w c))
        (release_stock-Closes order_id o after_reserve po h)

  -- From consistent tables in which the order holds nothing: a ReserveStock that returned, followed
  -- by a DecrementStock that returned, takes the quantities that were asked for out of the
  -- available stock, and leaves as much reserved as before.
  pub decrement-reserve :
      (decrement_stock order_id after_reserve).0 ≡ ok tt
      → AllSettled (λ j. demand j items) w.tables (decrement_stock order_id after_reserve).1.tables
  decrement-reserve h =
      Closes-AllSettled true _
        (decrement_stock-IsConsistent order_id after_reserve
          (reserve_stock-IsConsistent order_id items w c))
        (decrement_stock-Closes order_id o after_reserve po h)

-- From consistent tables, a ReserveStock that returned asked for no more of any product than was
-- available and not reserved.
pub reserve_enough :
    ⦃u : Uuids⦄ (order_id : String) (o : ℕ) (items : List StockItem) (w : World Tables)
    → u.parse order_id ≡ some o
    → IsConsistent w.tables
    → {id : String} → (reserve_stock order_id items w).0 ≡ ok id
    → (j : ℕ) (p : Product) → find_product j w.tables.products ≡ some p
    → p.stock_reserved + demand j items ≤ p.stock_available
reserve_enough order_id o items w po c h j p f =
    let r = reserve_stock-Reserves order_id o po items w h in
    let (p', f', falls) = Both-before (Falls 0) _ _ (r.stock j) f in
    let a' = (reserve_stock-IsConsistent order_id items w c).accounted j p' f' in
    let a = c.accounted j p f in omega (arith, r.counted j)
