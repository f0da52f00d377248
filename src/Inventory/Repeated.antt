-- ===== src/Inventory/Repeated.antt =====
-- Two reservations of one order, which is what a retried ReserveStock comes to when the answer of the
-- first is lost: no constraint of the table and no check of the code stands in its way.
use micromart.Prelude.{ℕ, ◌+◌, ◌≡◌, refl, some, String, true, List, [], arith, filter}
use micromart.Prelude.Exec.{ok}
use micromart.Sql.{World, Uuids}
use micromart.Inventory.Entity.{Tables}
use micromart.Inventory.Stock.{StockItem, is_held_by, reserve_stock, decrement_stock}
use micromart.Inventory.Holdings.{total}
use micromart.Inventory.Updates.{Both-and}
use micromart.Inventory.Consistency.{IsConsistent, reserve_stock-IsConsistent}
use micromart.Inventory.Settlement.{decrement_stock-IsConsistent}
use micromart.Inventory.Effects.{Falls, StockFalls-trans, demand, reserve_stock-Reserves}
use micromart.Inventory.Closing.{taken, decrement_stock-Closes}
use micromart.Inventory.RoundTrip.{Settled, AllSettled}

-- Reservations of one order add up: from consistent tables in which the order holds nothing, a
-- ReserveStock and another one that returned, followed by a DecrementStock that returned, take out
-- of the available stock what the two asked for together, and leave as much reserved as before.
pub decrement-reserve_twice :
    ⦃u : Uuids⦄ (order_id : String) (o : ℕ) (items more : List StockItem) (w : World Tables)
    {id id' : String}
    → u.parse order_id ≡ some o
    → IsConsistent w.tables
    → filter (is_held_by o) w.tables.reservations ≡ []
    → let w1 = (reserve_stock order_id items w).1 in
      let w2 = (reserve_stock order_id more w1).1 in
      (reserve_stock order_id items w).0 ≡ ok id
      → (reserve_stock order_id more w1).0 ≡ ok id'
      → (decrement_stock order_id w2).0 ≡ ok tt
      → AllSettled
          (λ j. demand j items + demand j more)
          w.tables
          (decrement_stock order_id w2).1.tables
decrement-reserve_twice order_id o items more w po c fresh first second taken_out j =
    let w1 = (reserve_stock order_id items w).1 in
    let w2 = (reserve_stock order_id more w1).1 in
    let w3 = (decrement_stock order_id w2).1 in
    let c1 = reserve_stock-IsConsistent order_id items w c in
    let c2 = reserve_stock-IsConsistent order_id more w1 c1 in
    let c3 = decrement_stock-IsConsistent order_id w2 c2 in
    let r = reserve_stock-Reserves order_id o po items w first in
    let s = reserve_stock-Reserves order_id o po more w1 second in
    let k = decrement_stock-Closes order_id o w2 po taken_out in
    let left = λ (j : ℕ). taken true (total j (filter (is_held_by o) w2.tables.reservations)) in
    Both-and (Falls (0 + (0 + left j))) (Settled (demand j items + demand j more)) _ _
      (λ p p' f f' falls.
        let a = c.accounted j p f in
        let a' = c3.accounted j p' f' in
        let none_before : total j (filter (is_held_by o) w.tables.reservations) ≡ 0 =
          unfold total in rw fresh refl in
        ground (arith, r.counted j, s.counted j, k.counted j, r.of_order j, s.of_order j))
      (StockFalls-trans (λ _. 0) (λ j. 0 + left j) w.tables w1.tables w3.tables r.stock
        (StockFalls-trans (λ _. 0) left w1.tables w2.tables w3.tables s.stock k.stock) j)
