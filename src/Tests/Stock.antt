-- ===== src/Tests/Stock.antt =====
-- The stock of the inventory service.
use micromart.Prelude.{ℕ, ◌+◌, ◌≤◌, ◌≡◌, ◌⊎◌, refl, arith, [], ◌∷◌, filter, map}
use micromart.Prelude.Int.{wrap32, wrap_at, ◌-ℤ◌, ◌+ℤ◌}
use micromart.Prelude.Exec.{ok, err}
use micromart.Sql.{World, calm, statement, transaction}
use micromart.Sql.Tables.{update_where}
use micromart.Inventory.Entity.{Tables, StockReservation, reserved, released, find_product, Error}
use micromart.Inventory.Stock
use micromart.Inventory.Stock.{reserve_stock, release_stock, decrement_stock, is_held_by}
use micromart.Inventory.Holdings.{held}
use micromart.Inventory.Consistency.{IsConsistent, reserve_stock-IsConsistent}
use micromart.Inventory.Settlement.{decrement_stock-IsConsistent}
use micromart.Inventory.Effects.{demand, Reserves}
use micromart.Inventory.Calm.{release_stock-calm}
use micromart.Inventory.Whole.{HasEnough, reserve_stock-whole}
use micromart.Inventory.Repeated.{decrement-reserve_twice}
use micromart.Inventory.RoundTrip.{AllSettled, release-reserve, decrement-reserve, reserve_enough}
use micromart.Tests.Fixtures.{digits, print_id, lamp, shelf, shop, two_lamps}

pub shelf-IsConsistent : IsConsistent shelf
unfolding held
shelf-IsConsistent = record { primary = (refl, tt); accounted = λ k p f. ground arith }

abbrev pub held_shop : World Tables
held_shop = (reserve_stock (print_id 5) two_lamps shop).1

pub held_shop-IsConsistent : IsConsistent held_shop.tables
held_shop-IsConsistent = reserve_stock-IsConsistent (print_id 5) two_lamps shop shelf-IsConsistent

unfoldable pub stock_runs : Unit {0}
unfolding Stock.reserve_stock Stock.reserve_items Stock.reserve_item Stock.lock_product
    Stock.add_reserved Stock.record_reserved Stock.update_product Stock.insert_reservation
    Stock.select_held Stock.update_each Stock.close_rows Stock.mark Stock.release_stock
    Stock.decrement_stock statement transaction update_where wrap32 wrap_at ◌-ℤ◌ ◌+ℤ◌
stock_runs = tt

reserve_stock_runs : (reserve_stock (print_id 5) two_lamps shop).0 ≡ ok (print_id 5)
unfolding stock_runs
reserve_stock_runs = refl

release_stock_runs : (release_stock (print_id 5) held_shop).0 ≡ ok tt
unfolding stock_runs
release_stock_runs = refl

decrement_stock_runs : (decrement_stock (print_id 5) held_shop).0 ≡ ok tt
unfolding stock_runs
decrement_stock_runs = refl

reserve_stock-IsConsistent_example :
    IsConsistent (reserve_stock (print_id 5) two_lamps shop).1.tables
reserve_stock-IsConsistent_example =
    reserve_stock-IsConsistent (print_id 5) two_lamps shop shelf-IsConsistent

decrement_stock-IsConsistent_example :
    IsConsistent (decrement_stock (print_id 5) held_shop).1.tables
decrement_stock-IsConsistent_example =
    decrement_stock-IsConsistent (print_id 5) held_shop held_shop-IsConsistent

release-reserve_example : AllSettled (λ _. 0) shelf (release_stock (print_id 5) held_shop).1.tables
release-reserve_example =
    release-reserve (print_id 5) 5 two_lamps shop refl shelf-IsConsistent refl reserve_stock_runs
      release_stock_runs

decrement-reserve_example :
    AllSettled (λ j. demand j two_lamps) shelf (decrement_stock (print_id 5) held_shop).1.tables
decrement-reserve_example =
    decrement-reserve (print_id 5) 5 two_lamps shop refl shelf-IsConsistent refl reserve_stock_runs
      decrement_stock_runs

reserve_enough_example : 0 + demand 3 two_lamps ≤ 10
reserve_enough_example =
    reserve_enough (print_id 5) 5 two_lamps shop refl shelf-IsConsistent reserve_stock_runs 3 lamp
      refl

reserve_stock-whole_example :
    let (r, w) = reserve_stock (print_id 5) two_lamps (calm shelf (λ n. n) 7) in
    ((r ≡ ok (print_id 5))
      × ((j : ℕ) → HasEnough (demand j two_lamps) (find_product j shelf.products))
      × Reserves 5 two_lamps shelf w.tables)
    ⊎ ((x : Error) × (r ≡ err x) × (w.tables ≡ shelf))
reserve_stock-whole_example =
    reserve_stock-whole (print_id 5) 5 two_lamps shelf (λ n. n) 7 refl shelf-IsConsistent

-- The reservation that the order holds.
abbrev held_lamps : StockReservation
held_lamps = record {
  id = 0;
  order_id = 5;
  product_id = 3;
  quantity = 2;
  status = reserved;
  created_at = 7;
  updated_at = 7;
}

held_shop_rows : filter (is_held_by 5) held_shop.tables.reservations ≡ held_lamps ∷ []
unfolding stock_runs
held_shop_rows = refl

release_stock-calm_example :
    (t : Tables) × (release_stock (print_id 5) (calm held_shop.tables (λ n. n) 8)
      ≡ (ok tt, calm t (λ n. n) 8))
release_stock-calm_example =
    release_stock-calm (print_id 5) 5 refl held_shop.tables (λ n. n) 8 held_shop-IsConsistent
      held_shop_rows

-- The reservation is made twice, as by a retry.
abbrev twice_held : World Tables
twice_held = (reserve_stock (print_id 5) two_lamps held_shop).1

reserve_again_runs : (reserve_stock (print_id 5) two_lamps held_shop).0 ≡ ok (print_id 5)
unfolding stock_runs
reserve_again_runs = refl

decrement_twice_runs : (decrement_stock (print_id 5) twice_held).0 ≡ ok tt
unfolding stock_runs
decrement_twice_runs = refl

decrement-reserve_twice_example :
    AllSettled
      (λ j. demand j two_lamps + demand j two_lamps)
      shelf
      (decrement_stock (print_id 5) twice_held).1.tables
decrement-reserve_twice_example =
    decrement-reserve_twice (print_id 5) 5 two_lamps two_lamps shop refl shelf-IsConsistent refl
      reserve_stock_runs reserve_again_runs decrement_twice_runs

-- A release that has read the first reservation, when a second one of the same order is committed
-- before the release goes on: both are marked as released, and the product keeps the second's count.
release_races :
    let w =
      (Stock.settle_rows Stock.reserve_less released (print_id 5) (held_lamps ∷ []) twice_held).1 in
    (map (λ p. p.stock_reserved) w.tables.products ≡ 2 ∷ [])
    × (filter (is_held_by 5) w.tables.reservations ≡ [])
unfolding stock_runs
release_races = (refl, refl)
