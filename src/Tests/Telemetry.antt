-- ===== src/Tests/Telemetry.antt =====
-- What the order service reports of a saga for two lamps.
use micromart.Prelude.{◌≡◌, true, [], ◌∷◌}
use micromart.Sql.{calm}
use micromart.Inventory.Entity
use micromart.Order.Saga.{get_existing_saga}
use micromart.Order.AllOrNothing.{shop_saga}
use micromart.Order.Telemetry.{Traced, execute_traced}
use micromart.Order.Telemetry.Nested.{Nested, at_start, execute_traced-IsOpen}
use micromart.Order.Telemetry.Counted.{counted_once, execute_traced-results}
use micromart.Sql.{World}
use micromart.Tests.Fixtures.{digits, show_lamp, paid_at_once, order_five, shop, five_input}

-- The order is there, and no saga for it.
abbrev watched_office : Traced (World Entity.Tables)
watched_office = record {
  system = record {
    db = calm (record { orders = order_five ∷ []; order_items = []; sagas = [] }) (λ n. n) 7;
    remote = shop;
    events = [];
  };
  results = [];
  trace = [];
}

execute_traced-IsOpen_example :
    let saga = shop_saga show_lamp paid_at_once true in
    Nested (execute_traced saga true five_input watched_office).1.trace []
execute_traced-IsOpen_example =
    execute_traced-IsOpen (shop_saga show_lamp paid_at_once true) true [] five_input watched_office
      at_start

execute_traced-results_example :
    let (r, t) =
      execute_traced (shop_saga show_lamp paid_at_once true) true five_input watched_office in
    t.results
    ≡ counted_once true (get_existing_saga five_input.order_id watched_office.system).0 r []
execute_traced-results_example =
    execute_traced-results (shop_saga show_lamp paid_at_once true) true five_input watched_office
