-- ===== src/Tests/Orders.antt =====
-- The orders and the sagas of the order service.
use micromart.Prelude.{true, ◌<◌, ◌≡◌, refl, arith, some, [], ◌∷◌, List}
use micromart.Prelude.Int.{pos, int64_half, wrap64, wrap_at, ◌+ℤ◌, ◌*ℤ◌}
use micromart.Prelude.Exec.{ok, err}
use micromart.Sql.{calm, statement, transaction}
use micromart.Inventory.RoundTrip.{AllSettled}
use micromart.Order.Entity.{Order, OrderItem, OrderStatus, SagaStatus, pending}
use micromart.Order.Saga.{run_steps}
use micromart.Order.SagaOutcome.{Settled, run_steps-Settled}
use micromart.Order.AllOrNothing.{shop_saga, sold, run_steps-AllSettled}
use micromart.Order.Repository
use micromart.Order.Repository.{create_order, duplicate_order, add_prices}
use micromart.Order.Queries.{cancel_order}
use micromart.Order.Lines.{price}
use micromart.Order.Creation.{Created, create_order-Created}
use micromart.Order.Totals.{create_order_total}
use micromart.Order.Idempotency.{create_order_again}
use micromart.Order.Cancellation.{cancelling, refusal, cancel_order_twice}
use micromart.Order.Cancellation.AfterSaga.{CancelsAfter, cancel_order-run_steps}
use micromart.Tests.Stock.{shelf-IsConsistent}
use micromart.Tests.Fixtures.{
  digits, print_id, shelf, shop, desk, no_orders, five_input, office, order_five, saga_nine,
  show_lamp, paid_at_once, two_lamps_please, two_lamps,
}

run_steps-AllSettled_example :
    let (x, s) = run_steps (shop_saga show_lamp paid_at_once true) five_input 9 office in
    AllSettled (sold x two_lamps) shelf s.remote.tables
run_steps-AllSettled_example =
    run_steps-AllSettled show_lamp paid_at_once true five_input shelf (λ n. n) 7 shelf-IsConsistent
      refl 9 office refl

unfoldable pub orders_run : Unit {0}
unfolding Repository.create_order Repository.insert_items Repository.insert_order
    Repository.insert_order_item Repository.select_by_key Repository.select_items statement
    transaction add_prices wrap64 wrap_at ◌+ℤ◌ ◌*ℤ◌
orders_run = tt

-- The rows that the order of two lamps gets.
abbrev first_order : Order
first_order = record {
  id = 0;
  customer_id = "ann";
  status = pending;
  total_cents = pos 3000;
  idempotency_key = some "first";
  created_at = 7;
  updated_at = 7;
}

abbrev first_rows : List OrderItem
first_rows =
    record {
      id = 1;
      order_id = 0;
      product_id = 3;
      quantity = 2;
      unit_price_cents = 1500;
      created_at = 7;
    }
    ∷ []

create_order_runs : (create_order two_lamps_please no_orders).0 ≡ ok (first_order, first_rows)
unfolding orders_run
create_order_runs = refl

create_order-Created_example :
    Created two_lamps_please first_order first_rows no_orders.tables
      (create_order two_lamps_please no_orders).1.tables
create_order-Created_example = create_order-Created two_lamps_please no_orders create_order_runs

small_price : price first_rows < int64_half
unfolding price
small_price = omega arith

create_order_total_example : first_order.total_cents ≡ pos (price first_rows)
create_order_total_example =
    create_order_total two_lamps_please no_orders create_order_runs small_price

create_order_again_example :
    create_order two_lamps_please
      (calm (create_order two_lamps_please no_orders).1.tables (λ n. n) 8)
    ≡ (
      err (duplicate_order first_order first_rows),
      calm (create_order two_lamps_please no_orders).1.tables (λ n. n) 8,
    )
create_order_again_example =
    create_order_again two_lamps_please two_lamps_please no_orders (λ n. n) 8 (λ k missing. refl)
      refl refl create_order_runs

cancel_order_twice_example :
    let (r, t) = cancelling (some order_five) 5 7 desk in
    (cancel_order (print_id 5) (calm desk (λ n. n) 7) ≡ (r, calm t (λ n. n) 7))
    × (cancel_order (print_id 5) (calm t (λ n. n) 8)
        ≡ (err (refusal (some order_five)), calm t (λ n. n) 8))
cancel_order_twice_example = cancel_order_twice (print_id 5) 5 refl desk (λ n. n) (λ n. n) 7 8

cancel_order-run_steps_example :
    let saga = shop_saga show_lamp paid_at_once true in
    let (x, s) = run_steps saga five_input 9 office in
    let (answer, w) = cancel_order (print_id 5) (calm s.db.tables (λ n. n) 8) in
    CancelsAfter 5 8 x s.db.tables answer w.tables
cancel_order-run_steps_example =
    cancel_order-run_steps (shop_saga show_lamp paid_at_once true) five_input 9 (print_id 5)
      (λ n. n) (λ n. n) 7 8 desk shop [] refl
      (
        (OrderStatus.pending, (order_five, refl, refl)),
        (SagaStatus.in_progress, (saga_nine, refl, refl)),
      )

run_steps-Settled_example :
    let saga = shop_saga show_lamp paid_at_once true in
    let (x, s) = run_steps saga five_input 9 office in Settled 5 9 x s.db.tables
run_steps-Settled_example =
    run_steps-Settled (shop_saga show_lamp paid_at_once true) five_input 9 (λ n. n) 7 desk shop []
      (
        (OrderStatus.pending, (order_five, refl, refl)),
        (SagaStatus.in_progress, (saga_nine, refl, refl)),
      )
