-- ===== src/Tests/Checkout.antt =====
-- A checkout of two lamps in an empty order service.
use micromart.Prelude.{ℕ, ◌≡◌, refl, true, [], ◌∷◌, map}
use micromart.Inventory.Entity.{Tables}
use micromart.Order.System.{System}
use micromart.Order.Messages.{CreateOrderRequest}
use micromart.Order.Server.{create_order}
use micromart.Order.LookUps.{shop_server}
use micromart.Order.Checkout.{Answered, create_order-Answered}
use micromart.Sql.{World}
use micromart.Tests.Stock.{shelf-IsConsistent}
use micromart.Tests.Fixtures.{digits, shelf, shop, two_lamps, paid_at_once, no_orders}
use micromart.Inventory.Stock
use micromart.Inventory.StockServer
use micromart.Inventory.Products
use micromart.Inventory.ProductServer
use micromart.Order.Server
use micromart.Order.Saga
use micromart.Order.SagaRows
use micromart.Order.Repository
use micromart.Order.Queries
use micromart.Order.Messages
use micromart.Sql.{statement, transaction}
use micromart.Sql.Tables.{update_where}
use micromart.Prelude.Int.{wrap_at, wrap32, wrap64, ◌+ℤ◌, ◌-ℤ◌, ◌*ℤ◌}

-- What the whole run of such a checkout unfolds.
unfoldable pub checkout_run : Unit {0}
unfolding Stock.update_product Stock.insert_reservation Stock.mark Stock.update_each
    Stock.lock_product Stock.add_reserved Stock.record_reserved Stock.reserve_item
    Stock.reserve_items Stock.reserve_stock Stock.select_held Stock.close_rows Stock.release_stock
    Stock.decrement_stock StockServer.check_items StockServer.check_reserve
    StockServer.reserve_stock StockServer.release_stock StockServer.decrement_stock
    Products.insert_product Products.create_product Products.set_clauses Products.apply_clauses
    Products.get_product Products.update_returning Products.update_product
    ProductServer.check_create ProductServer.product_to_proto ProductServer.create_product
    ProductServer.get_product ProductServer.update_product Server.cached_response
    Server.cache_response Server.look_up_products Server.created Server.create_order
    Server.name_items Server.get_order Server.cancel_order Saga.get_existing_saga
    Saga.create_saga_state Saga.update_step Saga.set_reservation_id Saga.update_order_status
    Saga.complete_saga Saga.fail Saga.new_orchestrator Saga.compensate_reserve Saga.confirmed
    Saga.paid Saga.request_payment Saga.reserved Saga.run_steps Saga.execute Saga.resume_each
    Saga.resume SagaRows.update_saga SagaRows.update_order SagaRows.latest SagaRows.insert_saga
    Repository.add_prices Repository.insert_order Repository.insert_order_item
    Repository.select_items Repository.select_by_key Repository.insert_items Repository.create_order
    Queries.select_order Queries.update_returning Queries.items_of Queries.get_order
    Queries.cancel_order Queries.update_order_status Messages.status_to_proto Messages.find_name
    Messages.order_to_proto statement transaction update_where ◌+ℤ◌ ◌-ℤ◌ ◌*ℤ◌ wrap_at wrap32 wrap64
checkout_run = tt

abbrev pub two_lamps_request : CreateOrderRequest
two_lamps_request = record { customer_id = "ann"; idempotency_key = "first"; items = two_lamps }

abbrev opening : System (World Tables)
opening = record { db = no_orders; remote = shop; events = [] }

create_order-Answered_example :
    Answered two_lamps shelf
      (create_order (shop_server paid_at_once true) two_lamps_request opening)
create_order-Answered_example =
    create_order-Answered paid_at_once true two_lamps_request shelf (λ n. n) 7 shelf-IsConsistent
      opening refl refl (λ k missing. (refl, refl)) refl

-- Ten lamps were on the shelf; eight are left, and none is reserved.
checkout_sells :
    let (r, s) = create_order (shop_server paid_at_once true) two_lamps_request opening in
    map {B = ℕ × ℕ} (λ p. (p.stock_available, p.stock_reserved)) s.remote.tables.products
    ≡ (8, 0) ∷ []
unfolding checkout_run
checkout_sells = refl
