-- ===== src/Order/Shop.antt =====
-- The order service and the inventory service together (services/order/order_server.go and saga.go
-- over the inventory client): every history of requests to the order service, with restarts, over
-- any network.
use micromart.Prelude.{String, List, [], ◌∷◌}
use micromart.Prelude.Int.{ℤ}
use micromart.Sql.{Outcome, Uuids}
use micromart.Order.System.{System}
use micromart.Order.Saga.{resume}
use micromart.Order.Messages.{CreateOrderRequest}
use micromart.Order.Server.{
  Server, create_order as handle_create, get_order as handle_get, cancel_order as handle_cancel,
}
use micromart.Order.OrderList.{list_orders_call}

-- A request to the order service, or its start, which resumes the sagas that were interrupted.
pub data ShopStep : Type 0 where
  create_order : CreateOrderRequest → ShopStep
  get_order cancel_order : String → ShopStep
  list_orders : String → ℤ → String → ShopStep
  restart : ShopStep

module _ {S : Type 0} (server : Server S) ⦃u : Uuids⦄ where
  unfoldable pub shop_step : ShopStep → System S → System S
  shop_step (ShopStep.create_order req) s = (handle_create server req s).1
  shop_step (ShopStep.get_order id) s = (handle_get server id s).1
  shop_step (ShopStep.cancel_order id) s = (handle_cancel server id s).1
  shop_step (ShopStep.list_orders customer_id n token) s =
      (list_orders_call customer_id n token s).1
  shop_step restart s = (resume server.saga s).1

  -- A history, in which the database changes as it will between two steps.
  unfoldable pub shop_steps : List (List Outcome × ShopStep) → System S → System S
  shop_steps [] s = s
  shop_steps ((outcomes, step) ∷ steps) s =
      shop_steps steps (shop_step step (record s { db = record s.db { outcomes = outcomes } }))
