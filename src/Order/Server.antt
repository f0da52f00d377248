-- ===== src/Order/Server.antt =====
-- services/order/order_server.go, CreateOrder, GetOrder and CancelOrder.
use micromart.Prelude.{String, Option, none, some, List, [], ◌∷◌, map, length, if◌then◌else◌}
use micromart.Prelude.Int.{pos, leb_ℤ, wrap32}
use micromart.Prelude.Text.{is_empty}
use micromart.Prelude.Exec.{Result, ok, err, Exec, pure, raise, ◌>>=◌, ◌>>◌}
use micromart.Sql.{Uuids}
use micromart.Grpc.Status.{Code, invalid_argument, failed_precondition, internal}
use micromart.Grpc.Inventory.{InventoryClient, ProductMessage}
use micromart.Inventory.Stock.{StockItem}
use micromart.Order.Entity.{Order, OrderItem}
use micromart.Order.System.{System, on_db, on_remote, ignored}
use micromart.Order.Saga.{Orchestrator, SagaInput, execute, attempt}
use micromart.Order.Repository
use micromart.Order.Repository.{
  CreateOrderItemParams, CreateOrderParams, RepositoryError, duplicate_order, add_prices,
}
use micromart.Order.Queries
use micromart.Order.Messages.{
  OrderMessage, OrderItemMessage, CreateOrderRequest, order_to_proto, item_to_proto, message_of,
}

-- pkg/redis's client on the remote side, with protojson for the cached response.
pub record IdempotencyCache (S : Type 0) : Type 0 where
  pub get_result : String → Exec S (Unit {0}) String
  pub set_result : String → String → Exec S (Unit {0}) (Unit {0})
  pub unmarshal : String → Option OrderMessage
  pub marshal : OrderMessage → Option String

-- What the server is built from; Redis may be missing.
pub record Server (S : Type 0) : Type 0 where
  pub inventory_client : InventoryClient S
  pub saga : Orchestrator S
  pub redis : Option (IdempotencyCache S)

module _ {S : Type 0} where
  abbrev pub read_cached :
      IdempotencyCache S → Result (Unit {0}) String → Exec (System S) Code (Option OrderMessage)
  read_cached redis (err e) = pure none
  read_cached redis (ok cached) = pure (if is_empty cached then none else redis.unmarshal cached)

  -- The fast path.
  unfoldable pub cached_response :
      Option (IdempotencyCache S) → String → Exec (System S) Code (Option OrderMessage)
  cached_response none key = pure none
  cached_response (some redis) key =
      if is_empty key
      then pure none
      else attempt (on_remote (redis.get_result key)) (read_cached redis)

  abbrev pub set_marshalled :
      IdempotencyCache S → String → Option String → Exec (System S) Code Unit
  set_marshalled redis key none = pure tt
  set_marshalled redis key (some text) = ignored (on_remote (redis.set_result key text))

  -- The end of CreateOrder.
  unfoldable pub cache_response :
      Option (IdempotencyCache S) → String → OrderMessage → Exec (System S) Code Unit
  cache_response none key resp = pure tt
  cache_response (some redis) key resp =
      if is_empty key then pure tt else set_marshalled redis key (redis.marshal resp)

module _ {S : Type 0} (server : Server S) ⦃u : Uuids⦄ where
  abbrev pub looked_up :
      StockItem → Result Code ProductMessage → Exec (System S) Code CreateOrderItemParams
  looked_up item (err Code.not_found) = raise Code.not_found
  looked_up item (err _) = raise internal
  looked_up item (ok product) =
      if product.active
      then pure (record {
        product_id = item.product_id;
        quantity = item.quantity;
        unit_price_cents = product.price_cents;
        product_name = product.name;
      })
      else raise failed_precondition

  abbrev pub look_up_product : StockItem → Exec (System S) Code CreateOrderItemParams
  look_up_product item =
      if is_empty item.product_id
      then raise invalid_argument
      else if leb_ℤ item.quantity (pos 0)
      then raise invalid_argument
      else attempt (on_remote (server.inventory_client.get_product item.product_id))
          (looked_up item)

  -- The loop over the items of the request.
  unfoldable pub look_up_products :
      List StockItem → Exec (System S) Code (List CreateOrderItemParams)
  look_up_products [] = pure []
  look_up_products (item ∷ items) = do
    found ← look_up_product item
    rest ← look_up_products items
    pure (found ∷ rest)

  abbrev pub saga_input : CreateOrderRequest → List CreateOrderItemParams → Order → SagaInput
  saga_input req items order = record {
    order_id = order.id;
    customer_id = req.customer_id;
    total_cents = add_prices (pos 0) items;
    item_count = wrap32 (pos (length items));
    items = req.items;
    created_at = order.created_at;
  }

  abbrev pub refetched :
      CreateOrderRequest
      → List CreateOrderItemParams
      → Result RepositoryError (Order × List OrderItem)
      → Exec (System S) Code OrderMessage
  refetched req enriched (err e) = raise internal
  refetched req enriched (ok (order, items)) = do
    cache_response server.redis req.idempotency_key (order_to_proto order items enriched)
    pure (order_to_proto order items enriched)

  -- From the answer of the repository on.
  unfoldable pub created :
      CreateOrderRequest
      → List CreateOrderItemParams
      → Result RepositoryError (Order × List OrderItem)
      → Exec (System S) Code OrderMessage
  created req enriched (err (duplicate_order order items)) =
      pure (order_to_proto order items enriched)
  created req enriched (err _) = raise internal
  created req enriched (ok (order, items)) = do
    ignored (execute server.saga (saga_input req enriched order))
    attempt (on_db (Queries.get_order (u.text order.id))) (refetched req enriched)

  abbrev pub unless_cached :
      CreateOrderRequest → Option OrderMessage → Exec (System S) Code OrderMessage
  unless_cached req (some resp) = pure resp
  unless_cached req none = do
    enriched ← look_up_products req.items
    attempt
        (on_db (
          Repository.create_order (record {
            customer_id = req.customer_id;
            idempotency_key = req.idempotency_key;
            items = enriched;
          })))
        (created req enriched)

  abbrev pub with_items_of : CreateOrderRequest → List StockItem → Exec (System S) Code OrderMessage
  with_items_of req [] = raise invalid_argument
  with_items_of req (item ∷ items) = do
    cached ← cached_response server.redis req.idempotency_key
    unless_cached req cached

  -- (s *Server) CreateOrder
  unfoldable pub create_order : CreateOrderRequest → Exec (System S) Code OrderMessage
  create_order req =
      if is_empty req.customer_id then raise invalid_argument else with_items_of req req.items

  abbrev pub named : Result Code ProductMessage → Exec (System S) Code String
  named (ok product) = pure product.name
  named (err e) = pure ""

  -- The loop of GetOrder: a product that is not found has no name.
  unfoldable pub name_items : List OrderItem → Exec (System S) Code (List OrderItemMessage)
  name_items [] = pure []
  name_items (item ∷ items) = do
    name ← attempt (on_remote (server.inventory_client.get_product (u.text item.product_id))) named
    rest ← name_items items
    pure (item_to_proto name item ∷ rest)

  abbrev pub got :
      Result RepositoryError (Order × List OrderItem) → Exec (System S) Code OrderMessage
  got (err RepositoryError.not_found) = raise Code.not_found
  got (err _) = raise internal
  got (ok (order, items)) = do named_items ← name_items items; pure (message_of order named_items)

  -- (s *Server) GetOrder
  unfoldable pub get_order : String → Exec (System S) Code OrderMessage
  get_order id =
      if is_empty id then raise invalid_argument else attempt (on_db (Queries.get_order id)) got

  abbrev pub cancelled_order :
      Result RepositoryError (Order × List OrderItem) → Exec (System S) Code OrderMessage
  cancelled_order (err RepositoryError.not_found) = raise Code.not_found
  cancelled_order (err _) = raise failed_precondition
  cancelled_order (ok (order, items)) = pure (message_of order (map (item_to_proto "") items))

  -- (s *Server) CancelOrder
  unfoldable pub cancel_order : String → Exec (System S) Code OrderMessage
  cancel_order id =
      if is_empty id
      then raise invalid_argument
      else attempt (on_db (Queries.cancel_order id)) cancelled_order
