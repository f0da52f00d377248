-- ===== src/Order/ServerKeeps.antt =====
-- How an invariant of the remote side is shown of services/order/order_server.go: of the calls that
-- the server makes.
use micromart.Prelude.{◌≡◌, refl, String, Option, none, some, List, [], ◌∷◌, if◌then◌else◌}
use micromart.Prelude.Int.{pos, leb_ℤ}
use micromart.Prelude.Text.{is_empty}
use micromart.Prelude.Exec.{Result, ok, err, pure, raise, ◌>>=◌}
use micromart.Prelude.Keeps.{Keeps, >>=-Keeps, if-Keeps}
use micromart.Sql.{Uuids}
use micromart.Grpc.Status.{Code, invalid_argument, failed_precondition}
use micromart.Grpc.Inventory.{ProductMessage}
use micromart.Inventory.Stock.{StockItem}
use micromart.Order.Entity.{Order, OrderItem}
use micromart.Order.System.{System, on_db, on_remote}
use micromart.Order.Saga.{
  execute, attempt, get_existing_saga, create_saga_state, update_step, update_order_status,
  set_reservation_id, complete_saga, fail, resume,
}
use micromart.Order.SagaKeeps.{StepRules, execute-Keeps, resume-Keeps}
use micromart.Order.Repository
use micromart.Order.Repository.{CreateOrderItemParams, RepositoryError, duplicate_order}
use micromart.Order.Messages.{OrderMessage, CreateOrderRequest, order_to_proto}
use micromart.Order.Server.{
  Server, IdempotencyCache, cached_response, read_cached, cache_response, set_marshalled, looked_up,
  look_up_product, look_up_products, saga_input, refetched, created, unless_cached, with_items_of,
  create_order,
}

-- A predicate on the remote side that each call of it keeps.
pub record CallRules {S : Type 0} (server : Server S) (P : S → Type 0) : Type 0 where
  pub product : (id : String) → Keeps P (server.inventory_client.get_product id)
  pub reserve :
      (id : String) (items : List StockItem) → Keeps P (server.saga.client.reserve_stock id items)
  pub release : (id : String) → Keeps P (server.saga.client.release_stock id)
  pub decrement : (id : String) → Keeps P (server.saga.client.decrement_stock id)
  pub payment : (id : String) → Keeps P (server.saga.process_payment id)
  pub read :
      (redis : IdempotencyCache S)
      → server.redis ≡ some redis
      → (key : String) → Keeps P (redis.get_result key)
  pub write :
      (redis : IdempotencyCache S)
      → server.redis ≡ some redis
      → (key text : String) → Keeps P (redis.set_result key text)

-- On the whole system.
abbrev pub OnRemote : {S : Type 0} → (S → Type 0) → System S → Type 0
OnRemote P s = P s.remote

module _ {S : Type 0} (server : Server S) ⦃u : Uuids⦄ (P : S → Type 0)
    (rules : CallRules server P) where
  OnRemote-StepRules : StepRules server.saga (OnRemote P)
  unfolding fail update_step update_order_status complete_saga set_reservation_id
  OnRemote-StepRules = record {
    step = λ id st s h. h;
    order = λ id st s h. h;
    reservation = λ id text s h. h;
    completion = λ id s h. h;
    failure = λ id order_id why s h. h;
    event = λ input s h. h;
    reserve = λ id items s h. rules.reserve id items s.remote h;
    release = λ id s h. rules.release id s.remote h;
    decrement = λ id s h. rules.decrement id s.remote h;
    payment = λ id s h. rules.payment id s.remote h;
  }

  looked_up-Keeps :
      (item : StockItem) (r : Result Code ProductMessage)
      → Keeps (OnRemote P) (looked_up server item r)
  looked_up-Keeps item (ok product) s h =
      if-Keeps (OnRemote P) product.active (pure _) (raise failed_precondition) (λ s h. h)
        (λ s h. h) s h
  looked_up-Keeps item (err Code.not_found) s h = h
  looked_up-Keeps item (err _) s h = h

  look_up_product-Keeps : (item : StockItem) → Keeps (OnRemote P) (look_up_product server item)
  look_up_product-Keeps item =
      if-Keeps (OnRemote P) (is_empty item.product_id) (raise invalid_argument)
        (if leb_ℤ item.quantity (pos 0)
          then raise invalid_argument
          else attempt (on_remote (server.inventory_client.get_product item.product_id))
              (looked_up server item))
        (λ s h. h)
        (if-Keeps (OnRemote P) (leb_ℤ item.quantity (pos 0)) (raise invalid_argument)
          (attempt (on_remote (server.inventory_client.get_product item.product_id))
            (looked_up server item))
          (λ s h. h) (λ s h. looked_up-Keeps item _ _ (rules.product item.product_id s.remote h)))

  look_up_products-Keeps :
      (items : List StockItem) → Keeps (OnRemote P) (look_up_products server items)
  unfolding look_up_products
  look_up_products-Keeps [] = λ s h. h
  look_up_products-Keeps (item ∷ items) =
      >>=-Keeps (OnRemote P) (look_up_product server item)
        (λ found. look_up_products server items >>= λ rest. pure (found ∷ rest))
        (look_up_product-Keeps item)
        (λ found.
          >>=-Keeps (OnRemote P) (look_up_products server items) (λ rest. pure (found ∷ rest))
            (look_up_products-Keeps items) (λ rest s h. h))

  set_marshalled-Keeps :
      (redis : IdempotencyCache S)
      → server.redis ≡ some redis
      → (key : String) (text : Option String) → Keeps (OnRemote P) (set_marshalled redis key text)
  set_marshalled-Keeps redis e key none s h = h
  set_marshalled-Keeps redis e key (some text) s h = rules.write redis e key text s.remote h

  cache_response-Keeps :
      (redis : Option (IdempotencyCache S))
      → server.redis ≡ redis
      → (key : String) (resp : OrderMessage) → Keeps (OnRemote P) (cache_response redis key resp)
  unfolding cache_response
  cache_response-Keeps none e key resp = λ s h. h
  cache_response-Keeps (some redis) e key resp =
      if-Keeps (OnRemote P) (is_empty key) (pure tt) (set_marshalled redis key (redis.marshal resp))
        (λ s h. h) (set_marshalled-Keeps redis e key (redis.marshal resp))

  read_cached-Keeps :
      (redis : IdempotencyCache S) (r : Result (Unit {0}) String)
      → Keeps (OnRemote P) (read_cached redis r)
  read_cached-Keeps redis (ok text) s h = h
  read_cached-Keeps redis (err e) s h = h

  cached_response-Keeps :
      (redis : Option (IdempotencyCache S))
      → server.redis ≡ redis
      → (key : String) → Keeps (OnRemote P) (cached_response redis key)
  unfolding cached_response
  cached_response-Keeps none e key = λ s h. h
  cached_response-Keeps (some redis) e key =
      if-Keeps (OnRemote P) (is_empty key) (pure none)
        (attempt (on_remote (redis.get_result key)) (read_cached redis)) (λ s h. h)
        (λ s h. read_cached-Keeps redis _ _ (rules.read redis e key s.remote h))

  saga-Keeps :
      (req : CreateOrderRequest) (items : List CreateOrderItemParams) (order : Order)
      → Keeps (OnRemote P) (execute server.saga (saga_input server req items order))
  unfolding get_existing_saga create_saga_state
  saga-Keeps req items order =
      execute-Keeps server.saga (OnRemote P) OnRemote-StepRules (λ id s h. h) (λ id s h. h)
        (saga_input server req items order)

  refetched-Keeps :
      (req : CreateOrderRequest) (items : List CreateOrderItemParams)
      (r : Result RepositoryError (Order × List OrderItem))
      → Keeps (OnRemote P) (refetched server req items r)
  refetched-Keeps req items (err e) = λ s h. h
  refetched-Keeps req items (ok (order, rows)) =
      >>=-Keeps (OnRemote P)
        (cache_response server.redis req.idempotency_key (order_to_proto order rows items))
        (λ _. pure (order_to_proto order rows items))
        (cache_response-Keeps server.redis refl req.idempotency_key
          (order_to_proto order rows items))
        (λ _ s h. h)

  created-Keeps :
      (req : CreateOrderRequest) (items : List CreateOrderItemParams)
      (r : Result RepositoryError (Order × List OrderItem))
      → Keeps (OnRemote P) (created server req items r)
  unfolding created
  created-Keeps req items (err (duplicate_order order rows)) s h = h
  created-Keeps req items (err _) s h = h
  created-Keeps req items (ok (order, rows)) s h =
      refetched-Keeps req items _ _ (saga-Keeps req items order s h)

  unless_cached-Keeps :
      (req : CreateOrderRequest) (resp : Option OrderMessage)
      → Keeps (OnRemote P) (unless_cached server req resp)
  unless_cached-Keeps req (some resp) = λ s h. h
  unless_cached-Keeps req none =
      >>=-Keeps (OnRemote P) (look_up_products server req.items)
        (λ enriched.
          attempt
            (on_db (
              Repository.create_order (record {
                customer_id = req.customer_id;
                idempotency_key = req.idempotency_key;
                items = enriched;
              })))
            (created server req enriched))
        (look_up_products-Keeps req.items) (λ enriched s h. created-Keeps req enriched _ _ h)

  with_items_of-Keeps :
      (req : CreateOrderRequest) (items : List StockItem)
      → Keeps (OnRemote P) (with_items_of server req items)
  with_items_of-Keeps req [] = λ s h. h
  with_items_of-Keeps req (item ∷ items) =
      >>=-Keeps (OnRemote P) (cached_response server.redis req.idempotency_key)
        (unless_cached server req) (cached_response-Keeps server.redis refl req.idempotency_key)
        (unless_cached-Keeps req)

  pub create_order-Keeps : (req : CreateOrderRequest) → Keeps (OnRemote P) (create_order server req)
  unfolding create_order
  create_order-Keeps req =
      if-Keeps (OnRemote P) (is_empty req.customer_id) (raise invalid_argument)
        (with_items_of server req req.items) (λ s h. h) (with_items_of-Keeps req req.items)

  pub resume_server-Keeps : Keeps (OnRemote P) (resume server.saga)
  resume_server-Keeps = resume-Keeps server.saga (OnRemote P) OnRemote-StepRules (λ s h. h)
