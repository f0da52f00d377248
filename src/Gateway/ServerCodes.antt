-- ===== src/Gateway/ServerCodes.antt =====
-- services/order/order_server.go: which codes the handlers can raise, as the HTTP statuses that the
-- gateway makes of them.
use micromart.Prelude.{ℕ, ◌==◌, String, refl, Bool, false, ◌||◌, Option, none, some, List, [], ◌∷◌}
use micromart.Prelude.Int.{ℤ, pos, leb_ℤ}
use micromart.Prelude.Text.{is_empty}
use micromart.Prelude.Exec.{Result, ok, err, pure, ◌>>=◌}
use micromart.Sql.{Uuids}
use micromart.Grpc.Status.{Code}
use micromart.Grpc.Inventory.{ProductMessage}
use micromart.Inventory.Stock.{StockItem}
use micromart.Order.Entity.{Order, OrderItem}
use micromart.Order.System.{on_db, on_remote}
use micromart.Order.Saga.{attempt}
use micromart.Order.Repository
use micromart.Order.Repository.{RepositoryError, CreateOrderItemParams}
use micromart.Order.OrderList.{listed_orders, list_orders_call}
use micromart.Order.Messages
use micromart.Order.Server.{
  IdempotencyCache, set_marshalled, read_cached, with_items_of, Server, create_order, get_order,
  cancel_order, look_up_product, looked_up, look_up_products, created, cached_response,
  cache_response, named, name_items, got, cancelled_order, refetched, unless_cached,
}
use micromart.Gateway.Http.{grpc_to_http}
use micromart.Prelude.Raises.{Raises, >>=-Raises, attempt-Raises, if-Raises}

abbrev pub is_one_of : List ℕ → ℕ → Bool
is_one_of [] n = false
is_one_of (m ∷ ms) n = (m == n) || is_one_of ms n

-- The error of a call that the gateway shows as one of these statuses.
abbrev pub shown_as : List ℕ → Code → Bool
shown_as statuses e = is_one_of statuses (grpc_to_http e)

module _ {S : Type 0} (server : Server S) ⦃u : Uuids⦄ where
  abbrev pub create_errors : List ℕ
  create_errors = 400 ∷ 404 ∷ 422 ∷ 500 ∷ []

  looked_up-Raises :
      (item : StockItem) (r : Result Code ProductMessage)
      → Raises (shown_as create_errors) (looked_up server item r)
  unfolding grpc_to_http
  looked_up-Raises item (ok product) =
      if-Raises (shown_as create_errors) product.active _ _ (λ s. tt) (λ s. refl)
  looked_up-Raises item (err Code.not_found) = λ s. refl
  looked_up-Raises item (err _) = λ s. refl

  look_up_product-Raises :
      (item : StockItem) → Raises (shown_as create_errors) (look_up_product server item)
  unfolding grpc_to_http
  look_up_product-Raises item =
      if-Raises (shown_as create_errors) (is_empty item.product_id) _ _ (λ s. refl)
        (if-Raises (shown_as create_errors) (leb_ℤ item.quantity (pos 0)) _ _ (λ s. refl)
          (λ s.
            looked_up-Raises item (server.inventory_client.get_product item.product_id s.remote).0
              _))

  look_up_products-Raises :
      (items : List StockItem) → Raises (shown_as create_errors) (look_up_products server items)
  unfolding look_up_products
  look_up_products-Raises [] = λ s. tt
  look_up_products-Raises (item ∷ items) =
      >>=-Raises (shown_as create_errors) (look_up_product server item)
        (λ found. look_up_products server items >>= λ rest. pure (found ∷ rest))
        (look_up_product-Raises item)
        λ found.
          >>=-Raises (shown_as create_errors) (look_up_products server items)
            (λ rest. pure (found ∷ rest)) (look_up_products-Raises items) λ rest s. tt

  -- What is read from Redis and written to it never fails the request.
  set_marshalled-Raises :
      (test : Code → Bool) (redis : IdempotencyCache S) (key : String) (text : Option String)
      → Raises test (set_marshalled redis key text)
  set_marshalled-Raises test redis key none s = tt
  set_marshalled-Raises test redis key (some text) s = tt

  cache_response-Raises :
      (test : Code → Bool) (redis : Option (IdempotencyCache S)) (key : String)
      (resp : Messages.OrderMessage)
      → Raises test (cache_response redis key resp)
  unfolding cache_response
  cache_response-Raises test none key resp = λ s. tt
  cache_response-Raises test (some redis) key resp =
      if-Raises test (is_empty key) _ _ (λ s. tt)
        (set_marshalled-Raises test redis key (redis.marshal resp))

  read_cached-Raises :
      (test : Code → Bool) (redis : IdempotencyCache S) (r : Result Unit String)
      → Raises test (read_cached redis r)
  read_cached-Raises test redis (err e) s = tt
  read_cached-Raises test redis (ok cached) s = tt

  cached_response-Raises :
      (test : Code → Bool) (redis : Option (IdempotencyCache S)) (key : String)
      → Raises test (cached_response redis key)
  unfolding cached_response
  cached_response-Raises test none key = λ s. tt
  cached_response-Raises test (some redis) key =
      if-Raises test (is_empty key) _ _ (λ s. tt)
        (λ s. read_cached-Raises test redis (redis.get_result key s.remote).0 _)

  refetched-Raises :
      (req : Messages.CreateOrderRequest) (enriched : List CreateOrderItemParams)
      (r : Result RepositoryError (Order × List OrderItem))
      → Raises (shown_as create_errors) (refetched server req enriched r)
  unfolding grpc_to_http
  refetched-Raises req enriched (err e) s = refl
  refetched-Raises req enriched (ok (order, items)) s =
      let resp = Messages.order_to_proto order items enriched in
      >>=-Raises (shown_as create_errors) (cache_response server.redis req.idempotency_key resp)
        (λ _. pure resp)
        (cache_response-Raises (shown_as create_errors) server.redis req.idempotency_key resp)
        (λ _ s. tt) s

  created-Raises :
      (req : Messages.CreateOrderRequest) (enriched : List CreateOrderItemParams)
      (r : Result RepositoryError (Order × List OrderItem))
      → Raises (shown_as create_errors) (created server req enriched r)
  unfolding grpc_to_http created
  created-Raises req enriched (err (RepositoryError.duplicate_order order items)) s = tt
  created-Raises req enriched (err _) s = refl
  created-Raises req enriched (ok (order, items)) s = refetched-Raises req enriched _ _

  unless_cached-Raises :
      (req : Messages.CreateOrderRequest) (cached : Option Messages.OrderMessage)
      → Raises (shown_as create_errors) (unless_cached server req cached)
  unless_cached-Raises req (some resp) = λ s. tt
  unless_cached-Raises req none =
      let create = λ (enriched : List CreateOrderItemParams). on_db (
        Repository.create_order (record {
          customer_id = req.customer_id;
          idempotency_key = req.idempotency_key;
          items = enriched;
        })) in
      >>=-Raises (shown_as create_errors) (look_up_products server req.items)
        (λ enriched. attempt (create enriched) (created server req enriched))
        (look_up_products-Raises req.items)
        λ enriched.
          attempt-Raises (shown_as create_errors) (create enriched) (created server req enriched)
            (created-Raises req enriched)

  with_items_of-Raises :
      (req : Messages.CreateOrderRequest) (items : List StockItem)
      → Raises (shown_as create_errors) (with_items_of server req items)
  unfolding grpc_to_http
  with_items_of-Raises req [] = λ s. refl
  with_items_of-Raises req (item ∷ items) =
      >>=-Raises (shown_as create_errors) (cached_response server.redis req.idempotency_key)
        (unless_cached server req)
        (cached_response-Raises (shown_as create_errors) server.redis req.idempotency_key)
        (unless_cached-Raises req)

  pub create_order-Raises :
      (req : Messages.CreateOrderRequest)
      → Raises (shown_as create_errors) (create_order server req)
  unfolding create_order grpc_to_http
  create_order-Raises req =
      if-Raises (shown_as create_errors) (is_empty req.customer_id) _ _ (λ s. refl)
        (with_items_of-Raises req req.items)

  named-Raises :
      (test : Code → Bool) (r : Result Code ProductMessage) → Raises test (named server r)
  named-Raises test (ok product) s = tt
  named-Raises test (err e) s = tt

  name_items-Raises :
      (test : Code → Bool) (items : List OrderItem) → Raises test (name_items server items)
  unfolding name_items
  name_items-Raises test [] = λ s. tt
  name_items-Raises test (item ∷ items) =
      let get = on_remote (server.inventory_client.get_product (u.text item.product_id)) in
      >>=-Raises test (attempt get (named server))
        (λ name. name_items server items >>= λ rest. pure (Messages.item_to_proto name item ∷ rest))
        (attempt-Raises test get (named server) (named-Raises test))
        λ name.
          >>=-Raises test (name_items server items)
            (λ rest. pure (Messages.item_to_proto name item ∷ rest)) (name_items-Raises test items)
            λ rest s. tt

  got-Raises :
      (r : Result RepositoryError (Order × List OrderItem))
      → Raises (shown_as (400 ∷ 404 ∷ 500 ∷ [])) (got server r)
  unfolding grpc_to_http
  got-Raises (err RepositoryError.not_found) = λ s. refl
  got-Raises (err _) = λ s. refl
  got-Raises (ok (order, items)) =
      >>=-Raises (shown_as (400 ∷ 404 ∷ 500 ∷ [])) (name_items server items)
        (λ named_items. pure (Messages.message_of order named_items))
        (name_items-Raises (shown_as (400 ∷ 404 ∷ 500 ∷ [])) items) (λ named_items s. tt)

  pub get_order-Raises :
      (id : String) → Raises (shown_as (400 ∷ 404 ∷ 500 ∷ [])) (get_order server id)
  unfolding get_order grpc_to_http
  get_order-Raises id =
      if-Raises (shown_as (400 ∷ 404 ∷ 500 ∷ [])) (is_empty id) _ _ (λ s. refl)
        (λ s. got-Raises _ _)

  cancelled_order-Raises :
      (r : Result RepositoryError (Order × List OrderItem))
      → Raises (shown_as (400 ∷ 404 ∷ 422 ∷ [])) (cancelled_order server r)
  unfolding grpc_to_http
  cancelled_order-Raises (err RepositoryError.not_found) = λ s. refl
  cancelled_order-Raises (err _) = λ s. refl
  cancelled_order-Raises (ok (order, items)) = λ s. tt

  pub cancel_order-Raises :
      (id : String) → Raises (shown_as (400 ∷ 404 ∷ 422 ∷ [])) (cancel_order server id)
  unfolding cancel_order grpc_to_http
  cancel_order-Raises id =
      if-Raises (shown_as (400 ∷ 404 ∷ 422 ∷ [])) (is_empty id) _ _ (λ s. refl)
        (λ s. cancelled_order-Raises _ _)

  listed_orders-Raises :
      (r : Result RepositoryError (List Order × String))
      → Raises (shown_as (400 ∷ 500 ∷ [])) (listed_orders {S = S} r)
  unfolding grpc_to_http
  listed_orders-Raises (err e) s = refl
  listed_orders-Raises (ok (orders, next_token)) s = tt

  pub list_orders-Raises :
      (customer_id : String) (page_size : ℤ) (page_token : String)
      → Raises
          (shown_as (400 ∷ 500 ∷ []))
          (list_orders_call {S = S} customer_id page_size page_token)
  unfolding list_orders_call grpc_to_http
  list_orders-Raises customer_id page_size page_token =
      if-Raises (shown_as (400 ∷ 500 ∷ [])) (is_empty customer_id) _ _ (λ s. refl)
        (λ s. listed_orders-Raises _ _)
