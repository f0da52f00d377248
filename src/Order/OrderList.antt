-- ===== src/Order/OrderList.antt =====
-- services/order/order_repository.go, ListOrders, and its handler in order_server.go.
use micromart.Prelude.{
  ℕ, suc, String, ◌≡◌, Bool, some, [], List, map, filter, length, if◌then◌else◌,
}
use micromart.Prelude.Int.{ℤ}
use micromart.Prelude.Text.{is_empty, str_eq}
use micromart.Prelude.Exec.{Result, ok, err, Exec, pure, raise}
use micromart.Sql.{World, Uuids, calm}
use micromart.Sql.Keys.{IsPrimary}
use micromart.Grpc.Status.{Code, invalid_argument, internal}
use micromart.Order.Entity.{Order, Tables}
use micromart.Order.System.{System, on_db}
use micromart.Order.Saga.{attempt}
use micromart.Order.Repository.{RepositoryError, other}
use micromart.Order.Messages.{OrderMessage, message_of}
use micromart.Paging.Ascending.{order_by}
use micromart.Paging.Page.{list_page}
use micromart.Paging.Walk.{all_pages, all_pages-listed}

-- WHERE customer_id = $1
abbrev pub is_of_customer : String → Order → Bool
is_of_customer customer_id o = str_eq o.customer_id customer_id

module _ ⦃u : Uuids⦄ where
  -- (r *Repository) ListOrders
  unfoldable pub list_orders :
      String → ℤ → String → Exec (World Tables) RepositoryError (List Order × String)
  list_orders customer_id page_size page_token =
      list_page (λ o. o.id) other (λ t. t.orders) (is_of_customer customer_id) page_size page_token

  -- The orders of a list carry no items.
  abbrev pub listed_orders :
      {S : Type 0}
      → Result RepositoryError (List Order × String)
      → Exec (System S) Code (List OrderMessage × String)
  listed_orders (err e) = raise internal
  listed_orders (ok (orders, next_token)) = pure (map (λ o. message_of o []) orders, next_token)

  -- (s *Server) ListOrders
  unfoldable pub list_orders_call :
      {S : Type 0} → String → ℤ → String → Exec (System S) Code (List OrderMessage × String)
  list_orders_call customer_id page_size page_token =
      if is_empty customer_id
      then raise invalid_argument
      else attempt (on_db (list_orders customer_id page_size page_token)) listed_orders

module _ ⦃u : Uuids⦄ (t : Tables) (us : ℕ → ℕ) (now : ℕ) (page_size : ℤ)
    (prim : IsPrimary (λ o. o.id) t.orders) where
  -- Reading the pages of ListOrders from the empty token until there is no next one, with any page
  -- size, gives every order of the customer once, in the order of the ids. Ids are unique, calls are
  -- carried out and answered, and nothing changes the table meanwhile.
  pub list_orders-all_pages :
      (customer_id : String)
      → let listed = order_by (λ o. o.id) (filter (is_of_customer customer_id) t.orders) in
        all_pages
          (λ token. (list_orders customer_id page_size token (calm t us now)).0)
          (suc (length listed))
          ""
        ≡ some listed
  unfolding list_orders
  list_orders-all_pages customer_id =
      all_pages-listed (λ o. o.id) other (λ t. t.orders) (is_of_customer customer_id) page_size t us
        now prim
