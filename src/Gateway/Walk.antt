-- ===== src/Gateway/Walk.antt =====
-- A client that reads a customer's orders through the gateway, page by page.
use mathlib.Core.List.{map-append, map-map}
use micromart.Prelude.{
  ℕ, zero, suc, String, ◌≡◌, refl, ap, sym, ◌∙◌, false, Option, none, some, List, [], map, filter,
  length, Bool-cases, inl, inr,
}
use micromart.Prelude.Text.{is_empty}
use micromart.Prelude.Exec.{Result, ok, err}
use micromart.Sql.{Uuids, calm}
use micromart.Sql.Keys.{IsPrimary}
use micromart.Order.Entity.{Order, Tables}
use micromart.Order.System.{System}
use micromart.Order.Repository.{RepositoryError}
use micromart.Order.Messages.{message_of}
use micromart.Order.OrderList.{
  is_of_customer, list_orders, list_orders_call, list_orders-all_pages, listed_orders,
}
use micromart.Order.Server.{Server}
use micromart.Paging.Ascending.{order_by}
use micromart.Paging.Walk.{all_pages, and_later, put_rows}
use micromart.Gateway.Http.{
  Texts, Reply, data_reply, error_reply, PaginatedResponse, page_size_param, grpc_to_http,
  reply_with,
}
use micromart.Gateway.Orders.{OrderResponse, list, list_response, order_to_response}
use micromart.Grpc.Connection.{delivered}
use micromart.Gateway.Statuses.{order_client}

-- The rows and the next token that a reply carries.
abbrev pub read_page : {A : Type 0} → Reply (PaginatedResponse A) → Result ℕ (List A × String)
read_page (data_reply status r) = ok (r.entries, r.next_page_token)
read_page (error_reply status) = err status

-- A page with its rows shown and its error translated.
abbrev shown :
    {E F A B : Type 0} → (E → F) → (A → B) → Result E (List A × String) → Result F (List B × String)
shown g f (err e) = err (g e)
shown g f (ok (rows, token)) = ok (map f rows, token)

abbrev map_option : {A B : Type 0} → (A → B) → Option A → Option B
map_option f none = none
map_option f (some a) = some (f a)

module _ {E F A B : Type 0} (g : E → F) (f : A → B) where
  put_rows-map :
      (rows : List A) (more : Option (List A))
      → put_rows (map f rows) (map_option (map f) more) ≡ map_option (map f) (put_rows rows more)
  put_rows-map rows none = refl
  put_rows-map rows (some more) = ap some (sym (map-append f rows more))

  and_later-shown :
      (page : String → Result E (List A × String)) (page' : String → Result F (List B × String))
      (r : Result E (List A × String)) (rest : String → Option (List A))
      (rest' : String → Option (List B))
      → ((token : String) → rest' token ≡ map_option (map f) (rest token))
      → and_later page' (shown g f r) rest' ≡ map_option (map f) (and_later page r rest)
  and_later-shown page page' (err e) rest rest' h = refl
  and_later-shown page page' (ok (rows, token)) rest rest' h = elim (Bool-cases (is_empty token)) [
    | inl last ↦ rw last refl
    | inr more ↦ rw (more, h token) (put_rows-map rows (rest token))
  ]

  -- Showing each page shows the whole.
  all_pages-shown :
      (page : String → Result E (List A × String)) (page' : String → Result F (List B × String))
      → ((token : String) → page' token ≡ shown g f (page token))
      → (fuel : ℕ) (token : String)
      → all_pages page' fuel token ≡ map_option (map f) (all_pages page fuel token)
  unfolding all_pages
  all_pages-shown page page' h zero token = refl
  all_pages-shown page page' h (suc fuel) token = rw (h token) (
      and_later-shown page page' (page token) (all_pages page fuel) (all_pages page' fuel)
        (all_pages-shown page page' h fuel))

module _ {S : Type 0} (server : Server S) ⦃u : Uuids⦄ (texts : Texts) where
  abbrev pub order_shown : Order → OrderResponse
  order_shown o = order_to_response texts (message_of o [])

  reply-shown :
      (r : Result RepositoryError (List Order × String)) (s : System S)
      → read_page (reply_with 200 (list_response texts) (listed_orders r s).0)
        ≡ shown (λ e. 500) order_shown r
  unfolding grpc_to_http
  reply-shown (err e) s = refl
  reply-shown (ok (orders, token)) s =
      ap (λ (os : List OrderResponse). ok (os, token))
        (map-map (order_to_response texts) (λ o. message_of o []) orders)

  -- A client that asks the gateway for one page of a customer's orders after another, whatever page
  -- size it writes, is shown every order of the customer once, in the order of the ids. The gateway,
  -- the order server and the database answer, ids are unique, and nothing changes the table
  -- meanwhile.
  pub list-all_pages :
      (customer_id page_size : String) (s : System S) (t : Tables) (us : ℕ → ℕ) (now : ℕ)
      → is_empty customer_id ≡ false
      → IsPrimary (λ o. o.id) t.orders
      → s.db ≡ calm t us now
      → let listed = order_by (λ o. o.id) (filter (is_of_customer customer_id) t.orders) in
        all_pages
          (λ token.
            read_page (list texts (order_client delivered server) customer_id token page_size s).0)
          (suc (length listed))
          ""
        ≡ some (map order_shown listed)
  unfolding list list_orders_call
  list-all_pages customer_id page_size s t us now given prim db =
      all_pages-shown (λ e. 500) order_shown
        (λ token. (list_orders customer_id (page_size_param page_size) token (calm t us now)).0)
        (λ token.
          read_page (list texts (order_client delivered server) customer_id token page_size s).0)
        (λ token. rw given (
          reply-shown (list_orders customer_id (page_size_param page_size) token s.db).0 _
          ∙ ap
              (λ w.
                shown (λ e. 500) order_shown
                  (list_orders customer_id (page_size_param page_size) token w).0)
              db))
        (suc (length (order_by (λ o. o.id) (filter (is_of_customer customer_id) t.orders)))) ""
      ∙ ap (map_option (map order_shown))
          (list_orders-all_pages t us now (page_size_param page_size) prim customer_id)
