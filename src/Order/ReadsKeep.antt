-- ===== src/Order/ReadsKeep.antt =====
-- How an invariant of the remote side is shown of GetOrder, CancelOrder and ListOrders of
-- services/order/order_server.go.
use micromart.Prelude.{String, List, [], ◌∷◌}
use micromart.Prelude.Int.{ℤ}
use micromart.Prelude.Text.{is_empty}
use micromart.Prelude.Exec.{Result, ok, err, pure, raise, ◌>>=◌}
use micromart.Prelude.Keeps.{Keeps, >>=-Keeps, if-Keeps}
use micromart.Sql.{Uuids}
use micromart.Grpc.Status.{Code, invalid_argument}
use micromart.Grpc.Inventory.{ProductMessage}
use micromart.Order.Entity.{Order, OrderItem}
use micromart.Order.System.{System, on_db, on_remote}
use micromart.Order.Saga.{attempt}
use micromart.Order.Repository.{RepositoryError}
use micromart.Order.Queries
use micromart.Order.Messages.{item_to_proto, message_of}
use micromart.Order.OrderList.{list_orders_call, list_orders, listed_orders}
use micromart.Order.Server.{
  Server, named, name_items, got, get_order, cancelled_order, cancel_order,
}
use micromart.Order.ServerKeeps.{CallRules, OnRemote}

module _ {S : Type 0} (server : Server S) ⦃u : Uuids⦄ (P : S → Type 0)
    (rules : CallRules server P) where
  named-Keeps : (r : Result Code ProductMessage) → Keeps (OnRemote P) (named server r)
  named-Keeps (ok product) s h = h
  named-Keeps (err e) s h = h

  name_items-Keeps : (items : List OrderItem) → Keeps (OnRemote P) (name_items server items)
  unfolding name_items
  name_items-Keeps [] = λ s h. h
  name_items-Keeps (item ∷ items) =
      >>=-Keeps (OnRemote P)
        (attempt (on_remote (server.inventory_client.get_product (u.text item.product_id)))
          (named server))
        (λ name. name_items server items >>= λ rest. pure (item_to_proto name item ∷ rest))
        (λ s h. named-Keeps _ _ (rules.product (u.text item.product_id) s.remote h))
        (λ name.
          >>=-Keeps (OnRemote P) (name_items server items)
            (λ rest. pure (item_to_proto name item ∷ rest)) (name_items-Keeps items)
            (λ rest s h. h))

  got-Keeps :
      (r : Result RepositoryError (Order × List OrderItem)) → Keeps (OnRemote P) (got server r)
  got-Keeps (err RepositoryError.not_found) = λ s h. h
  got-Keeps (err _) = λ s h. h
  got-Keeps (ok (order, items)) =
      >>=-Keeps (OnRemote P) (name_items server items)
        (λ named_items. pure (message_of order named_items)) (name_items-Keeps items) (λ _ s h. h)

  pub get_order-Keeps : (id : String) → Keeps (OnRemote P) (get_order server id)
  unfolding get_order
  get_order-Keeps id =
      if-Keeps (OnRemote P) (is_empty id) (raise invalid_argument)
        (attempt (on_db (Queries.get_order id)) (got server)) (λ s h. h) (λ s h. got-Keeps _ _ h)

  cancelled_order-Keeps :
      (r : Result RepositoryError (Order × List OrderItem))
      → Keeps (OnRemote P) (cancelled_order server r)
  cancelled_order-Keeps (err RepositoryError.not_found) s h = h
  cancelled_order-Keeps (err _) s h = h
  cancelled_order-Keeps (ok (order, items)) s h = h

  pub cancel_order-Keeps : (id : String) → Keeps (OnRemote P) (cancel_order server id)
  unfolding cancel_order
  cancel_order-Keeps id =
      if-Keeps (OnRemote P) (is_empty id) (raise invalid_argument)
        (attempt (on_db (Queries.cancel_order id)) (cancelled_order server)) (λ s h. h)
        (λ s h. cancelled_order-Keeps _ _ h)

  listed_orders-Keeps :
      (r : Result RepositoryError (List Order × String)) → Keeps (OnRemote P) (listed_orders r)
  listed_orders-Keeps (err e) s h = h
  listed_orders-Keeps (ok (orders, token)) s h = h

  pub list_orders_call-Keeps :
      (id : String) (n : ℤ) (token : String)
      → Keeps {S = System S} (OnRemote P) (list_orders_call id n token)
  unfolding list_orders_call
  list_orders_call-Keeps id n token =
      if-Keeps (OnRemote P) (is_empty id) (raise invalid_argument)
        (attempt (on_db (list_orders id n token)) listed_orders) (λ s h. h)
        (λ s h. listed_orders-Keeps _ _ h)
