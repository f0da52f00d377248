-- ===== src/Order/Queries.antt =====
-- services/order/order_repository.go, GetOrder, UpdateOrderStatus and CancelOrder.
use micromart.Prelude.{
  ℕ, String, Bool, false, true, Option, none, some, List, ◌==◌, if◌then◌else◌, filter,
}
use micromart.Prelude.Exec.{Exec, pure, raise, ◌>>=◌}
use micromart.Sql.{World, Uuids, statement}
use micromart.Sql.Tables.{and_then, update_all}
use micromart.Sql.Keys.{find_key}
use micromart.Order.Entity.{Order, OrderItem, OrderStatus, pending, failed, cancelled, Tables}
use micromart.Order.Repository.{RepositoryError, not_found, wrong_status, other}

-- `order.Status != OrderStatusPending && order.Status != OrderStatusFailed`
abbrev pub can_cancel : OrderStatus → Bool
can_cancel pending = true
can_cancel failed = true
can_cancel _ = false

abbrev pub set_status : OrderStatus → ℕ → Order → Order
set_status st now o = record o { status = st; updated_at = now }

-- A query that answers with one row, or with sql.ErrNoRows.
abbrev pub one_row : RepositoryError → Option Order → Exec (World Tables) RepositoryError Order
one_row e none = raise e
one_row e (some o) = pure o

module _ ⦃u : Uuids⦄ where
  -- SELECT * FROM orders WHERE id = $1
  unfoldable pub select_order : String → Exec (World Tables) RepositoryError (Option Order)
  select_order id =
      statement other
        λ w. and_then (u.parse id) λ k. some (find_key (λ o. o.id) k w.tables.orders, w)

  -- UPDATE orders SET status = st, updated_at = NOW() WHERE id = $2 RETURNING *
  unfoldable pub update_returning :
      OrderStatus → String → Exec (World Tables) RepositoryError (Option Order)
  update_returning st id = statement other λ w. and_then (u.parse id) λ k.
      let os = update_all (λ o. o.id == k) (set_status st w.now) w.tables.orders in
      some (find_key (λ o. o.id) k os, record w { tables = record w.tables { orders = os } })

  -- SELECT * FROM order_items WHERE order_id = $1 ORDER BY created_at
  unfoldable pub items_of : String → Exec (World Tables) RepositoryError (List OrderItem)
  items_of id =
      statement other
        λ w. and_then (u.parse id) λ k. some (filter (λ i. i.order_id == k) w.tables.order_items, w)

  abbrev pub with_items :
      String → Order → Exec (World Tables) RepositoryError (Order × List OrderItem)
  with_items id order = items_of id >>= λ items. pure (order, items)

  -- (r *Repository) GetOrder
  unfoldable pub get_order : String → Exec (World Tables) RepositoryError (Order × List OrderItem)
  get_order id = select_order id >>= one_row not_found >>= with_items id

  abbrev pub cancel_found :
      String → Order → Exec (World Tables) RepositoryError (Order × List OrderItem)
  cancel_found id order =
      if can_cancel order.status
      then (update_returning cancelled id >>= one_row other >>= with_items id)
      else raise wrong_status

  -- (r *Repository) CancelOrder
  unfoldable pub cancel_order :
      String → Exec (World Tables) RepositoryError (Order × List OrderItem)
  cancel_order id = select_order id >>= one_row not_found >>= cancel_found id

  -- The UPDATE, with whether a row was affected.
  abbrev pub change_status :
      OrderStatus → String → Exec (World Tables) RepositoryError (Option Order)
  change_status st id = statement other λ w. and_then (u.parse id) λ k.
      let os = update_all (λ o. o.id == k) (set_status st w.now) w.tables.orders in
      some (
        find_key (λ o. o.id) k w.tables.orders,
        record w { tables = record w.tables { orders = os } },
      )

  -- (r *Repository) UpdateOrderStatus
  unfoldable pub update_order_status :
      String → OrderStatus → Exec (World Tables) RepositoryError Unit
  update_order_status id st = change_status st id >>= one_row not_found >>= λ _. pure tt
