-- ===== src/Order/SagaRows.antt =====
-- The statements of services/order/saga.go on the rows of orders and saga_state.
use micromart.Prelude.{
  ℕ, Bool, false, true, Option, none, some, List, [], ◌∷◌, ◌++◌, ltb, ◌==◌, if◌then◌else◌,
}
use micromart.Sql.{World, draw_uuid}
use micromart.Sql.Tables.{update_all}
use micromart.Sql.Keys.{find_key}
use micromart.Order.Entity.{
  OrderStatus, SagaStatus, reserve_inventory, in_progress, Order, SagaState, Tables,
}

abbrev pub set_orders : World Tables → List Order → Option (Unit {0} × World Tables)
set_orders w os = some (tt, record w { tables = record w.tables { orders = os } })

abbrev pub set_sagas : World Tables → List SagaState → Option (Unit {0} × World Tables)
set_sagas w ss = some (tt, record w { tables = record w.tables { sagas = ss } })

-- UPDATE saga_state SET ... WHERE id = k
unfoldable pub update_saga :
    (SagaState → SagaState) → ℕ → World Tables → Option (Unit {0} × World Tables)
update_saga set k w =
    set_sagas w
      (update_all (λ s. s.id == k) (λ s. record (set s) { updated_at = w.now }) w.tables.sagas)

-- UPDATE orders SET status = st, updated_at = NOW() WHERE id = k
unfoldable pub update_order : OrderStatus → ℕ → World Tables → Option (Unit {0} × World Tables)
update_order st k w = set_orders w (
    update_all (λ o. o.id == k) (λ o. record o { status = st; updated_at = w.now }) w.tables.orders)

-- ORDER BY created_at DESC LIMIT 1
abbrev later_of : SagaState → Option SagaState → SagaState
later_of s none = s
later_of s (some r) = if ltb s.created_at r.created_at then r else s

unfoldable pub latest : List SagaState → Option SagaState
latest [] = none
latest (s ∷ ss) = some (later_of s (latest ss))

-- INSERT INTO saga_state (order_id, current_step, status): the order must be there.
abbrev admit_saga : Option SagaState → Option Order → ℕ → World Tables → Option (ℕ × World Tables)
admit_saga none (some o) order_id w = some (
  w.uuids 0,
  record (draw_uuid w) {
    tables = record w.tables {
      sagas =
          w.tables.sagas
          ++ record {
            id = w.uuids 0;
            order_id = order_id;
            current_step = reserve_inventory;
            status = in_progress;
            reservation_id = none;
            failure_reason = none;
            created_at = w.now;
            updated_at = w.now;
          }
            ∷ [];
    };
  },
)
admit_saga none none order_id w = none
admit_saga (some s) o order_id w = none

unfoldable pub insert_saga : ℕ → World Tables → Option (ℕ × World Tables)
insert_saga order_id w =
    admit_saga (find_key (λ s. s.id) (w.uuids 0) w.tables.sagas)
      (find_key (λ o. o.id) order_id w.tables.orders) order_id w

-- WHERE status = 'IN_PROGRESS'
abbrev pub is_in_progress : SagaStatus → Bool
is_in_progress in_progress = true
is_in_progress _ = false
