-- ===== src/Order/Saga.antt =====
-- services/order/saga.go. Spans, metrics and log lines are left out.
use micromart.Prelude.{
  ℕ, String, Bool, Option, none, some, List, [], ◌∷◌, ◌++◌, ◌==◌, if◌then◌else◌, filter,
}
use micromart.Prelude.Int.{ℤ}
use micromart.Prelude.Text.{is_empty}
use micromart.Prelude.Exec.{Result, ok, err, Exec, pure, raise, ◌>>=◌, ◌>>◌}
use micromart.Sql.{Uuids, statement}
use micromart.Sql.Tables.{and_then}
use micromart.Grpc.Status.{Code}
use micromart.Grpc.Inventory.{InventoryClient}
use micromart.Inventory.Stock.{StockItem}
use micromart.Order.Entity.{
  OrderStatus, SagaStatus, SagaStep, reserve_inventory, process_payment, confirm_order, SagaState,
  other, Reason, reserve_failed, payment_failed, confirm_failed, interrupted,
}
use micromart.Order.SagaRows.{update_saga, update_order, latest, insert_saga, is_in_progress}
use micromart.Order.System.{System, OrderEvent, on_db, on_remote, ignored}

pub record SagaInput : Type 0 where
  pub order_id : ℕ
  pub customer_id : String
  pub total_cents : ℤ
  pub item_count : ℤ
  pub items : List StockItem  -- SagaItem has the same two fields
  pub created_at : ℕ

-- What Execute returns as an error.
pub data SagaError : Type 0 where
  check_existing create_state query_sagas : SagaError
  saga_failed : Reason → SagaError

-- --- State persistence ---

module _ {S : Type 0} where
  unfoldable pub get_existing_saga : ℕ → Exec (System S) SagaError (Option SagaState)
  get_existing_saga order_id = on_db (
      statement check_existing
        λ w. some (latest (filter (λ s. s.order_id == order_id) w.tables.sagas), w))

  unfoldable pub create_saga_state : ℕ → Exec (System S) SagaError ℕ
  create_saga_state order_id = on_db (statement create_state (insert_saga order_id))

  unfoldable pub update_step : ℕ → SagaStep → Exec (System S) SagaError Unit
  update_step saga_id step =
      ignored
        (on_db (statement other (update_saga (λ s. record s { current_step = step }) saga_id)))

  unfoldable pub set_reservation_id : ⦃u : Uuids⦄ → ℕ → String → Exec (System S) SagaError Unit
  set_reservation_id ⦃u⦄ saga_id reservation_id = ignored (
      on_db (
        statement other λ w.
          and_then (u.parse reservation_id)
            λ r. update_saga (λ s. record s { reservation_id = some r }) saga_id w))

  unfoldable pub update_order_status : ℕ → OrderStatus → Exec (System S) SagaError Unit
  update_order_status order_id st = ignored (on_db (statement other (update_order st order_id)))

  unfoldable pub complete_saga : ℕ → Exec (System S) SagaError Unit
  complete_saga saga_id = ignored (
      on_db
        (statement other (update_saga (λ s. record s { status = SagaStatus.completed }) saga_id)))

  unfoldable pub fail : ℕ → ℕ → Reason → Exec (System S) SagaError Unit
  fail saga_id order_id reason = do
    ignored (
        on_db (
          statement other (
            update_saga (λ s. record s { status = SagaStatus.failed; failure_reason = some reason })
              saga_id)))
    ignored (on_db (statement other (update_order OrderStatus.failed order_id)))
    raise (saga_failed reason)

-- `SELECT * FROM saga_state WHERE status = $1` of Resume
abbrev pub query_interrupted : {S : Type 0} → Exec (System S) SagaError (List SagaState)
query_interrupted =
    on_db
      (statement query_sagas λ w. some (filter (λ s. is_in_progress s.status) w.tables.sagas, w))

-- What the orchestrator is built from: the inventory service, the payment processor, which is
-- free to change the remote side too, and whether there is a ClickHouse client.
pub record Orchestrator (S : Type 0) : Type 0 where
  pub client : InventoryClient S
  pub process_payment : String → Exec S Code (Unit {0})
  pub has_clickhouse : Bool

-- NewSagaOrchestrator: the payment processor always succeeds.
unfoldable pub new_orchestrator : {S : Type 0} → InventoryClient S → Bool → Orchestrator S
new_orchestrator client has_clickhouse = record {
  client = client;
  process_payment = λ _. pure tt;
  has_clickhouse = has_clickhouse;
}

-- A call whose error is looked at: `if err != nil`.
abbrev pub attempt : {S E F A B : Type 0} → Exec S E A → (Result E A → Exec S F B) → Exec S F B
attempt m f s = let (r, s') = m s in f r s'

module _ {S : Type 0} (saga : Orchestrator S) ⦃u : Uuids⦄ where
  abbrev pub completed_event : SagaInput → ℕ → OrderEvent
  completed_event input now = record {
    order_id = u.text input.order_id;
    customer_id = input.customer_id;
    status = OrderStatus.completed;
    total_cents = input.total_cents;
    item_count = input.item_count;
    created_at = input.created_at;
    completed_at = now;
  }

  -- `if s.clickhouse != nil { s.clickhouse.Publish(...) }`
  abbrev pub publish : SagaInput → Exec (System S) SagaError Unit
  publish input s = (
    ok tt,
    record s {
      events =
          (if saga.has_clickhouse
            then s.events ++ completed_event input s.db.now ∷ []
            else s.events);
    },
  )

  unfoldable pub compensate_reserve : String → Exec (System S) SagaError Unit
  compensate_reserve reservation_id =
      if is_empty reservation_id
      then pure tt
      else ignored (on_remote (saga.client.release_stock reservation_id))

  module _ (input : SagaInput) (saga_id : ℕ) where
    -- From the answer of DecrementStock on.
    unfoldable pub confirmed : String → Result Code Unit → Exec (System S) SagaError Unit
    confirmed reservation_id (err e) = do
      compensate_reserve reservation_id
      fail saga_id input.order_id confirm_failed
    confirmed reservation_id (ok _) = do
      update_order_status input.order_id OrderStatus.completed
      complete_saga saga_id
      publish input

    -- From the answer of the payment on.
    unfoldable pub paid : String → Result Code Unit → Exec (System S) SagaError Unit
    paid reservation_id (err e) = do
      compensate_reserve reservation_id
      fail saga_id input.order_id payment_failed
    paid reservation_id (ok _) = do
      update_step saga_id confirm_order
      update_order_status input.order_id OrderStatus.confirming
      attempt (on_remote (saga.client.decrement_stock reservation_id)) (confirmed reservation_id)

    -- Step 2.
    unfoldable pub request_payment : String → Exec (System S) SagaError Unit
    request_payment reservation_id = do
      update_step saga_id process_payment
      update_order_status input.order_id OrderStatus.paying
      attempt (on_remote (saga.process_payment (u.text input.order_id))) (paid reservation_id)

    -- From the answer of ReserveStock on.
    unfoldable pub reserved : Result Code String → Exec (System S) SagaError Unit
    reserved (err e) = fail saga_id input.order_id reserve_failed
    reserved (ok reservation_id) = do
      set_reservation_id saga_id reservation_id
      request_payment reservation_id

    -- The three steps of Execute.
    unfoldable pub run_steps : Exec (System S) SagaError Unit
    run_steps = do
      update_step saga_id reserve_inventory
      update_order_status input.order_id OrderStatus.reserving
      attempt (on_remote (saga.client.reserve_stock (u.text input.order_id) input.items)) reserved

  -- A saga that is there, whatever its status, is not run again.
  abbrev pub unless_existing : SagaInput → Option SagaState → Exec (System S) SagaError Unit
  unless_existing input (some existing) = pure tt
  unless_existing input none = do
    saga_id ← create_saga_state input.order_id
    run_steps input saga_id

  unfoldable pub execute : SagaInput → Exec (System S) SagaError Unit
  execute input = do existing ← get_existing_saga input.order_id; unless_existing input existing

  -- The loop of Resume: `_ = s.fail(...)`.
  abbrev pub compensate_valid : Option ℕ → Exec (System S) SagaError Unit
  compensate_valid none = pure tt
  compensate_valid (some reservation_id) = compensate_reserve (u.text reservation_id)

  unfoldable pub resume_each : List SagaState → Exec (System S) SagaError Unit
  resume_each [] = pure tt
  resume_each (row ∷ rows) = do
    compensate_valid row.reservation_id
    ignored (fail row.id row.order_id interrupted)
    resume_each rows

  unfoldable pub resume : Exec (System S) SagaError Unit
  resume = do rows ← query_interrupted; resume_each rows
