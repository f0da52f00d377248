-- ===== src/Order/SagaKeeps.antt =====
-- How an invariant is shown of the methods of services/order/saga.go: of the database calls and of
-- the remote calls that they make.
use micromart.Prelude.{ℕ, String, Option, none, some, List, [], ◌∷◌}
use micromart.Prelude.Text.{is_empty}
use micromart.Prelude.Exec.{Result, ok, err, pure, ◌>>◌}
use micromart.Prelude.Keeps.{Keeps, >>=-Keeps, if-Keeps}
use micromart.Sql.{Uuids}
use micromart.Grpc.Status.{Code}
use micromart.Inventory.Stock.{StockItem}
use micromart.Order.Entity.{
  OrderStatus, SagaStep, SagaState, Reason, payment_failed, confirm_failed, reserve_failed,
  reserve_inventory, process_payment, confirm_order, interrupted,
}
use micromart.Order.System.{System, on_remote, ignored}
use micromart.Order.Saga.{
  Orchestrator, SagaInput, SagaError, get_existing_saga, create_saga_state, query_interrupted,
  update_step, set_reservation_id, update_order_status, complete_saga, fail, publish,
  compensate_reserve, confirmed, paid, request_payment, reserved, run_steps, unless_existing,
  execute, compensate_valid, resume_each, resume,
}

-- A predicate that each write to the database and each remote call keeps.
pub record StepRules {S : Type 0} (saga : Orchestrator S) ⦃u : Uuids⦄ (P : System S → Type 0)
    : Type 0 where
  pub step : (id : ℕ) (st : SagaStep) → Keeps P (update_step id st)
  pub order : (id : ℕ) (st : OrderStatus) → Keeps P (update_order_status id st)
  pub reservation : (id : ℕ) (text : String) → Keeps P (set_reservation_id id text)
  pub completion : (id : ℕ) → Keeps P (complete_saga id)
  pub failure : (id order_id : ℕ) (why : Reason) → Keeps P (fail id order_id why)
  pub event : (input : SagaInput) → Keeps P (publish saga input)
  pub reserve :
      (id : String) (items : List StockItem)
      → Keeps {E = Code} P (on_remote (saga.client.reserve_stock id items))
  pub release : (id : String) → Keeps {E = Code} P (on_remote (saga.client.release_stock id))
  pub decrement : (id : String) → Keeps {E = Code} P (on_remote (saga.client.decrement_stock id))
  pub payment : (id : String) → Keeps {E = Code} P (on_remote (saga.process_payment id))

module _ {S : Type 0} (saga : Orchestrator S) ⦃u : Uuids⦄ (P : System S → Type 0)
    (rules : StepRules saga P) where
  open rules use {
    step, order, reservation, completion, failure, event, reserve, release, decrement, payment,
  }

  compensate_reserve-Keeps : (id : String) → Keeps P (compensate_reserve saga id)
  unfolding compensate_reserve
  compensate_reserve-Keeps id =
      if-Keeps P (is_empty id) (pure tt) (ignored (on_remote (saga.client.release_stock id)))
        (λ s h. h) (release id)

  module _ (input : SagaInput) (g : ℕ) where
    failing-Keeps :
        (id : String) (why : Reason)
        → Keeps P (compensate_reserve saga id >> fail g input.order_id why)
    failing-Keeps id why =
        >>=-Keeps P (compensate_reserve saga id) (λ _. fail g input.order_id why)
          (compensate_reserve-Keeps id) (λ _. failure g input.order_id why)

    confirmed-Keeps : (id : String) (a : Result Code Unit) → Keeps P (confirmed saga input g id a)
    unfolding confirmed
    confirmed-Keeps id (err e) = failing-Keeps id confirm_failed
    confirmed-Keeps id (ok _) =
        >>=-Keeps P (update_order_status input.order_id OrderStatus.completed)
          (λ _. complete_saga g >> publish saga input) (order input.order_id OrderStatus.completed)
          (λ _.
            >>=-Keeps P (complete_saga g) (λ _. publish saga input) (completion g)
              (λ _. event input))

    paid-Keeps : (id : String) (a : Result Code Unit) → Keeps P (paid saga input g id a)
    unfolding paid update_order_status update_step
    paid-Keeps id (err e) s h = failing-Keeps id payment_failed s h
    paid-Keeps id (ok _) s h =
        confirmed-Keeps id _ _ (
          decrement id _ (order input.order_id OrderStatus.confirming _ (step g confirm_order s h)))

    request_payment-Keeps : (id : String) → Keeps P (request_payment saga input g id)
    unfolding request_payment update_order_status update_step
    request_payment-Keeps id s h =
        paid-Keeps id _ _
          (payment _ _ (order input.order_id OrderStatus.paying _ (step g process_payment s h)))

    reserved-Keeps : (a : Result Code String) → Keeps P (reserved saga input g a)
    unfolding reserved set_reservation_id
    reserved-Keeps (err e) s h = failure g input.order_id reserve_failed s h
    reserved-Keeps (ok id) s h = request_payment-Keeps id _ (reservation g id s h)

    -- What the calls keep, the three steps of Execute keep.
    pub run_steps-Keeps : Keeps P (run_steps saga input g)
    unfolding run_steps update_order_status update_step
    run_steps-Keeps s h = reserved-Keeps _ _ (
        reserve _ _ _ (order input.order_id OrderStatus.reserving _ (step g reserve_inventory s h)))

  module _ (looks_up : (id : ℕ) → Keeps P (get_existing_saga id))
      (creates : (id : ℕ) → Keeps P (create_saga_state id)) where
    unless_existing-Keeps :
        (input : SagaInput) (existing : Option SagaState)
        → Keeps P (unless_existing saga input existing)
    unless_existing-Keeps input (some existing) s h = h
    unless_existing-Keeps input none s h =
        >>=-Keeps P (create_saga_state input.order_id) (run_steps saga input)
          (creates input.order_id) (run_steps-Keeps input) s h

    pub execute-Keeps : (input : SagaInput) → Keeps P (execute saga input)
    unfolding execute
    execute-Keeps input =
        >>=-Keeps P (get_existing_saga input.order_id) (unless_existing saga input)
          (looks_up input.order_id) (unless_existing-Keeps input)

  compensate_valid-Keeps : (id : Option ℕ) → Keeps P (compensate_valid saga id)
  compensate_valid-Keeps none s h = h
  compensate_valid-Keeps (some id) s h = compensate_reserve-Keeps (u.text id) s h

  resume_each-Keeps : (rows : List SagaState) → Keeps P (resume_each saga rows)
  unfolding resume_each
  resume_each-Keeps [] s h = h
  resume_each-Keeps (row ∷ rows) s h =
      >>=-Keeps P (compensate_valid saga row.reservation_id)
        (λ _. ignored (fail row.id row.order_id interrupted) >> resume_each saga rows)
        (compensate_valid-Keeps row.reservation_id)
        (λ _ t k. resume_each-Keeps rows _ (failure row.id row.order_id interrupted t k)) s h

  -- And Resume keeps it.
  pub resume-Keeps : Keeps {E = SagaError} P query_interrupted → Keeps P (resume saga)
  unfolding resume
  resume-Keeps queries = >>=-Keeps P query_interrupted (resume_each saga) queries resume_each-Keeps
