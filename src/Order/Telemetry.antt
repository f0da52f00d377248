-- ===== src/Order/Telemetry.antt =====
-- services/order/saga.go with what it reports: the spans and their annotations, and the results
-- that recordResult counts, without durations. Log lines are left out.
pub mod Nested
pub mod Counted
use micromart.Prelude.{ℕ, String, Bool, Option, none, some, List, [], ◌∷◌, if◌then◌else◌}
use micromart.Prelude.Text.{is_empty}
use micromart.Prelude.Exec.{Result, ok, err, Exec, pure, ◌>>=◌, ◌>>◌}
use micromart.Sql.{Uuids}
use micromart.Grpc.Status.{Code}
use micromart.Order.Entity.{
  OrderStatus, reserve_inventory, process_payment, confirm_order, SagaState, Reason, reserve_failed,
  payment_failed, confirm_failed, interrupted,
}
use micromart.Order.System.{System, on_remote, ignored}
use micromart.Order.Saga.{
  SagaInput, SagaError, get_existing_saga, create_saga_state, update_step, set_reservation_id,
  update_order_status, complete_saga, fail, Orchestrator, attempt, publish, query_interrupted,
}

pub data SpanName : Type 0 where
  saga_execute saga_reserve_inventory saga_confirm_order saga_compensate_reserve : SpanName

-- span.SetStatus, span.AddEvent and span.SetAttributes.
pub data Annotation : Type 0 where
  status_error status_ok inventory_reserved payment_processed reservation_id_set : Annotation

pub data TraceEvent : Type 0 where
  started ended : SpanName → TraceEvent
  annotated : SpanName → Annotation → TraceEvent

-- The labels of recordResult.
pub data ResultLabel : Type 0 where
  completed failed error : ResultLabel

-- The system with what was reported, the latest first.
pub record Traced (S : Type 0) : Type 0 where
  pub system : System S
  pub results : List ResultLabel
  pub trace : List TraceEvent

module _ {S E : Type 0} where
  abbrev pub report : TraceEvent → Exec (Traced S) E (Unit {0})
  report x t = (ok tt, record t { trace = x ∷ t.trace })

  -- recordResult
  unfoldable pub record_result : Bool → ResultLabel → Exec (Traced S) E (Unit {0})
  record_result has_metrics label t =
      (ok tt, record t { results = if has_metrics then label ∷ t.results else t.results })

module _ {S E A : Type 0} where
  -- A call that reports nothing itself.
  abbrev pub effect : Exec (System S) E A → Exec (Traced S) E A
  effect m t = let (r, system') = m t.system in (r, record t { system = system' })

  abbrev pub end_span : SpanName → Result E A × Traced S → Result E A × Traced S
  end_span name (r, t) = (r, record t { trace = ended name ∷ t.trace })

  -- tracer.Start, defer span.End() and the rest of the method.
  abbrev pub in_span : SpanName → Exec (Traced S) E A → Exec (Traced S) E A
  in_span name body t = end_span name (body (record t { trace = started name ∷ t.trace }))

  -- `if err != nil { span.SetStatus(otelcodes.Error, err.Error()) }`, and what is set otherwise.
  abbrev pub annotated_answer :
      SpanName → Exec (Traced S) E (Unit {0}) → Result E A → Exec (Traced S) E A
  annotated_answer name otherwise (err e) t =
      (err e, (report {E = E} (annotated name status_error) t).1)
  annotated_answer name otherwise (ok a) t = (ok a, (otherwise t).1)

-- A call of the remote side in a span of its own, which takes what is set for the answer.
abbrev pub spanned_call :
    {S E A : Type 0} → SpanName → Exec (Traced S) E (Unit {0}) → Exec S E A → Exec (Traced S) E A
spanned_call name otherwise call =
    in_span name (attempt (effect (on_remote call)) (annotated_answer name otherwise))

module _ {S : Type 0} (saga : Orchestrator S) (has_metrics : Bool) ⦃u : Uuids⦄ where
  unfoldable pub reserve_inventory_traced : SagaInput → Exec (Traced S) Code String
  reserve_inventory_traced input =
      spanned_call saga_reserve_inventory
        (report (annotated saga_reserve_inventory reservation_id_set))
        (saga.client.reserve_stock (u.text input.order_id) input.items)

  unfoldable pub confirm_order_traced : String → Exec (Traced S) Code Unit
  confirm_order_traced reservation_id =
      spanned_call saga_confirm_order (pure tt) (saga.client.decrement_stock reservation_id)

  unfoldable pub compensate_reserve_traced : String → Exec (Traced S) SagaError Unit
  compensate_reserve_traced reservation_id =
      if is_empty reservation_id
      then pure tt
      else ignored (
          spanned_call saga_compensate_reserve (pure tt) (saga.client.release_stock reservation_id))

  module _ (input : SagaInput) (saga_id : ℕ) where
    -- A step that failed: the end that the three error branches have in common.
    abbrev pub failed_traced : Reason → Exec (Traced S) SagaError Unit
    failed_traced reason = do
      report (annotated saga_execute status_error)
      record_result has_metrics failed
      effect (fail saga_id input.order_id reason)

    -- A step that failed after the reservation.
    abbrev pub compensated_traced : String → Reason → Exec (Traced S) SagaError Unit
    compensated_traced reservation_id reason = do
      compensate_reserve_traced reservation_id
      failed_traced reason

    unfoldable pub confirmed_traced : String → Result Code Unit → Exec (Traced S) SagaError Unit
    confirmed_traced reservation_id (err e) = compensated_traced reservation_id confirm_failed
    confirmed_traced reservation_id (ok _) = do
      effect (update_order_status input.order_id OrderStatus.completed)
      effect (complete_saga saga_id)
      report (annotated saga_execute status_ok)
      record_result has_metrics completed
      effect (publish saga input)

    unfoldable pub paid_traced : String → Result Code Unit → Exec (Traced S) SagaError Unit
    paid_traced reservation_id (err e) = compensated_traced reservation_id payment_failed
    paid_traced reservation_id (ok _) = do
      report (annotated saga_execute payment_processed)
      effect (update_step saga_id confirm_order)
      effect (update_order_status input.order_id OrderStatus.confirming)
      attempt (confirm_order_traced reservation_id) (confirmed_traced reservation_id)

    unfoldable pub reserved_traced : Result Code String → Exec (Traced S) SagaError Unit
    reserved_traced (err e) = failed_traced reserve_failed
    reserved_traced (ok reservation_id) = do
      effect (set_reservation_id saga_id reservation_id)
      report (annotated saga_execute inventory_reserved)
      effect (update_step saga_id process_payment)
      effect (update_order_status input.order_id OrderStatus.paying)
      attempt (effect (on_remote (saga.process_payment (u.text input.order_id))))
          (paid_traced reservation_id)

    -- The three steps of Execute.
    unfoldable pub run_steps_traced : Exec (Traced S) SagaError Unit
    run_steps_traced = do
      effect (update_step saga_id reserve_inventory)
      effect (update_order_status input.order_id OrderStatus.reserving)
      attempt (reserve_inventory_traced input) reserved_traced

  -- `recordResult("error"); return err`, or the method goes on.
  abbrev pub or_error :
      {A : Type 0}
      → (A → Exec (Traced S) SagaError Unit)
      → Result SagaError A
      → Exec (Traced S) SagaError Unit
  or_error f (err e) t = (err e, (record_result {E = SagaError} has_metrics error t).1)
  or_error f (ok a) t = f a t

  abbrev pub unless_existing_traced : SagaInput → Option SagaState → Exec (Traced S) SagaError Unit
  unless_existing_traced input (some existing) = pure tt
  unless_existing_traced input none =
      attempt (effect (create_saga_state input.order_id)) (or_error (run_steps_traced input))

  unfoldable pub execute_traced : SagaInput → Exec (Traced S) SagaError Unit
  execute_traced input = in_span saga_execute (
      attempt (effect (get_existing_saga input.order_id)) (or_error (unless_existing_traced input)))

  -- The loop of Resume, and Resume: no span of its own.
  abbrev pub compensate_valid_traced : Option ℕ → Exec (Traced S) SagaError Unit
  compensate_valid_traced none = pure tt
  compensate_valid_traced (some reservation_id) = compensate_reserve_traced (u.text reservation_id)

  unfoldable pub resume_each_traced : List SagaState → Exec (Traced S) SagaError Unit
  resume_each_traced [] = pure tt
  resume_each_traced (row ∷ rows) = do
    compensate_valid_traced row.reservation_id
    effect (ignored (fail row.id row.order_id interrupted))
    resume_each_traced rows

  unfoldable pub resume_traced : Exec (Traced S) SagaError Unit
  resume_traced = do rows ← effect query_interrupted; resume_each_traced rows
