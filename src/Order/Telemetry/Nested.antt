-- ===== src/Order/Telemetry/Nested.antt =====
-- services/order/saga.go, the spans: each one that a method starts it ends, inside the one that it
-- was started in.
use micromart.Prelude.{ℕ, Bool, String, Option, none, some, List, [], ◌∷◌}
use micromart.Prelude.Exec.{Result, ok, err, Exec, pure, ◌>>◌}
use micromart.Prelude.Keeps.{Keeps, >>=-Keeps}
use micromart.Sql.{Uuids}
use micromart.Grpc.Status.{Code}
use micromart.Order.Entity.{
  SagaState, Reason, payment_failed, confirm_failed, reserve_failed, interrupted,
}
use micromart.Order.System.{on_remote, ignored}
use micromart.Order.Saga.{
  SagaInput, SagaError, get_existing_saga, update_step, set_reservation_id, update_order_status,
  complete_saga, fail, query_interrupted, Orchestrator, attempt,
}
use micromart.Order.Telemetry.{
  SpanName, saga_execute, saga_reserve_inventory, saga_confirm_order, saga_compensate_reserve,
  Annotation, inventory_reserved, payment_processed, status_error, status_ok, reservation_id_set,
  TraceEvent, started, ended, annotated, Traced, report, record_result, effect, in_span,
  annotated_answer, spanned_call, or_error, reserve_inventory_traced, confirm_order_traced,
  compensate_reserve_traced, failed_traced, compensated_traced, confirmed_traced, paid_traced,
  reserved_traced, run_steps_traced, compensate_valid_traced, unless_existing_traced,
  execute_traced, resume_each_traced, resume_traced,
}

-- The spans that are open after a trace, the innermost first: only that one is ended, and only it
-- is given a status, an event or an attribute.
pub data Nested : List TraceEvent → List SpanName → Type 0 where
  at_start : Nested [] []
  by_start :
      (n : SpanName) {t : List TraceEvent} {spans : List SpanName}
      → Nested t spans
      → Nested (started n ∷ t) (n ∷ spans)
  by_end :
      (n : SpanName) {t : List TraceEvent} {spans : List SpanName}
      → Nested t (n ∷ spans)
      → Nested (ended n ∷ t) spans
  by_annotation :
      (n : SpanName) (a : Annotation) {t : List TraceEvent} {spans : List SpanName}
      → Nested t (n ∷ spans)
      → Nested (annotated n a ∷ t) (n ∷ spans)

abbrev pub IsOpen : {S : Type 0} → List SpanName → Traced S → Type 0
IsOpen spans t = Nested t.trace spans

module _ {S E A : Type 0} (spans : List SpanName) (name : SpanName) where
  in_span-IsOpen :
      (body : Exec (Traced S) E A)
      → Keeps (IsOpen (name ∷ spans)) body
      → Keeps (IsOpen spans) (in_span name body)
  in_span-IsOpen body h t k = by_end name (h _ (by_start name k))

  annotated_answer-IsOpen :
      (otherwise : Exec (Traced S) E (Unit {0}))
      → Keeps (IsOpen (name ∷ spans)) otherwise
      → (r : Result E A) → Keeps (IsOpen (name ∷ spans)) (annotated_answer name otherwise r)
  annotated_answer-IsOpen otherwise h (err e) t k = by_annotation name status_error k
  annotated_answer-IsOpen otherwise h (ok a) t k = h t k

  spanned_call-IsOpen :
      (otherwise : Exec (Traced S) E (Unit {0})) (call : Exec S E A)
      → Keeps (IsOpen (name ∷ spans)) otherwise
      → Keeps (IsOpen spans) (spanned_call name otherwise call)
  spanned_call-IsOpen otherwise call h =
      in_span-IsOpen (attempt (effect (on_remote call)) (annotated_answer name otherwise))
        λ t k. annotated_answer-IsOpen otherwise h _ _ k

module _ {S : Type 0} (saga : Orchestrator S) (has_metrics : Bool) (spans : List SpanName)
    ⦃u : Uuids⦄ where
  compensate_reserve-IsOpen :
      (reservation_id : String)
      → Keeps (IsOpen spans) (compensate_reserve_traced saga has_metrics reservation_id)
  unfolding compensate_reserve_traced
  compensate_reserve-IsOpen String.[] t h = h
  compensate_reserve-IsOpen (String.◌∷◌ c r) t h =
      spanned_call-IsOpen spans saga_compensate_reserve (pure tt)
        (saga.client.release_stock (String.◌∷◌ c r)) (λ t h. h) t h

  compensate_valid-IsOpen :
      (reservation_id : Option ℕ)
      → Keeps (IsOpen spans) (compensate_valid_traced saga has_metrics reservation_id)
  compensate_valid-IsOpen none t h = h
  compensate_valid-IsOpen (some reservation_id) t h =
      compensate_reserve-IsOpen (u.text reservation_id) t h

  resume_each-IsOpen :
      (rows : List SagaState) → Keeps (IsOpen spans) (resume_each_traced saga has_metrics rows)
  unfolding resume_each_traced
  resume_each-IsOpen [] t h = h
  resume_each-IsOpen (row ∷ rows) t h =
      >>=-Keeps (IsOpen spans) (compensate_valid_traced saga has_metrics row.reservation_id)
        (λ _.
          effect (ignored (fail row.id row.order_id interrupted))
          >> resume_each_traced saga has_metrics rows)
        (compensate_valid-IsOpen row.reservation_id) (λ a t. resume_each-IsOpen rows _) t h

  -- Resume ends each span that it starts, with the spans that were open still open.
  resume_traced-IsOpen : Keeps (IsOpen spans) (resume_traced saga has_metrics)
  unfolding resume_traced
  resume_traced-IsOpen =
      >>=-Keeps (IsOpen spans) (effect query_interrupted) (resume_each_traced saga has_metrics)
        (λ t h. h) resume_each-IsOpen

-- What happens inside of the span of Execute.
module _ {S : Type 0} (saga : Orchestrator S) (has_metrics : Bool) (outer : List SpanName)
    ⦃u : Uuids⦄ (input : SagaInput) where
  abbrev inside : List SpanName
  inside = saga_execute ∷ outer

  failed-IsOpen :
      (saga_id : ℕ) (reason : Reason)
      → Keeps (IsOpen inside) (failed_traced saga has_metrics input saga_id reason)
  unfolding record_result
  failed-IsOpen saga_id reason t h = by_annotation saga_execute status_error h

  compensated-IsOpen :
      (saga_id : ℕ) (reservation_id : String) (reason : Reason)
      → Keeps
          (IsOpen inside)
          (compensated_traced saga has_metrics input saga_id reservation_id reason)
  compensated-IsOpen saga_id reservation_id reason =
      >>=-Keeps (IsOpen inside) (compensate_reserve_traced saga has_metrics reservation_id)
        (λ _. failed_traced saga has_metrics input saga_id reason)
        (compensate_reserve-IsOpen saga has_metrics inside reservation_id)
        (λ a. failed-IsOpen saga_id reason)

  confirmed-IsOpen :
      (saga_id : ℕ) (reservation_id : String) (r : Result Code Unit)
      → Keeps (IsOpen inside) (confirmed_traced saga has_metrics input saga_id reservation_id r)
  unfolding confirmed_traced update_order_status complete_saga record_result
  confirmed-IsOpen saga_id reservation_id (ok a) t h = by_annotation saga_execute status_ok h
  confirmed-IsOpen saga_id reservation_id (err e) t h =
      compensated-IsOpen saga_id reservation_id confirm_failed t h

  paid-IsOpen :
      (saga_id : ℕ) (reservation_id : String) (r : Result Code Unit)
      → Keeps (IsOpen inside) (paid_traced saga has_metrics input saga_id reservation_id r)
  unfolding paid_traced update_step update_order_status confirm_order_traced
  paid-IsOpen saga_id reservation_id (ok a) t h = confirmed-IsOpen saga_id reservation_id _ _ (
      spanned_call-IsOpen inside saga_confirm_order (pure tt)
        (saga.client.decrement_stock reservation_id) (λ t h. h) _
        (by_annotation saga_execute payment_processed h))
  paid-IsOpen saga_id reservation_id (err e) t h =
      compensated-IsOpen saga_id reservation_id payment_failed t h

  reserved-IsOpen :
      (saga_id : ℕ) (r : Result Code String)
      → Keeps (IsOpen inside) (reserved_traced saga has_metrics input saga_id r)
  unfolding reserved_traced set_reservation_id update_step update_order_status
  reserved-IsOpen saga_id (ok reservation_id) t h =
      paid-IsOpen saga_id reservation_id _ _ (by_annotation saga_execute inventory_reserved h)
  reserved-IsOpen saga_id (err e) t h = failed-IsOpen saga_id reserve_failed t h

  run_steps-IsOpen :
      (saga_id : ℕ) → Keeps (IsOpen inside) (run_steps_traced saga has_metrics input saga_id)
  unfolding run_steps_traced update_step update_order_status reserve_inventory_traced
  run_steps-IsOpen saga_id t h = reserved-IsOpen saga_id _ _ (
      spanned_call-IsOpen inside saga_reserve_inventory
        (report (annotated saga_reserve_inventory reservation_id_set))
        (saga.client.reserve_stock (u.text input.order_id) input.items)
        (λ t. by_annotation saga_reserve_inventory reservation_id_set) _ h)

  or_error-IsOpen :
      {A : Type 0} (f : A → Exec (Traced S) SagaError Unit) (r : Result SagaError A)
      → ((a : A) → Keeps (IsOpen inside) (f a))
      → Keeps (IsOpen inside) (or_error saga has_metrics f r)
  unfolding record_result
  or_error-IsOpen f (ok a) h t k = h a t k
  or_error-IsOpen f (err e) h t k = k

  unless_existing-IsOpen :
      (existing : Option SagaState)
      → Keeps (IsOpen inside) (unless_existing_traced saga has_metrics input existing)
  unless_existing-IsOpen (some existing) t h = h
  unless_existing-IsOpen none t h =
      or_error-IsOpen (run_steps_traced saga has_metrics input) _ run_steps-IsOpen _ h

  -- Execute ends each span that it starts, on every path, before the span that it was started in,
  -- and annotates only the innermost open one; the spans that were open stay open.
  pub execute_traced-IsOpen : Keeps (IsOpen outer) (execute_traced saga has_metrics input)
  unfolding execute_traced
  execute_traced-IsOpen =
      in_span-IsOpen outer saga_execute
        (attempt (effect (get_existing_saga input.order_id))
          (or_error saga has_metrics (unless_existing_traced saga has_metrics input)))
        λ t h.
          or_error-IsOpen (unless_existing_traced saga has_metrics input) _ unless_existing-IsOpen _
            h
