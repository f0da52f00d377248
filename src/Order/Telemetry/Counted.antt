-- ===== src/Order/Telemetry/Counted.antt =====
-- services/order/saga.go, recordResult: what Execute adds to the saga metrics, and that it agrees
-- with what Execute returns.
use micromart.Prelude.{
  ℕ, String, ◌≡◌, refl, arith, ◌∙◌, ap, if◌then◌else◌, Bool, true, false, Option, none, some, List,
  ◌∷◌,
}
use micromart.Prelude.Exec.{Result, ok, err, Exec, pure}
use micromart.Prelude.Raises.{OnError}
use micromart.Sql.{Uuids}
use micromart.Grpc.Status.{Code}
use micromart.Order.Entity.{SagaState, Reason, payment_failed, confirm_failed, reserve_failed}
use micromart.Order.Saga.{
  SagaInput, SagaError, check_existing, create_state, query_sagas, saga_failed, get_existing_saga,
  create_saga_state, update_step, set_reservation_id, update_order_status, complete_saga, fail,
  Orchestrator, attempt,
}
use micromart.Order.CalmCreation.{statement-Raises}
use micromart.Order.Telemetry.{
  SpanName, saga_compensate_reserve, saga_confirm_order, saga_reserve_inventory, annotated,
  reservation_id_set, spanned_call, report, ResultLabel, completed, failed, error, Traced,
  record_result, or_error, annotated_answer, compensate_reserve_traced, reserve_inventory_traced,
  confirm_order_traced, failed_traced, compensated_traced, confirmed_traced, paid_traced,
  reserved_traced, run_steps_traced, unless_existing_traced, execute_traced,
}

-- The label that tells how Execute ended.
abbrev pub label_of : {A : Type 0} → Result SagaError A → ResultLabel
label_of (ok a) = completed
label_of (err (saga_failed reason)) = failed
label_of (err check_existing) = error
label_of (err create_state) = error
label_of (err query_sagas) = error

-- The results after a call that ended with `r`, where there are metrics.
abbrev pub counted : {A : Type 0} → Bool → Result SagaError A → List ResultLabel → List ResultLabel
counted has_metrics r results = if has_metrics then label_of r ∷ results else results

-- Of a row that was found there is nothing to count: that saga is not run again.
abbrev pub counted_once :
    {A : Type 0}
    → Bool
    → Result SagaError (Option SagaState)
    → Result SagaError A
    → List ResultLabel
    → List ResultLabel
counted_once has_metrics (ok (some existing)) r results = results
counted_once has_metrics (ok none) r results = counted has_metrics r results
counted_once has_metrics (err e) r results = counted has_metrics r results

abbrev pub Counts : {S A : Type 0} → Bool → Exec (Traced S) SagaError A → Type 0
Counts has_metrics m = (t : Traced _) → (m t).1.results ≡ counted has_metrics (m t).0 t.results

-- The errors of a saga that has not begun.
abbrev is_early : SagaError → Bool
is_early (saga_failed reason) = false
is_early check_existing = true
is_early create_state = true
is_early query_sagas = true

module _ {S E A : Type 0} (name : SpanName) (otherwise : Exec (Traced S) E (Unit {0})) where
  annotated_answer-results :
      (r : Result E A) (t : Traced S)
      → (otherwise t).1.results ≡ t.results
      → (annotated_answer name otherwise r t).1.results ≡ t.results
  annotated_answer-results (ok a) t h = h
  annotated_answer-results (err e) t h = refl

  spanned_call-results :
      (call : Exec S E A)
      → ((t : Traced S) → (otherwise t).1.results ≡ t.results)
      → (t : Traced S) → (spanned_call name otherwise call t).1.results ≡ t.results
  spanned_call-results call h t = annotated_answer-results _ _ (h _)

-- A call that counts nothing, before what does.
attempt-Counts :
    {S E A B : Type 0} (has_metrics : Bool) (m : Exec (Traced S) E A)
    (f : Result E A → Exec (Traced S) SagaError B)
    → ((t : Traced S) → (m t).1.results ≡ t.results)
    → ((r : Result E A) → Counts has_metrics (f r))
    → Counts has_metrics (attempt m f)
attempt-Counts has_metrics m f h k t =
    k (m t).0 (m t).1 ∙ ap (counted has_metrics (f (m t).0 (m t).1).0) (h t)

module _ {S : Type 0} (saga : Orchestrator S) (has_metrics : Bool) ⦃u : Uuids⦄
    (input : SagaInput) where
  failed-Counts :
      (saga_id : ℕ) (reason : Reason)
      → Counts has_metrics (failed_traced saga has_metrics input saga_id reason)
  unfolding record_result fail
  failed-Counts saga_id reason t = refl

  compensated-Counts :
      (saga_id : ℕ) (reservation_id : String) (reason : Reason)
      → Counts has_metrics (compensated_traced saga has_metrics input saga_id reservation_id reason)
  unfolding compensate_reserve_traced record_result fail
  compensated-Counts saga_id String.[] reason t = refl
  compensated-Counts saga_id (String.◌∷◌ c r) reason t =
      ap (counted {A = Unit} has_metrics (err (saga_failed reason))) (
        spanned_call-results saga_compensate_reserve (pure tt)
          (saga.client.release_stock (String.◌∷◌ c r)) (λ t. refl) t)

  confirmed-Counts :
      (saga_id : ℕ) (reservation_id : String) (r : Result Code Unit)
      → Counts has_metrics (confirmed_traced saga has_metrics input saga_id reservation_id r)
  unfolding confirmed_traced update_order_status complete_saga record_result
  confirmed-Counts saga_id reservation_id (ok a) t = refl
  confirmed-Counts saga_id reservation_id (err e) t =
      compensated-Counts saga_id reservation_id confirm_failed t

  paid-Counts :
      (saga_id : ℕ) (reservation_id : String) (r : Result Code Unit)
      → Counts has_metrics (paid_traced saga has_metrics input saga_id reservation_id r)
  unfolding paid_traced update_step update_order_status confirm_order_traced
  paid-Counts saga_id reservation_id (ok a) t =
      attempt-Counts has_metrics (confirm_order_traced saga has_metrics reservation_id)
        (confirmed_traced saga has_metrics input saga_id reservation_id)
        (spanned_call-results saga_confirm_order (pure tt)
          (saga.client.decrement_stock reservation_id) (λ t. refl))
        (confirmed-Counts saga_id reservation_id) _
  paid-Counts saga_id reservation_id (err e) t =
      compensated-Counts saga_id reservation_id payment_failed t

  reserved-Counts :
      (saga_id : ℕ) (r : Result Code String)
      → Counts has_metrics (reserved_traced saga has_metrics input saga_id r)
  unfolding reserved_traced set_reservation_id update_step update_order_status
  reserved-Counts saga_id (ok reservation_id) t = paid-Counts saga_id reservation_id _ _
  reserved-Counts saga_id (err e) t = failed-Counts saga_id reserve_failed t

  run_steps-Counts :
      (saga_id : ℕ) → Counts has_metrics (run_steps_traced saga has_metrics input saga_id)
  unfolding run_steps_traced update_step update_order_status reserve_inventory_traced
  run_steps-Counts saga_id t =
      attempt-Counts has_metrics (reserve_inventory_traced saga has_metrics input)
        (reserved_traced saga has_metrics input saga_id)
        (spanned_call-results saga_reserve_inventory
          (report (annotated saga_reserve_inventory reservation_id_set))
          (saga.client.reserve_stock (u.text input.order_id) input.items) (λ t. refl))
        (reserved-Counts saga_id) _

  early_lem :
      (x : SagaError) (t : Traced S)
      → is_early x ≡ true
      → (record_result {S = S} {E = SagaError} has_metrics error t).1.results
        ≡ counted {A = Unit} has_metrics (err x) t.results
  unfolding record_result
  early_lem check_existing t e = refl
  early_lem create_state t e = refl
  early_lem query_sagas t e = refl
  early_lem (saga_failed reason) t e = absurd (ground arith)

  or_error-Counts :
      {A : Type 0} (f : A → Exec (Traced S) SagaError Unit) (r : Result SagaError A)
      → OnError is_early r
      → ((a : A) → Counts has_metrics (f a))
      → Counts has_metrics (or_error saga has_metrics f r)
  or_error-Counts f (ok a) e h t = h a t
  or_error-Counts f (err x) e h t = early_lem x t e

  unless_existing-results :
      (r : Result SagaError (Option SagaState)) (t : Traced S)
      → OnError is_early r
      → let execution =
          or_error saga has_metrics (unless_existing_traced saga has_metrics input) r t in
        execution.1.results ≡ counted_once has_metrics r execution.0 t.results
  unfolding create_saga_state
  unless_existing-results (ok (some existing)) t e = refl
  unless_existing-results (ok none) t e =
      or_error-Counts (run_steps_traced saga has_metrics input) _
        (statement-Raises is_early create_state _ refl t.system.db) run_steps-Counts _
  unless_existing-results (err x) t e = early_lem x t e

  -- What Execute adds to the saga metrics is one result, where there are metrics and the order has
  -- no saga yet, and it is the label of what Execute returns: completed for no error, failed for
  -- a step that failed, error for a saga that could not be looked up or created.
  pub execute_traced-results :
      (t : Traced S)
      → (execute_traced saga has_metrics input t).1.results
        ≡ counted_once has_metrics
            (get_existing_saga input.order_id t.system).0
            (execute_traced saga has_metrics input t).0
            t.results
  unfolding execute_traced get_existing_saga
  execute_traced-results t =
      unless_existing-results _ _ (statement-Raises is_early check_existing _ refl t.system.db)
