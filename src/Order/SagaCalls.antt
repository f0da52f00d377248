-- ===== src/Order/SagaCalls.antt =====
-- What a saga does to the other services, told without its database.
use micromart.Prelude.{ℕ, String, ◌≡◌, refl, inl, inr, if◌then◌else◌, Bool-cases}
use micromart.Prelude.Text.{is_empty}
use micromart.Prelude.Exec.{Result, ok, err}
use micromart.Sql.{Uuids}
use micromart.Grpc.Status.{Code}
use micromart.Order.Entity.{reserve_failed, payment_failed, confirm_failed}
use micromart.Order.System.{System}
use micromart.Order.Saga.{
  Orchestrator, SagaInput, SagaError, saga_failed, compensate_reserve, confirmed, paid,
  request_payment, reserved, run_steps, update_step, update_order_status, set_reservation_id,
  complete_saga, fail,
}

module _ {S : Type 0} (saga : Orchestrator S) ⦃u : Uuids⦄ where
  -- The reservation is given back, if there is one.
  abbrev undo : String → S → S
  undo r s = if is_empty r then s else (saga.client.release_stock r s).1

  abbrev pub after_confirm : String → Result Code Unit × S → Result SagaError Unit × S
  after_confirm r (ok _, s) = (ok tt, s)
  after_confirm r (err e, s) = (err (saga_failed confirm_failed), undo r s)

  abbrev pub after_payment : String → Result Code Unit × S → Result SagaError Unit × S
  after_payment r (ok _, s) = after_confirm r (saga.client.decrement_stock r s)
  after_payment r (err e, s) = (err (saga_failed payment_failed), undo r s)

  abbrev after_reserve : String → Result Code String × S → Result SagaError Unit × S
  after_reserve order (ok r, s) = after_payment r (saga.process_payment order s)
  after_reserve order (err e, s) = (err (saga_failed reserve_failed), s)

  -- Reserve, pay, decrement; a failure of one of the last two is followed by a release.
  abbrev pub saga_calls : SagaInput → S → Result SagaError Unit × S
  saga_calls input s =
      after_reserve (u.text input.order_id)
        (saga.client.reserve_stock (u.text input.order_id) input.items s)

  abbrev seen : Result SagaError Unit × System S → Result SagaError Unit × S
  seen (x, s) = (x, s.remote)

  module _ (input : SagaInput) (saga_id : ℕ) where
    confirmed-calls :
        (r : String) (a : Result Code Unit) (s : System S)
        → seen (confirmed saga input saga_id r a s) ≡ after_confirm r (a, s.remote)
    unfolding confirmed compensate_reserve fail update_order_status complete_saga
    confirmed-calls r (ok _) s = refl
    confirmed-calls r (err e) s = elim (Bool-cases (is_empty r)) [
      | inl no_id ↦ rw no_id
      | inr some_id ↦ rw some_id
    ]

    paid-calls :
        (r : String) (a : Result Code Unit) (s : System S)
        → seen (paid saga input saga_id r a s) ≡ after_payment r (a, s.remote)
    unfolding paid compensate_reserve fail update_order_status update_step
    paid-calls r (ok _) s = confirmed-calls r _ _
    paid-calls r (err e) s = elim (Bool-cases (is_empty r)) [
      | inl no_id ↦ rw no_id
      | inr some_id ↦ rw some_id
    ]

    reserved-calls :
        (a : Result Code String) (s : System S)
        → seen (reserved saga input saga_id a s)
          ≡ after_reserve (u.text input.order_id) (a, s.remote)
    unfolding reserved request_payment fail update_order_status update_step set_reservation_id
    reserved-calls (ok r) s = paid-calls r _ _
    reserved-calls (err e) s = refl

    -- Whatever becomes of the writes to its own database, what a saga returns and what it does to
    -- the other services is what `saga_calls` says: reserve, pay, decrement, and a release if the
    -- payment or the decrement fails.
    pub run_steps-calls :
        (s : System S)
        → let (x, s') = run_steps saga input saga_id s in (x, s'.remote) ≡ saga_calls input s.remote
    unfolding run_steps update_order_status update_step
    run_steps-calls s = reserved-calls _ _
