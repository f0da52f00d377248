-- ===== src/Order/SagaOutcome.antt =====
-- How a saga leaves its order and its own row when its database answers every call.
use mathlib.Core.Path.{subst}
use micromart.Prelude.{
  ℕ, String, ◌≡◌, refl, sym, inl, inr, some, List, ◌==◌, Bool-cases, Option-cases,
}
use micromart.Prelude.Text.{is_empty}
use micromart.Prelude.Exec.{Result, ok, err, >>=-ok}
use micromart.Sql.{Uuids, calm, statement}
use micromart.Sql.Tables.{update_all}
use micromart.Sql.Keys.{find_key, find_key-update_all}
use micromart.Grpc.Status.{Code}
use micromart.Order.Entity.{
  OrderStatus, SagaStatus, Order, SagaState, Tables, confirm_order, process_payment,
  reserve_inventory, Reason, reserve_failed, payment_failed, confirm_failed,
}
use micromart.Order.SagaRows.{update_saga, update_order}
use micromart.Order.System.{System, OrderEvent}
use micromart.Order.Saga.{
  Orchestrator, SagaInput, SagaError, check_existing, create_state, query_sagas, saga_failed,
  compensate_reserve, confirmed, paid, request_payment, reserved, run_steps, update_step,
  update_order_status, set_reservation_id, complete_saga, fail,
}

-- Order `k` is there, with a status.
abbrev pub OrderIs : ℕ → OrderStatus → List Order → Type 0
OrderIs k st os = (o : Order) × (find_key (λ o. o.id) k os ≡ some o) × (o.status ≡ st)

abbrev pub SagaIs : ℕ → SagaStatus → List SagaState → Type 0
SagaIs g st ss = (s : SagaState) × (find_key (λ s. s.id) g ss ≡ some s) × (s.status ≡ st)

order_written :
    (k now : ℕ) (st st' : OrderStatus) (os : List Order)
    → OrderIs k st os
    → OrderIs k st'
        (update_all (λ o. o.id == k) (λ o. record o { status = st'; updated_at = now }) os)
order_written k now st st' os (o, f, _) = (
  record o { status = st'; updated_at = now },
  find_key-update_all (λ o. o.id) (λ o. record o { status = st'; updated_at = now }) (λ _. refl) k
      os f,
  refl,
)

saga_written :
    (g now : ℕ) (set : SagaState → SagaState) (st st' : SagaStatus) (ss : List SagaState)
    → ((s : SagaState) → (set s).id ≡ s.id)
    → ((s : SagaState) → s.status ≡ st → (set s).status ≡ st')
    → SagaIs g st ss
    → SagaIs g st' (update_all (λ s. s.id == g) (λ s. record (set s) { updated_at = now }) ss)
saga_written g now set st st' ss keeps moves (s, f, e) = (
  record (set s) { updated_at = now },
  find_key-update_all (λ s. s.id) (λ s. record (set s) { updated_at = now }) keeps g ss f,
  moves s e,
)

-- The order and its saga agree with what the saga returned.
abbrev pub Settled : ℕ → ℕ → Result SagaError Unit → Tables → Type 0
Settled k g (ok _) t =
    OrderIs k OrderStatus.completed t.orders × SagaIs g SagaStatus.completed t.sagas
Settled k g (err (saga_failed r)) t =
    OrderIs k OrderStatus.failed t.orders × SagaIs g SagaStatus.failed t.sagas
Settled k g (err check_existing) t = ⊥
Settled k g (err create_state) t = ⊥
Settled k g (err query_sagas) t = ⊥

-- A database that answers, whose tables have the order and its saga.
abbrev pub at : {S : Type 0} → Tables → (ℕ → ℕ) → ℕ → S → List OrderEvent → System S
at t us n r ev = record { db = calm t us n; remote = r; events = ev }

module _ {S : Type 0} (saga : Orchestrator S) ⦃u : Uuids⦄ (input : SagaInput) (g : ℕ) (us : ℕ → ℕ)
    (n : ℕ) where
  fail-Settled :
      (why : Reason) (t : Tables) (r : S) (ev : List OrderEvent) {so : OrderStatus}
      {sg : SagaStatus}
      → OrderIs input.order_id so t.orders
      → SagaIs g sg t.sagas
      → let (x, s') = fail g input.order_id why (at t us n r ev) in
        Settled input.order_id g x s'.db.tables
  unfolding fail statement update_saga update_order
  fail-Settled why t r ev {so} {sg} o s = (
    order_written input.order_id n so OrderStatus.failed t.orders o,
    saga_written g n (λ s. record s { status = SagaStatus.failed; failure_reason = some why }) sg
        SagaStatus.failed t.sagas (λ _. refl) (λ _ _. refl) s,
  )

  confirmed-Settled :
      (id : String) (a : Result Code Unit) (t : Tables) (r : S) (ev : List OrderEvent)
      {so : OrderStatus} {sg : SagaStatus}
      → OrderIs input.order_id so t.orders
      → SagaIs g sg t.sagas
      → let (x, s') = confirmed saga input g id a (at t us n r ev) in
        Settled input.order_id g x s'.db.tables
  unfolding confirmed compensate_reserve update_order_status complete_saga statement update_saga
      update_order
  confirmed-Settled id (ok _) t r ev {so} {sg} o s = (
    order_written input.order_id n so OrderStatus.completed t.orders o,
    saga_written g n (λ s. record s { status = SagaStatus.completed }) sg SagaStatus.completed
        t.sagas (λ _. refl) (λ _ _. refl) s,
  )
  confirmed-Settled id (err e) t r ev o s = elim (Bool-cases (is_empty id)) [
    | inl no_id ↦ rw no_id (fail-Settled confirm_failed t r ev o s)
    | inr some_id ↦ rw some_id (fail-Settled confirm_failed t _ ev o s)
  ]

  paid-Settled :
      (id : String) (a : Result Code Unit) (t : Tables) (r : S) (ev : List OrderEvent)
      {so : OrderStatus} {sg : SagaStatus}
      → OrderIs input.order_id so t.orders
      → SagaIs g sg t.sagas
      → let (x, s') = paid saga input g id a (at t us n r ev) in
        Settled input.order_id g x s'.db.tables
  unfolding paid compensate_reserve update_order_status update_step statement update_saga
      update_order
  paid-Settled id (ok _) t r ev {so} {sg} o s =
      confirmed-Settled id _ _ _ ev
        (order_written input.order_id n so OrderStatus.confirming t.orders o)
        (saga_written g n (λ s. record s { current_step = confirm_order }) sg sg t.sagas (λ _. refl)
          (λ _ e. e) s)
  paid-Settled id (err e) t r ev o s = elim (Bool-cases (is_empty id)) [
    | inl no_id ↦ rw no_id (fail-Settled payment_failed t r ev o s)
    | inr some_id ↦ rw some_id (fail-Settled payment_failed t _ ev o s)
  ]

  -- The order and its saga are there, in some status.
  abbrev pub Present : Tables → Type 0
  Present t =
      ((st : OrderStatus) × OrderIs input.order_id st t.orders)
      × ((st : SagaStatus) × SagaIs g st t.sagas)

  set_reservation_id-Present :
      (id : String) (t : Tables) (r : S) (ev : List OrderEvent)
      → Present t
      → (t' : Tables) × (set_reservation_id g id (at t us n r ev) ≡ (ok tt, at t' us n r ev))
        × Present t'
  unfolding set_reservation_id statement update_saga
  set_reservation_id-Present id t r ev (o, (st, s)) = elim (Option-cases (u.parse id)) [
    | inl bad ↦ (t, rw bad, (o, (st, s)))
    | inr (k, good) ↦ (
      record t {
        sagas =
            update_all (λ s. s.id == g) (λ s. record s { reservation_id = some k; updated_at = n })
              t.sagas;
      },
      rw good,
      (
        o,
        (
          st,
          saga_written g n (λ s. record s { reservation_id = some k }) st st t.sagas (λ _. refl)
              (λ _ e. e) s,
        ),
      ),
    )
  ]

  request_payment-Settled :
      (id : String) (t : Tables) (r : S) (ev : List OrderEvent)
      → Present t
      → let (x, s') = request_payment saga input g id (at t us n r ev) in
        Settled input.order_id g x s'.db.tables
  unfolding request_payment update_order_status update_step statement update_saga update_order
  request_payment-Settled id t r ev ((so, o), (sg, s)) =
      paid-Settled id _ _ _ ev (order_written input.order_id n so OrderStatus.paying t.orders o) (
        saga_written g n (λ s. record s { current_step = process_payment }) sg sg t.sagas
          (λ _. refl) (λ _ e. e) s)

  reserved-Settled :
      (a : Result Code String) (t : Tables) (r : S) (ev : List OrderEvent)
      → Present t
      → let (x, s') = reserved saga input g a (at t us n r ev) in
        Settled input.order_id g x s'.db.tables
  unfolding reserved
  reserved-Settled (ok id) t r ev p =
      let (t', e, p') = set_reservation_id-Present id t r ev p in
      subst (λ (z : Result SagaError Unit × System S). Settled input.order_id g z.0 z.1.db.tables)
        (sym (
          >>=-ok (set_reservation_id g id) (λ _. request_payment saga input g id) (at t us n r ev)
            e))
        (request_payment-Settled id t' r ev p')
  reserved-Settled (err e) t r ev ((so, o), (sg, s)) = fail-Settled reserve_failed t r ev o s

  -- With a database that answers, and where its order and its row are there, a saga leaves the two
  -- in one of two states: both completed if it returned no error, both failed if it did.
  pub run_steps-Settled :
      (t : Tables) (r : S) (ev : List OrderEvent)
      → Present t
      → let (x, s') = run_steps saga input g (at t us n r ev) in
        Settled input.order_id g x s'.db.tables
  unfolding run_steps update_order_status update_step statement update_saga update_order
  run_steps-Settled t r ev ((so, o), (sg, s)) = reserved-Settled _ _ _ ev (
    (_, order_written input.order_id n so OrderStatus.reserving t.orders o),
    (
      _,
      saga_written g n (λ s. record s { current_step = reserve_inventory }) sg sg t.sagas
          (λ _. refl) (λ _ e. e) s,
    ),
  )
