-- ===== src/Order/Cancellation/AfterSaga.antt =====
-- services/order/order_repository.go, CancelOrder, after Execute of services/order/saga.go.
use micromart.Prelude.{ℕ, String, ◌≡◌, refl, some, List, filter, ◌==◌}
use micromart.Prelude.Exec.{Result, ok, err}
use micromart.Sql.{Uuids, calm}
use micromart.Sql.Keys.{find_key}
use micromart.Order.Entity.{Order, OrderItem, OrderStatus, Tables}
use micromart.Order.System.{OrderEvent}
use micromart.Order.Saga.{
  Orchestrator, SagaInput, SagaError, saga_failed, check_existing, create_state, query_sagas,
  run_steps,
}
use micromart.Order.Repository.{RepositoryError, wrong_status}
use micromart.Order.Queries.{set_status, cancel_order}
use micromart.Order.SagaOutcome.{Settled, Present, at, run_steps-Settled}
use micromart.Order.Cancellation.{cancelling, cancelled_tables, cancel_order-calm}

-- What a cancellation at time `m` is to answer once the order's saga has ended so: an order that was
-- paid and taken out of stock stays; one whose saga failed is cancelled and returned with its items.
abbrev pub CancelsAfter :
    ℕ
    → ℕ
    → Result SagaError Unit
    → Tables
    → Result RepositoryError (Order × List OrderItem)
    → Tables
    → Type 0
CancelsAfter k m (ok _) t r t' = (r ≡ err wrong_status) × (t' ≡ t)
CancelsAfter k m (err (saga_failed why)) t r t' =
    (o : Order) × (find_key (λ o. o.id) k t.orders ≡ some o)
    × (r ≡ ok (set_status OrderStatus.cancelled m o, filter (λ i. i.order_id == k) t.order_items))
    × (t' ≡ cancelled_tables k m t)
CancelsAfter k m (err check_existing) t r t' = ⊥
CancelsAfter k m (err create_state) t r t' = ⊥
CancelsAfter k m (err query_sagas) t r t' = ⊥

cancelling-CancelsAfter :
    (k g m : ℕ) (x : Result SagaError Unit) (t : Tables)
    → Settled k g x t
    → let (r, t') = cancelling (find_key (λ o. o.id) k t.orders) k m t in CancelsAfter k m x t r t'
cancelling-CancelsAfter k g m (ok _) t ((o, found, status), _) = rw (found, status) (refl, refl)
cancelling-CancelsAfter k g m (err (saga_failed why)) t ((o, found, status), _) =
    (o, found, rw (found, status) refl, rw (found, status) refl)
cancelling-CancelsAfter k g m (err check_existing) t h = elim h [ ]
cancelling-CancelsAfter k g m (err create_state) t h = elim h [ ]
cancelling-CancelsAfter k g m (err query_sagas) t h = elim h [ ]

-- With databases that answer, and where the order and the row of its saga are there: once the saga
-- has returned, an order that it completed can no longer be cancelled, and nothing changes; and an
-- order that it failed is cancelled, and returned with its items.
pub cancel_order-run_steps :
    {S : Type 0} (saga : Orchestrator S) ⦃u : Uuids⦄ (input : SagaInput) (g : ℕ) (id : String)
    (us us' : ℕ → ℕ) (n m : ℕ) (t : Tables) (r : S) (ev : List OrderEvent)
    → u.parse id ≡ some input.order_id
    → Present saga input g us n t
    → let (x, s) = run_steps saga input g (at t us n r ev) in
      let (answer, w) = cancel_order id (calm s.db.tables us' m) in
      CancelsAfter input.order_id m x s.db.tables answer w.tables
cancel_order-run_steps saga input g id us us' n m t r ev pk there =
    let (x, s) = run_steps saga input g (at t us n r ev) in
    rw (cancel_order-calm id input.order_id pk s.db.tables us' m) (
      cancelling-CancelsAfter input.order_id g m x s.db.tables
        (run_steps-Settled saga input g us n t r ev there))
