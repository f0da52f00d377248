-- ===== src/Order/Resumed.antt =====
-- services/order/saga.go, Resume: what the start of the order service does with the sagas that a
-- crash has interrupted.
pub mod Stock
use mathlib.Core.Path.{subst}
use micromart.Prelude.{
  ℕ, ◌≡◌, refl, ◌∙◌, sym, Bool, true, false, ◌&&◌, ◌||◌, not, Option, none, some, List, [], ◌∷◌,
  filter, ◌==◌, ==_refl, Bool-cases, inl, inr, All, arith,
}
use micromart.Prelude.Exec.{ok, ◌>>◌, >>=-ok}
use micromart.Sql.{Uuids, statement}
use micromart.Sql.Tables.{update_all}
use micromart.Order.Entity.{OrderStatus, SagaStatus, Order, SagaState, Tables, interrupted}
use micromart.Order.SagaRows.{update_saga, update_order, is_in_progress}
use micromart.Order.System.{OrderEvent, ignored}
use micromart.Order.Saga.{
  Orchestrator, SagaError, resume, resume_each, compensate_reserve, compensate_valid, fail,
}
use micromart.Order.SagaOutcome.{at}

abbrev fail_saga : ℕ → SagaState → SagaState
fail_saga n s = record s {
  status = SagaStatus.failed;
  failure_reason = some interrupted;
  updated_at = n;
}

abbrev fail_order : ℕ → Order → Order
fail_order n o = record o { status = OrderStatus.failed; updated_at = n }

-- The tables once one saga, and once each of a list, is marked as failed with its order.
abbrev one_failed : ℕ → SagaState → Tables → Tables
one_failed n row t = record t {
  orders = update_all (λ o. o.id == row.order_id) (fail_order n) t.orders;
  sagas = update_all (λ s. s.id == row.id) (fail_saga n) t.sagas;
}

abbrev all_failed : ℕ → List SagaState → Tables → Tables
all_failed n [] t = t
all_failed n (row ∷ rows) t = all_failed n rows (one_failed n row t)

-- Whether one of the rows has this id.
abbrev has_id : List SagaState → ℕ → Bool
has_id [] k = false
has_id (row ∷ rows) k = (k == row.id) || has_id rows k

-- Every saga that is in progress is one of the rows.
abbrev Listed : List SagaState → List SagaState → Type 0
Listed rows ss = All (λ s. (is_in_progress s.status && not (has_id rows s.id)) ≡ false) ss

Listed-cons : (row : SagaState) (rows ss : List SagaState) → Listed rows ss → Listed (row ∷ rows) ss
Listed-cons row rows [] h = tt
Listed-cons row rows (s ∷ ss) (h, hs) = (ground (arith, h), Listed-cons row rows ss hs)

Listed-filter : (ss : List SagaState) → Listed (filter (λ s. is_in_progress s.status) ss) ss
Listed-filter [] = tt
Listed-filter (s ∷ ss) = elim (Bool-cases (is_in_progress s.status)) [
  | inl open_saga ↦
      let rows = filter (λ s. is_in_progress s.status) ss in
      let kept : filter (λ s. is_in_progress s.status) (s ∷ ss) ≡ s ∷ rows = rw open_saga refl in
      subst (λ (rows : List SagaState). Listed rows (s ∷ ss)) (sym kept)
        (rw (open_saga, ==_refl s.id) refl, Listed-cons s rows ss (Listed-filter ss))
  | inr closed ↦
      let rows = filter (λ s. is_in_progress s.status) ss in
      let kept : filter (λ s. is_in_progress s.status) (s ∷ ss) ≡ rows = rw closed refl in
      subst (λ (rows : List SagaState). Listed rows (s ∷ ss)) (sym kept)
        (rw closed refl, Listed-filter ss)
]

Listed-update :
    (n : ℕ) (row : SagaState) (rows ss : List SagaState)
    → Listed (row ∷ rows) ss
    → Listed rows (update_all (λ s. s.id == row.id) (fail_saga n) ss)
Listed-update n row rows [] h = tt
Listed-update n row rows (s ∷ ss) (h, hs) = elim (Bool-cases (s.id == row.id)) [
  | inl same ↦ rw same (refl, Listed-update n row rows ss hs)
  | inr other ↦ rw other (ground (arith, h, other), Listed-update n row rows ss hs)
]

Listed-nil : (ss : List SagaState) → Listed [] ss → filter (λ s. is_in_progress s.status) ss ≡ []
Listed-nil [] h = refl
Listed-nil (s ∷ ss) (h, hs) =
    let closed : is_in_progress s.status ≡ false = ground (arith, h) in rw closed (Listed-nil ss hs)

none_in_progress :
    (n : ℕ) (rows : List SagaState) (t : Tables)
    → Listed rows t.sagas
    → filter (λ s. is_in_progress s.status) (all_failed n rows t).sagas ≡ []
none_in_progress n [] t h = Listed-nil t.sagas h
none_in_progress n (row ∷ rows) t h =
    none_in_progress n rows (one_failed n row t) (Listed-update n row rows t.sagas h)

-- The rows of order `k` are marked as failed.
abbrev pub FailedOrder : ℕ → List Order → Type 0
FailedOrder k os = All (λ o. (o.id == k) ≡ true → o.status ≡ OrderStatus.failed) os

FailedOrder-keeps :
    (n k j : ℕ) (os : List Order)
    → FailedOrder k os
    → FailedOrder k (update_all (λ o. o.id == j) (fail_order n) os)
FailedOrder-keeps n k j [] h = tt
FailedOrder-keeps n k j (o ∷ os) (h, hs) = elim (Bool-cases (o.id == j)) [
  | inl same ↦ rw same (λ _. refl, FailedOrder-keeps n k j os hs)
  | inr other ↦ rw other (h, FailedOrder-keeps n k j os hs)
]

update_all-FailedOrder :
    (n k : ℕ) (os : List Order) → FailedOrder k (update_all (λ o. o.id == k) (fail_order n) os)
update_all-FailedOrder n k [] = tt
update_all-FailedOrder n k (o ∷ os) = elim (Bool-cases (o.id == k)) [
  | inl same ↦ rw same (λ _. refl, update_all-FailedOrder n k os)
  | inr other ↦
      rw other (λ same. absurd (ground (arith, other, same)), update_all-FailedOrder n k os)
]

all_failed-FailedOrder :
    (n k : ℕ) (rows : List SagaState) (t : Tables)
    → FailedOrder k t.orders
    → FailedOrder k (all_failed n rows t).orders
all_failed-FailedOrder n k [] t h = h
all_failed-FailedOrder n k (row ∷ rows) t h =
    all_failed-FailedOrder n k rows (one_failed n row t)
      (FailedOrder-keeps n k row.order_id t.orders h)

orders_failed :
    (n : ℕ) (rows : List SagaState) (t : Tables)
    → All (λ row. FailedOrder row.order_id (all_failed n rows t).orders) rows
orders_failed n [] t = tt
orders_failed n (row ∷ rows) t = (
  all_failed-FailedOrder n row.order_id rows (one_failed n row t)
      (update_all-FailedOrder n row.order_id t.orders),
  orders_failed n rows (one_failed n row t),
)

module _ {S : Type 0} (saga : Orchestrator S) ⦃u : Uuids⦄ where
  -- One call of ReleaseStock after another for the reservations of the sagas, whatever they answer.
  abbrev pub release_of : Option ℕ → S → S
  release_of none r = r
  release_of (some k) r = (saga.client.release_stock (u.text k) r).1

  abbrev pub release_calls : List SagaState → S → S
  release_calls [] r = r
  release_calls (row ∷ rows) r = release_calls rows (release_of row.reservation_id r)

  compensate_valid-at :
      (id : Option ℕ) (t : Tables) (us : ℕ → ℕ) (n : ℕ) (r : S) (ev : List OrderEvent)
      → compensate_valid saga id (at t us n r ev) ≡ (ok tt, at t us n (release_of id r) ev)
  unfolding compensate_reserve
  compensate_valid-at none t us n r ev = refl
  compensate_valid-at (some k) t us n r ev = rw (u.is_empty-text k) refl

  resume_each-at :
      (rows : List SagaState) (t : Tables) (us : ℕ → ℕ) (n : ℕ) (r : S) (ev : List OrderEvent)
      → resume_each saga rows (at t us n r ev)
        ≡ (ok tt, at (all_failed n rows t) us n (release_calls rows r) ev)
  unfolding resume_each fail statement update_saga update_order
  resume_each-at [] t us n r ev = refl
  resume_each-at (row ∷ rows) t us n r ev =
      >>=-ok (compensate_valid saga row.reservation_id)
        (λ _.
          ignored {F = SagaError} (fail row.id row.order_id interrupted) >> resume_each saga rows)
        (at t us n r ev) (compensate_valid-at row.reservation_id t us n r ev)
      ∙ resume_each-at rows (one_failed n row t) us n (release_of row.reservation_id r) ev

  -- Resume with a database that answers: it returns no error; no saga is in progress any more; the
  -- orders of the sagas that were are marked as failed; and for each of these sagas that had stored a
  -- reservation, ReleaseStock has been called with it once, in the order of their rows, and nothing
  -- else was called. What these calls answer is ignored: a saga is closed also where the release of
  -- its reservation has failed.
  pub resume-calm :
      (t : Tables) (us : ℕ → ℕ) (n : ℕ) (r : S) (ev : List OrderEvent)
      → let rows = filter (λ s. is_in_progress s.status) t.sagas in
        let (x, s') = resume saga (at t us n r ev) in
        (x ≡ ok tt)
        × (filter (λ s. is_in_progress s.status) s'.db.tables.sagas ≡ [])
        × All (λ row. FailedOrder row.order_id s'.db.tables.orders) rows
        × (s'.remote ≡ release_calls rows r)
        × (s'.events ≡ ev)
  unfolding resume statement
  resume-calm t us n r ev =
      let rows = filter (λ s. is_in_progress s.status) t.sagas in
      rw (resume_each-at rows t us n r ev) (
        refl,
        none_in_progress n rows t (Listed-filter t.sagas),
        orders_failed n rows t,
        refl,
        refl,
      )
