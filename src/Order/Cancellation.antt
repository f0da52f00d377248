-- ===== src/Order/Cancellation.antt =====
-- What CancelOrder does on each of its branches, and what a second one does.
pub mod AfterSaga
use micromart.Prelude.{
  ℕ, String, ◌≡◌, refl, ◌∙◌, inl, inr, Option, none, some, List, ◌==◌, if◌then◌else◌, filter,
  Bool-cases, Option-cases, Bool, true, false, ap,
}
use micromart.Prelude.Exec.{Result, ok, err, ◌>>=◌, pure, >>=-ok, >>=-err}
use micromart.Sql.{Uuids, calm}
use micromart.Sql.Laws.{statement-calm}
use micromart.Sql.Tables.{update_all}
use micromart.Sql.Keys.{find_key, find_key-update_all}
use micromart.Order.Entity.{
  Order, OrderItem, OrderStatus, pending, reserving, paying, confirming, completed, failed,
  cancelled, Tables,
}
use micromart.Order.Repository.{RepositoryError, not_found, wrong_status, other}
use micromart.Order.Queries.{
  can_cancel, set_status, one_row, select_order, update_returning, items_of, with_items,
  cancel_found, cancel_order,
}

-- What a cancellation of order `k` is to do: an order that is pending or failed becomes cancelled,
-- and any other stays as it is.
abbrev pub cancelled_tables : ℕ → ℕ → Tables → Tables
cancelled_tables k n t = record t {
  orders = update_all (λ o. o.id == k) (set_status cancelled n) t.orders;
}

-- The statuses that are to allow a cancellation: before a saga has begun, and after one has failed.
abbrev pub may_be_cancelled : OrderStatus → Bool
may_be_cancelled pending = true
may_be_cancelled reserving = false
may_be_cancelled paying = false
may_be_cancelled confirming = false
may_be_cancelled completed = false
may_be_cancelled failed = true
may_be_cancelled cancelled = false

abbrev cancel_known :
    ℕ → ℕ → Order → Tables → Result RepositoryError (Order × List OrderItem) × Tables
cancel_known k n o t =
    if may_be_cancelled o.status
    then (
      ok (set_status cancelled n o, filter (λ i. i.order_id == k) t.order_items),
      cancelled_tables k n t,
    )
    else (err wrong_status, t)

abbrev pub cancelling :
    Option Order → ℕ → ℕ → Tables → Result RepositoryError (Order × List OrderItem) × Tables
cancelling none k n t = (err not_found, t)
cancelling (some o) k n t = cancel_known k n o t

module _ ⦃u : Uuids⦄ (id : String) (k : ℕ) (pk : u.parse id ≡ some k) (t : Tables) (us : ℕ → ℕ)
    (n : ℕ) where
  pub select_order-calm :
      {r : Option Order}
      → find_key (λ o. o.id) k t.orders ≡ r
      → select_order id (calm t us n) ≡ (ok r, calm t us n)
  unfolding select_order
  select_order-calm found = statement-calm other _ t us n (rw (pk, found) refl)

  update_returning-calm :
      {o : Order}
      → find_key (λ o. o.id) k t.orders ≡ some o
      → update_returning cancelled id (calm t us n)
        ≡ (ok (some (set_status cancelled n o)), calm (cancelled_tables k n t) us n)
  unfolding update_returning
  update_returning-calm found = statement-calm other _ t us n (
      rw (pk, find_key-update_all (λ o. o.id) (set_status cancelled n) (λ _. refl) k t.orders found)
        refl)

  pub items_of-calm :
      (t : Tables)
      → items_of id (calm t us n) ≡ (ok (filter (λ i. i.order_id == k) t.order_items), calm t us n)
  unfolding items_of
  items_of-calm t = statement-calm other _ t us n (rw pk refl)

  cancel_found-calm :
      (o : Order)
      → find_key (λ o. o.id) k t.orders ≡ some o
      → cancel_found id o (calm t us n) ≡ (let (r, t') = cancel_known k n o t in (r, calm t' us n))
  cancel_found-calm o found = elim (Bool-cases (can_cancel o.status)) [
    | inl may ↦ rw may (
        >>=-ok (update_returning cancelled id >>= one_row other) (with_items id) (calm t us n)
          {a = set_status cancelled n o} {t = calm (cancelled_tables k n t) us n}
          (>>=-ok (update_returning cancelled id) (one_row other) (calm t us n)
            (update_returning-calm found))
        ∙ >>=-ok (items_of id) (λ items. pure (set_status cancelled n o, items))
            (calm (cancelled_tables k n t) us n) (items_of-calm (cancelled_tables k n t)))
    | inr may_not ↦ rw may_not refl
  ]

  -- CancelOrder with a database that answers: what `cancelling` says of the row that the id finds.
  pub cancel_order-calm :
      let (r, t') = cancelling (find_key (λ o. o.id) k t.orders) k n t in
      cancel_order id (calm t us n) ≡ (r, calm t' us n)
  unfolding cancel_order
  cancel_order-calm = elim (Option-cases (find_key (λ o. o.id) k t.orders)) [
    | inl missing ↦
        >>=-err (select_order id >>= one_row not_found) (cancel_found id) (calm t us n)
          (>>=-ok (select_order id) (one_row not_found) (calm t us n) (select_order-calm missing))
        ∙ rw missing refl
    | inr (o, found) ↦
        >>=-ok (select_order id >>= one_row not_found) (cancel_found id) (calm t us n)
          (>>=-ok (select_order id) (one_row not_found) (calm t us n) (select_order-calm found))
        ∙ cancel_found-calm o found
        ∙ rw found refl
  ]

-- The error of a cancellation that follows another of the same order.
abbrev pub refusal : Option Order → RepositoryError
refusal none = not_found
refusal (some o) = wrong_status

cancelling_again :
    (r : Option Order) (k n m : ℕ) (t : Tables)
    → find_key (λ o. o.id) k t.orders ≡ r
    → let t' = (cancelling r k n t).1 in
      cancelling (find_key (λ o. o.id) k t'.orders) k m t' ≡ (err (refusal r), t')
cancelling_again none k n m t found = rw found refl
cancelling_again (some o) k n m t found = elim (Bool-cases (may_be_cancelled o.status)) [
  | inl may ↦
      rw
        (may, find_key-update_all (λ o. o.id) (set_status cancelled n) (λ _. refl) k t.orders found)
        refl
  | inr may_not ↦ rw (may_not, found, may_not) refl
]

-- CancelOrder, with a database that answers, says not found of an order that is not there, changes
-- one that is pending or failed to cancelled and returns it with its items, and refuses every other
-- without changing anything; and a second cancellation of the same order, whenever it comes, is an
-- error that changes nothing: not found, or refused.
pub cancel_order_twice :
    ⦃u : Uuids⦄ (id : String) (k : ℕ)
    → u.parse id ≡ some k
    → (t : Tables) (us us' : ℕ → ℕ) (n m : ℕ)
    → let found = find_key (λ o. o.id) k t.orders in
      let (r, t') = cancelling found k n t in
      (cancel_order id (calm t us n) ≡ (r, calm t' us n))
      × (cancel_order id (calm t' us' m) ≡ (err (refusal found), calm t' us' m))
cancel_order_twice id k pk t us us' n m =
    let found = find_key (λ o. o.id) k t.orders in
    let t' = (cancelling found k n t).1 in
    (
      cancel_order-calm id k pk t us n,
      cancel_order-calm id k pk t' us' m
          ∙ ap
              (λ (w : Result RepositoryError (Order × List OrderItem) × Tables).
                (w.0, calm w.1 us' m))
              (cancelling_again found k n m t refl),
    )
