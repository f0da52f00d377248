-- ===== src/Order/CalmCreation.antt =====
-- CreateOrder of the repository with a database that answers, and a key that is free.
use mathlib.Core.Path.{subst}
use micromart.Prelude.{
  ℕ, String, ◌≡◌, refl, sym, Bool, true, false, Option, none, some, List, [], ◌∷◌, Bool-cases, inl,
  inr, if◌then◌else◌,
}
use micromart.Prelude.Int.{ℤ, pos}
use micromart.Prelude.Text.{is_empty}
use micromart.Prelude.Exec.{Exec, ◌>>=◌, pure, raise, Result, ok, err, >>=-ok}
use micromart.Prelude.Raises.{OnError, Raises, >>=-Raises}
use micromart.Prelude.Keeps.{Keeps, >>=-Keeps, if-Keeps}
use micromart.Sql.{
  World, Outcome, done, failed, lost, Uuids, calm, statement, run_statement, transaction, finish,
  begun, next_outcome, answer, unanswered,
}
use micromart.Sql.Laws.{statement-calm}
use micromart.Sql.Tables.{and_then, check_positive, check_bigint}
use micromart.Sql.Keys.{find_key}
use micromart.Order.Entity.{Order, OrderItem, Tables}
use micromart.Order.Repository.{
  RepositoryError, CreateOrderItemParams, CreateOrderParams, other, duplicate_order, add_prices,
  null_string, insert_order, insert_order_item, insert_items, insert_all, create_new,
  existing_order, select_items, select_by_key, unless_duplicate, create_order, taken_key,
  find_by_key, put_order, put_item,
}
use micromart.Order.CalmSaga.{IsCalm, KeepsOutcomes, outcomes_after, statement-IsCalm}

module _ {T E A : Type 0} where
  finish-IsCalm :
      (before : T) (e : E) (x : Result E A × World T)
      → IsCalm x.1
      → IsCalm (finish before e (next_outcome x.1.outcomes) x).1
  finish-IsCalm before e (err e', w) h = h
  finish-IsCalm before e (ok a, w) h = rw h refl

  pub transaction-IsCalm :
      (e : E) (body : Exec (World T) E A) → Keeps IsCalm body → Keeps IsCalm (transaction e body)
  unfolding transaction
  transaction-IsCalm e body k w h =
      let w' = record w { outcomes = [] } in rw h (finish-IsCalm w.tables e (body w') (k w' refl))

  finish_lem :
      (test : E → Bool) (before : T) (e : E) (o : Outcome) (x : Result E A × World T)
      → test e ≡ true
      → OnError test x.0
      → OnError test (finish before e o x).0
  finish_lem test before e o (err e', w) h k = k
  finish_lem test before e done (ok a, w) h k = tt
  finish_lem test before e failed (ok a, w) h k = h
  finish_lem test before e lost (ok a, w) h k = h

  answer_lem :
      (test : E → Bool) (e : E) (w : World T) (r : Option (A × World T))
      → test e ≡ true
      → OnError test (answer e w r).0 × OnError test (unanswered e w r).0
  answer_lem test e w none h = (h, h)
  answer_lem test e w (some (a, w')) h = (tt, h)

  run_statement_lem :
      (test : E → Bool) (e : E) (o : Outcome) (body : World T → Option (A × World T)) (w : World T)
      → test e ≡ true
      → OnError test (run_statement o e body w).0
  run_statement_lem test e done body w h = (answer_lem test e w (body w) h).0
  run_statement_lem test e failed body w h = h
  run_statement_lem test e lost body w h = (answer_lem test e w (body w) h).1

  pub statement-Raises :
      (test : E → Bool) (e : E) (body : World T → Option (A × World T))
      → test e ≡ true
      → Raises test (statement e body)
  unfolding statement
  statement-Raises test e body h w =
      run_statement_lem test e (next_outcome w.outcomes) body (begun w) h

and_then_lem :
    {T A X : Type 0} (r : Option X) (f : X → World T → Option (A × World T))
    → ((x : X) → KeepsOutcomes (f x))
    → KeepsOutcomes (λ w. and_then r (λ x. f x w))
and_then_lem none f k w = refl
and_then_lem (some x) f k w = k x w

abbrev pub not_duplicate : RepositoryError → Bool
not_duplicate (duplicate_order o items) = false
not_duplicate _ = true

put_order_lem :
    (a b : Option Order) (order : Order) (w : World Tables)
    → outcomes_after w (put_order a b order w) ≡ w.outcomes
put_order_lem none none order w = refl
put_order_lem none (some o) order w = refl
put_order_lem (some o) b order w = refl

insert_order_lem :
    (customer : String) (total : ℤ) (key : Option String)
    → KeepsOutcomes (insert_order customer total key)
unfolding insert_order
insert_order_lem customer total key w =
    put_order_lem (find_key (λ o. o.id) (w.uuids 0) w.tables.orders) (taken_key key w.tables.orders)
      _ w

put_item_lem :
    (a : Option OrderItem) (b : Option Order) (item : OrderItem) (w : World Tables)
    → outcomes_after w (put_item a b item w) ≡ w.outcomes
put_item_lem none (some o) item w = refl
put_item_lem none none item w = refl
put_item_lem (some i) b item w = refl

module _ ⦃u : Uuids⦄ where
  insert_order_item_lem :
      (order_id : ℕ) (item : CreateOrderItemParams)
      → KeepsOutcomes (insert_order_item order_id item)
  unfolding insert_order_item
  insert_order_item_lem order_id item = and_then_lem (u.parse item.product_id) _ λ k.
      and_then_lem (check_positive item.quantity) _ λ q.
        and_then_lem (check_bigint item.unit_price_cents) _ λ c w.
          put_item_lem (find_key (λ i. i.id) (w.uuids 0) w.tables.order_items)
            (find_key (λ o. o.id) order_id w.tables.orders) _ w

  insert_items-IsCalm :
      (order_id : ℕ) (items : List CreateOrderItemParams)
      → Keeps IsCalm (insert_items order_id items)
  unfolding insert_items
  insert_items-IsCalm order_id [] = λ w h. h
  insert_items-IsCalm order_id (item ∷ items) =
      >>=-Keeps IsCalm (statement other (insert_order_item order_id item))
        (λ row. insert_items order_id items >>= λ rows. pure (row ∷ rows))
        (statement-IsCalm other (insert_order_item order_id item)
          (insert_order_item_lem order_id item))
        (λ row.
          >>=-Keeps IsCalm (insert_items order_id items) (λ rows. pure (row ∷ rows))
            (insert_items-IsCalm order_id items) (λ rows w h. h))

  insert_items-Raises :
      (order_id : ℕ) (items : List CreateOrderItemParams)
      → Raises not_duplicate (insert_items order_id items)
  unfolding insert_items
  insert_items-Raises order_id [] = λ w. tt
  insert_items-Raises order_id (item ∷ items) =
      >>=-Raises not_duplicate (statement other (insert_order_item order_id item))
        (λ row. insert_items order_id items >>= λ rows. pure (row ∷ rows))
        (statement-Raises not_duplicate other (insert_order_item order_id item) refl)
        (λ row.
          >>=-Raises not_duplicate (insert_items order_id items) (λ rows. pure (row ∷ rows))
            (insert_items-Raises order_id items) (λ rows w. tt))

  module _ (p : CreateOrderParams) where
    abbrev put_row : Exec (World Tables) RepositoryError Order
    put_row =
        statement other
          (insert_order p.customer_id (add_prices (pos 0) p.items) (null_string p.idempotency_key))

    create_new-IsCalm : Keeps IsCalm (create_new p)
    create_new-IsCalm =
        >>=-Keeps IsCalm put_row (insert_all p)
          (statement-IsCalm other _ (
            insert_order_lem p.customer_id (add_prices (pos 0) p.items)
              (null_string p.idempotency_key)))
          (λ order.
            >>=-Keeps IsCalm (insert_items order.id p.items) (λ items. pure (order, items))
              (insert_items-IsCalm order.id p.items) (λ items w h. h))

    create_new-Raises : Raises not_duplicate (create_new p)
    create_new-Raises =
        >>=-Raises not_duplicate put_row (insert_all p)
          (statement-Raises not_duplicate other _ refl)
          (λ order.
            >>=-Raises not_duplicate (insert_items order.id p.items) (λ items. pure (order, items))
              (insert_items-Raises order.id p.items) (λ items w. tt))

    existing_order-IsCalm : Keeps IsCalm (existing_order p.idempotency_key)
    unfolding select_by_key
    existing_order-IsCalm =
        if-Keeps IsCalm (is_empty p.idempotency_key) _ _ (λ w h. h)
          (statement-IsCalm other _ (λ w. refl))

    unless_duplicate-IsCalm : (found : Option Order) → Keeps IsCalm (unless_duplicate p found)
    unfolding select_items
    unless_duplicate-IsCalm none = create_new-IsCalm
    unless_duplicate-IsCalm (some o) =
        >>=-Keeps IsCalm (select_items o.id) (λ items. raise (duplicate_order o items))
          (statement-IsCalm other _ (λ w. refl)) (λ items w h. h)

    -- With a database that answers, it answers on after CreateOrder.
    pub create_order-IsCalm : Keeps IsCalm (create_order p)
    unfolding create_order
    create_order-IsCalm =
        transaction-IsCalm other (existing_order p.idempotency_key >>= unless_duplicate p) (
          >>=-Keeps IsCalm (existing_order p.idempotency_key) (unless_duplicate p)
            existing_order-IsCalm unless_duplicate-IsCalm)

    existing_order-none :
        (t : Tables) (us : ℕ → ℕ) (n : ℕ)
        → taken_key (null_string p.idempotency_key) t.orders ≡ none
        → existing_order p.idempotency_key (calm t us n) ≡ (ok none, calm t us n)
    unfolding select_by_key
    existing_order-none t us n free =
        let key = p.idempotency_key in
        elim (Bool-cases (is_empty key)) [
          | inl no_key ↦ rw no_key refl
          | inr some_key ↦
              let unused : find_by_key key t.orders ≡ none =
                subst (λ (b : Bool). taken_key (if b then none else some key) t.orders ≡ none)
                  some_key free in
              rw some_key (statement-calm other _ t us n (rw unused refl))
        ]

    -- A key that is free is no duplicate.
    pub create_order-Raises :
        (t : Tables) (us : ℕ → ℕ) (n : ℕ)
        → taken_key (null_string p.idempotency_key) t.orders ≡ none
        → OnError not_duplicate (create_order p (calm t us n)).0
    unfolding create_order transaction
    create_order-Raises t us n free =
        let body = existing_order p.idempotency_key >>= unless_duplicate p in
        let looked : body (calm t us n) ≡ create_new p (calm t us n) =
          >>=-ok (existing_order p.idempotency_key) (unless_duplicate p) (calm t us n) {a = none}
            {t = calm t us n} (existing_order-none t us n free) in
        finish_lem not_duplicate t other (next_outcome (body (calm t us n)).1.outcomes)
          (body (calm t us n)) refl
          (subst
            (λ (x : Result RepositoryError (Order × List OrderItem) × World Tables).
              OnError not_duplicate x.0)
            (sym looked) (create_new-Raises (calm t us n)))
