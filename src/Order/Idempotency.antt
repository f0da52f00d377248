-- ===== src/Order/Idempotency.antt =====
-- What an idempotency key promises.
use mathlib.Core.Path.{subst}
use micromart.Prelude.{
  ℕ, ◌≡◌, refl, sym, ap, ◌∙◌, inl, inr, Bool, false, true, none, some, List, [], ◌∷◌, ◌++◌, ◌==◌,
  arith, filter, find?, ==_refl, Bool-cases,
}
use micromart.Prelude.Text.{is_empty, eq_iff}
use micromart.Prelude.Exec.{ok, err, raise, >>=-ok}
use micromart.Sql.{World, Uuids, calm}
use micromart.Sql.Laws.{statement-calm, transaction-calm_err}
use micromart.Sql.Keys.{find_key}
use micromart.Order.Entity.{Order, OrderItem, Tables}
use micromart.Order.Repository.{
  CreateOrderItemParams, CreateOrderParams, other, duplicate_order, key_is, find_by_key,
  select_items, select_by_key, existing_order, unless_duplicate, create_order,
}
use micromart.Order.Lines.{Lines}
use micromart.Order.Creation.{Created, create_order-Created}

-- The foreign key of order_items: no items of an order that is not there.
abbrev pub IsOwned : Tables → Type 0
IsOwned t =
    (k : ℕ)
    → find_key (λ o. o.id) k t.orders ≡ none
    → filter (λ i. i.order_id == k) t.order_items ≡ []

module _ {A : Type 0} (test : A → Bool) where
  find_append :
      (xs : List A) (x : A)
      → find? test xs ≡ none
      → test x ≡ true
      → find? test (xs ++ x ∷ []) ≡ some x
  find_append [] x n e = rw e refl
  find_append (y ∷ xs) x n e = ground (arith, find_append xs x)

  find_append_none :
      (xs : List A) (x : A)
      → find? test (xs ++ x ∷ []) ≡ none
      → (find? test xs ≡ none) × (test x ≡ false)
  find_append_none [] x n = ground arith
  find_append_none (y ∷ xs) x n = ground (arith, find_append_none xs x)

  filter-append : (xs ys : List A) → filter test (xs ++ ys) ≡ filter test xs ++ filter test ys
  filter-append [] ys = refl
  filter-append (x ∷ xs) ys = elim (Bool-cases (test x)) [
    | inl yes_x ↦ rw yes_x (ap (λ zs. x ∷ zs) (filter-append xs ys))
    | inr no_x ↦ rw no_x (filter-append xs ys)
  ]

module _ ⦃u : Uuids⦄ where
  filter-Lines :
      (k : ℕ) (items : List CreateOrderItemParams) (rows : List OrderItem)
      → Lines k items rows
      → filter (λ i. i.order_id == k) rows ≡ rows
  filter-Lines k [] [] lines = refl
  filter-Lines k [] (row ∷ rows) lines = elim lines [ ]
  filter-Lines k (item ∷ items) [] lines = elim lines [ ]
  filter-Lines k (item ∷ items) (row ∷ rows) (line, lines) =
      rw (subst (λ (j : ℕ). (j == k) ≡ true) (sym line.0) (==_refl k))
        (ap (λ zs. row ∷ zs) (filter-Lines k items rows lines))

  filter-Lines_ne :
      (k j : ℕ) (items : List CreateOrderItemParams) (rows : List OrderItem)
      → (k == j) ≡ false
      → Lines k items rows
      → filter (λ i. i.order_id == j) rows ≡ []
  filter-Lines_ne k j [] [] n lines = refl
  filter-Lines_ne k j [] (row ∷ rows) n lines = elim lines [ ]
  filter-Lines_ne k j (item ∷ items) [] n lines = elim lines [ ]
  filter-Lines_ne k j (item ∷ items) (row ∷ rows) n (line, lines) =
      rw (line.0, n) (filter-Lines_ne k j items rows n lines)

  module _ (p : CreateOrderParams) {o : Order} {rows : List OrderItem} {t t' : Tables}
      (made : Created p o rows t t') where
    -- An order and its items stand together.
    Created-IsOwned : IsOwned t → IsOwned t'
    Created-IsOwned owned j missing =
        let (before, differs) =
          find_append_none (λ x. x.id == j) t.orders o (rw (← made.orders) missing) in
        rw
          (
            made.order_items,
            filter-append (λ i. i.order_id == j) t.order_items rows,
            owned j before,
          )
          (filter-Lines_ne o.id j p.items rows differs made.lines)

    Created-items : IsOwned t → filter (λ i. i.order_id == o.id) t'.order_items ≡ rows
    Created-items owned =
        rw
          (
            made.order_items,
            filter-append (λ i. i.order_id == o.id) t.order_items rows,
            owned o.id made.fresh,
          )
          (filter-Lines o.id p.items rows made.lines)

    Created-key :
        is_empty p.idempotency_key ≡ false → find_by_key p.idempotency_key t'.orders ≡ some o
    Created-key some_key = rw made.orders (
        find_append (λ x. key_is p.idempotency_key x.idempotency_key) t.orders o
          (rw some_key at made.key_free)
          (rw (made.key, some_key) ((eq_iff p.idempotency_key p.idempotency_key).1 refl)))

  -- What a second request finds.
  duplicate_calm :
      (p : CreateOrderParams) (o : Order) (rows : List OrderItem) (t : Tables) (us : ℕ → ℕ) (n : ℕ)
      → is_empty p.idempotency_key ≡ false
      → find_by_key p.idempotency_key t.orders ≡ some o
      → filter (λ i. i.order_id == o.id) t.order_items ≡ rows
      → create_order p (calm t us n) ≡ (err (duplicate_order o rows), calm t us n)
  unfolding create_order select_by_key select_items
  duplicate_calm p o rows t us n some_key found items = transaction-calm_err other _ t t us us n n (
      >>=-ok (existing_order p.idempotency_key) (unless_duplicate p) (calm t us n) {a = some o}
        {t = calm t us n}
        (rw some_key (
          statement-calm other (λ w. some (find_by_key p.idempotency_key w.tables.orders, w)) t us n
            (rw found refl)))
      ∙ >>=-ok (select_items o.id) (λ items. raise (duplicate_order o items)) (calm t us n)
          {a = rows} {t = calm t us n} (statement-calm other _ t us n (rw items refl)))

  -- From tables in which no items stand without their order: after CreateOrder has returned an
  -- order for a key, a call with this key, whatever else it asks for, is answered with that order
  -- and its items, as a duplicate, and changes nothing, if its calls are carried out and answered.
  pub create_order_again :
      (p p' : CreateOrderParams) (w : World Tables) (us : ℕ → ℕ) (n : ℕ) {o : Order}
      {rows : List OrderItem}
      → IsOwned w.tables
      → is_empty p.idempotency_key ≡ false
      → p'.idempotency_key ≡ p.idempotency_key
      → (create_order p w).0 ≡ ok (o, rows)
      → let after = calm (create_order p w).1.tables us n in
        create_order p' after ≡ (err (duplicate_order o rows), after)
  create_order_again p p' w us n {o} {rows} owned some_key same h =
      let made = create_order-Created p w h in
      duplicate_calm p' o rows (create_order p w).1.tables us n (rw same some_key)
        (rw same (Created-key p made some_key)) (Created-items p made owned)
