-- ===== src/Sql/Laws.antt =====
-- What a statement and a transaction leave behind, however the calls end.
use micromart.Prelude.{ℕ, ◌≡◌, refl, ◌⊎◌, inl, inr, ◌∙◌, Option, none, some, arith, Option-cases}
use micromart.Prelude.Exec.{Result, ok, err, Exec, ◌>>=◌}
use micromart.Sql.State.{
  Outcome, done, failed, lost, World, begun, calm, run_statement, statement, finish,
  run_transaction, transaction, next_outcome,
}

module _ {T E A : Type 0} where
  run_statement-eq-ok :
      (o : Outcome) (e : E) (body : World T → Option (A × World T)) (w : World T) {a : A}
      {w' : World T}
      → run_statement o e body w ≡ (ok a, w')
      → body w ≡ some (a, w')
  run_statement-eq-ok done e body w h = ground arith
  run_statement-eq-ok failed e body w h = cc
  run_statement-eq-ok lost e body w h = ground arith

  -- A statement that returned was carried out.
  pub statement-eq-ok :
      (e : E) (body : World T → Option (A × World T)) (w : World T) {a : A} {w' : World T}
      → statement e body w ≡ (ok a, w')
      → body (begun w) ≡ some (a, w')
  unfolding statement
  statement-eq-ok e body w h = run_statement-eq-ok (next_outcome w.outcomes) e body (begun w) h

  run_statement-cases :
      (o : Outcome) (e : E) (body : World T → Option (A × World T)) (w : World T)
      → ((run_statement o e body w).1 ≡ w)
        ⊎ ((a : A) × (w' : World T) × (body w ≡ some (a, w')) × ((run_statement o e body w).1 ≡ w'))
  run_statement-cases done e body w = elim (Option-cases (body w)) [
    | inl refused ↦ inl (rw refused refl)
    | inr ((a, w'), made) ↦ inr (a, w', made, rw made refl)
  ]
  run_statement-cases failed e body w = inl refl
  run_statement-cases lost e body w = elim (Option-cases (body w)) [
    | inl refused ↦ inl (rw refused refl)
    | inr ((a, w'), made) ↦ inr (a, w', made, rw made refl)
  ]

  -- A statement was carried out, or has changed nothing.
  pub statement-cases :
      (e : E) (body : World T → Option (A × World T)) (w : World T)
      → ((statement e body w).1 ≡ begun w)
        ⊎ ((a : A) × (w' : World T) × (body (begun w) ≡ some (a, w'))
            × ((statement e body w).1 ≡ w'))
  unfolding statement
  statement-cases e body w = run_statement-cases (next_outcome w.outcomes) e body (begun w)

  finish-cases :
      (before : T) (e : E) (o : Outcome) (r : Result E A) (w : World T)
      → ((finish before e o (r, w)).1.tables ≡ before)
        ⊎ ((a : A) × (r ≡ ok a) × ((finish before e o (r, w)).1.tables ≡ w.tables))
  finish-cases before e o (err x) w = inl refl
  finish-cases before e done (ok a) w = inr (a, refl, refl)
  finish-cases before e failed (ok a) w = inl refl
  finish-cases before e lost (ok a) w = inr (a, refl, refl)

  run_transaction-cases :
      (o : Outcome) (e : E) (body : Exec (World T) E A) (w : World T)
      → ((run_transaction o e body w).1.tables ≡ w.tables)
        ⊎ ((a : A) × ((body w).0 ≡ ok a)
            × ((run_transaction o e body w).1.tables ≡ (body w).1.tables))
  run_transaction-cases done e body w =
      finish-cases w.tables e (next_outcome (body w).1.outcomes) (body w).0 (body w).1
  run_transaction-cases failed e body w = inl refl
  run_transaction-cases lost e body w = inl refl

  -- A transaction is all or nothing: the tables are as before, or its body went through.
  pub transaction-cases :
      (e : E) (body : Exec (World T) E A) (w : World T)
      → ((transaction e body w).1.tables ≡ w.tables)
        ⊎ ((a : A) × ((body (begun w)).0 ≡ ok a)
            × ((transaction e body w).1.tables ≡ (body (begun w)).1.tables))
  unfolding transaction
  transaction-cases e body w = run_transaction-cases (next_outcome w.outcomes) e body (begun w)

  finish-eq-ok :
      (before : T) (e : E) (o : Outcome) (r : Result E A) (w : World T) {a : A}
      → (finish before e o (r, w)).0 ≡ ok a
      → (r ≡ ok a) × ((finish before e o (r, w)).1.tables ≡ w.tables)
  finish-eq-ok before e o (err x) w h = cc
  finish-eq-ok before e done (ok a) w h = (h, refl)
  finish-eq-ok before e failed (ok a) w h = cc
  finish-eq-ok before e lost (ok a) w h = cc

  run_transaction-eq-ok :
      (o : Outcome) (e : E) (body : Exec (World T) E A) (w : World T) {a : A}
      → (run_transaction o e body w).0 ≡ ok a
      → ((body w).0 ≡ ok a) × ((run_transaction o e body w).1.tables ≡ (body w).1.tables)
  run_transaction-eq-ok done e body w h =
      finish-eq-ok w.tables e (next_outcome (body w).1.outcomes) (body w).0 (body w).1 h
  run_transaction-eq-ok failed e body w h = cc
  run_transaction-eq-ok lost e body w h = cc

  -- A transaction that returned has the tables that its body left.
  pub transaction-eq-ok :
      (e : E) (body : Exec (World T) E A) (w : World T) {a : A}
      → (transaction e body w).0 ≡ ok a
      → ((body (begun w)).0 ≡ ok a) × ((transaction e body w).1.tables ≡ (body (begun w)).1.tables)
  unfolding transaction
  transaction-eq-ok e body w h = run_transaction-eq-ok (next_outcome w.outcomes) e body (begun w) h

  -- In a calm world a statement that the server accepts returns, and so does a transaction.
  pub statement-calm :
      (e : E) (body : World T → Option (A × World T)) (t : T) (us : ℕ → ℕ) (n : ℕ) {a : A}
      {w' : World T}
      → body (calm t us n) ≡ some (a, w')
      → statement e body (calm t us n) ≡ (ok a, w')
  unfolding statement
  statement-calm e body t us n h = rw h

  pub transaction-calm :
      (e : E) (body : Exec (World T) E A) (t t' : T) (us us' : ℕ → ℕ) (n n' : ℕ) {a : A}
      → body (calm t us n) ≡ (ok a, calm t' us' n')
      → transaction e body (calm t us n) ≡ (ok a, calm t' us' n')
  unfolding transaction
  transaction-calm e body t t' us us' n n' h i = finish t e (next_outcome (h i).1.outcomes) (h i)

  -- An error of the body is passed on, and the tables are as before.
  pub transaction-calm_err :
      (e : E) (body : Exec (World T) E A) (t t' : T) (us us' : ℕ → ℕ) (n n' : ℕ) {x : E}
      → body (calm t us n) ≡ (err x, calm t' us' n')
      → transaction e body (calm t us n) ≡ (err x, calm t us' n')
  unfolding transaction
  transaction-calm_err e body t t' us us' n n' h i =
      finish t e (next_outcome (h i).1.outcomes) (h i)

-- Actions that leave a calm world calm.
abbrev pub Calmly : {T E A : Type 0} → Exec (World T) E A → Type 0
Calmly {T} {E} {A} m =
    (t : T) (us : ℕ → ℕ) (n : ℕ)
    → (r : Result E A) × (t' : T) × (us' : ℕ → ℕ) × (m (calm t us n) ≡ (r, calm t' us' n))

module _ {T E A B : Type 0} where
  continue-Calmly :
      (f : A → Exec (World T) E B) (r : Result E A) (t : T) (us : ℕ → ℕ) (n : ℕ)
      → ((a : A) → Calmly (f a))
      → (x : Result E B) × (t' : T) × (us' : ℕ → ℕ) × ((elim r [
        | ok a ↦ f a (calm t us n)
        | err e ↦ (err e, calm t us n)
      ])
          ≡ (x, calm t' us' n))
  continue-Calmly f (ok a) t us n k = k a t us n
  continue-Calmly f (err e) t us n k = (err e, t, us, refl)

  pub bind-Calmly :
      (m : Exec (World T) E A) (f : A → Exec (World T) E B)
      → Calmly m
      → ((a : A) → Calmly (f a))
      → Calmly (m >>= f)
  bind-Calmly m f k l t us n =
      let (r, t1, us1, e) = k t us n in
      let (x, t2, us2, e') = continue-Calmly f r t1 us1 n l in
      (x, t2, us2, (λ i. elim (e i).0 [ ok a ↦ f a (e i).1 | err z ↦ (err z, (e i).1) ]) ∙ e')

-- A statement that leaves outcomes and time alone.
abbrev pub StaysCalm : {T A : Type 0} → (World T → Option (A × World T)) → Type 0
StaysCalm {T} {A} body =
    (t : T) (us : ℕ → ℕ) (n : ℕ)
    → (body (calm t us n) ≡ none)
      ⊎ ((a : A) × (t' : T) × (us' : ℕ → ℕ) × (body (calm t us n) ≡ some (a, calm t' us' n)))

pub statement-Calmly :
    {T E A : Type 0} (e : E) (body : World T → Option (A × World T))
    → StaysCalm body
    → Calmly (statement e body)
unfolding statement
statement-Calmly e body k t us n = elim (k t us n) [
  | inl no_row ↦ (err e, t, us, rw no_row)
  | inr (a, t', us', made) ↦ (ok a, t', us', rw made)
]
