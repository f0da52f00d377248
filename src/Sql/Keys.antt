-- ===== src/Sql/Keys.antt =====
-- An UPDATE of the row with a given key, seen through lookups by key.
use micromart.Prelude.{
  ℕ, ◌≡◌, refl, ◌≢◌, ◌⊎◌, inl, inr, ◌∙◌, Option, none, some, List, [], ◌∷◌, ◌++◌, arith, ◌==◌,
  find?, ℕ-cases, ==_refl,
}
use micromart.Sql.Tables.{update_where, update_all, put_row}

module _ {A : Type 0} where
  put_row-eq-some :
      (o : Option A) (rest : Option (List A)) {ys : List A}
      → put_row o rest ≡ some ys
      → (a : A) × (bs : List A) × (o ≡ some a) × (rest ≡ some bs) × (ys ≡ a ∷ bs)
  put_row-eq-some none rest h = cc
  put_row-eq-some (some a) none h = cc
  put_row-eq-some (some a) (some bs) h = (a, bs, refl, refl, ground arith)

module _ {A : Type 0} (key : A → ℕ) where
  -- The row with key `k`, the first one if there were several.
  abbrev pub find_key : ℕ → List A → Option A
  find_key k xs = find? (λ a. key a == k) xs

  -- Rows have different keys.
  abbrev pub IsPrimary : List A → Type 0
  IsPrimary [] = Unit
  IsPrimary (x ∷ xs) = (find_key (key x) xs ≡ none) × IsPrimary xs

  abbrev pub update_key : ℕ → (A → Option A) → List A → Option (List A)
  update_key k set xs = update_where (λ a. key a == k) set xs

  module _ (set : A → Option A) (keeps : (a b : A) → set a ≡ some b → key b ≡ key a) where
    module _ (k : ℕ) where
      -- What an UPDATE by key does to the first row and to the others.
      update_key-cons :
          (x : A) (xs : List A) {ys : List A}
          → update_key k set (x ∷ xs) ≡ some ys
          → (a : A) × (bs : List A) × (((key x ≡ k) × (set x ≡ some a) × (key a ≡ k))
              ⊎ ((key x ≢ k) × (a ≡ x)))
            × (update_key k set xs ≡ some bs)
            × (ys ≡ a ∷ bs)
      unfolding update_where
      update_key-cons x xs h =
          let (a, bs, e1, e2, e3) = put_row-eq-some _ _ h in
          (a, bs, ground (arith, keeps x a), e2, e3)

      pub find_key-update_ne :
          (j : ℕ) (xs : List A) {ys : List A}
          → j ≢ k
          → update_key k set xs ≡ some ys
          → find_key j ys ≡ find_key j xs
      unfolding update_where
      find_key-update_ne j [] n h = ground arith
      find_key-update_ne j (x ∷ xs) n h =
          let (a, bs, e1, e2, e3) = update_key-cons x xs h in
          rw e3 (ground (arith, find_key-update_ne j xs n e2))

      pub find_key-update_none :
          (xs : List A) {ys : List A}
          → find_key k xs ≡ none
          → update_key k set xs ≡ some ys
          → find_key k ys ≡ none
      unfolding update_where
      find_key-update_none [] n h = ground arith
      find_key-update_none (x ∷ xs) n h =
          let (a, bs, e1, e2, e3) = update_key-cons x xs h in
          rw e3 (elim (ℕ-cases (key x) k) [
            | inl same ↦ ground arith
            | inr other ↦ ground (arith, find_key-update_none xs (ground arith) e2)
          ])

      pub find_key-update_self :
          (xs : List A) {ys : List A} {x : A}
          → find_key k xs ≡ some x
          → update_key k set xs ≡ some ys
          → (y : A) × (set x ≡ some y) × (find_key k ys ≡ some y)
      unfolding update_where
      find_key-update_self [] f h = cc
      find_key-update_self (x ∷ xs) f h =
          let (a, bs, e1, e2, e3) = update_key-cons x xs h in
          rw e3 (elim e1 [
            | inl (same, e, at) ↦ (a, ground arith, ground arith)
            | inr (other, e) ↦
                let (y, p, q) = find_key-update_self xs (ground arith) e2 in (y, p, ground arith)
          ])

      pub update_key-IsPrimary :
          (xs : List A) {ys : List A} → IsPrimary xs → update_key k set xs ≡ some ys → IsPrimary ys
      unfolding update_where
      update_key-IsPrimary [] {ys} p h = let e : [] ≡ ys = ground arith in rw (← e) tt
      update_key-IsPrimary (x ∷ xs) p h =
          let (a, bs, e1, e2, e3) = update_key-cons x xs h in
          rw e3 (elim e1 [
            | inl (same, e, at) ↦ (
              rw at (find_key-update_none xs (rw same at (p.0)) e2),
              update_key-IsPrimary xs p.1 e2,
            )
            | inr (other, e) ↦ (
              rw e (find_key-update_ne (key x) xs other e2 ∙ p.0),
              update_key-IsPrimary xs p.1 e2,
            )
          ])

      -- An UPDATE by a key that no row has changes nothing.
      pub update_key-none : (xs : List A) → find_key k xs ≡ none → update_key k set xs ≡ some xs
      unfolding update_where
      update_key-none [] n = refl
      update_key-none (x ∷ xs) n = elim (ℕ-cases (key x) k) [
        | inl same ↦ ground arith
        | inr other ↦ ground (arith, update_key-none xs (ground arith))
      ]

      -- The UPDATE goes through if the one row that it meets is not refused.
      pub update_key_total :
          (xs : List A) {x y : A}
          → IsPrimary xs
          → find_key k xs ≡ some x
          → set x ≡ some y
          → (ys : List A) × (update_key k set xs ≡ some ys)
      unfolding update_where
      update_key_total [] p f t = cc
      update_key_total (z ∷ xs) {x} {y} p f t = elim (ℕ-cases (key z) k) [
        | inl same ↦ (y ∷ xs, ground (arith, update_key-none xs (rw same at (p.0))))
        | inr other ↦
            let (ys, e) = update_key_total xs p.1 (ground arith) t in (z ∷ ys, ground arith)
      ]

module _ {A : Type 0} (key : A → ℕ) (set : A → A) (keeps : (a : A) → key (set a) ≡ key a) where
  -- An UPDATE by key that is never refused, seen through lookups.
  pub find_key-update_all :
      (k : ℕ) (xs : List A) {x : A}
      → find_key key k xs ≡ some x
      → find_key key k (update_all (λ a. key a == k) set xs) ≡ some (set x)
  find_key-update_all k [] f = cc
  find_key-update_all k (x ∷ xs) {x = y} f = elim (ℕ-cases (key x) k) [
    | inl same ↦ ground (arith, keeps x)
    | inr other ↦ ground (arith, find_key-update_all k xs {x = y} (ground arith))
  ]

module _ {A : Type 0} (key : A → ℕ) where
  -- A row at the end of a table is found if no other has its key.
  pub find_key-append :
      (j : ℕ) (xs : List A) (x : A) {y : A}
      → find_key key j (xs ++ x ∷ []) ≡ some y
      → (find_key key j xs ≡ some y) ⊎ ((find_key key j xs ≡ none) × (key x ≡ j) × (x ≡ y))
  find_key-append j [] x f = ground arith
  find_key-append j (z ∷ zs) x {y} f = elim (ℕ-cases (key z) j) [
    | inl same ↦ inl (ground arith)
    | inr differs ↦ ground (arith, find_key-append j zs x {y = y} (ground arith))
  ]

  find_key-append_none :
      (j : ℕ) (xs : List A) (x : A)
      → find_key key j xs ≡ none
      → key x ≢ j
      → find_key key j (xs ++ x ∷ []) ≡ none
  find_key-append_none j [] x f n = ground arith
  find_key-append_none j (z ∷ zs) x f n = ground (arith, find_key-append_none j zs x)

  -- What was found without a row is found with it.
  pub find_key-kept :
      (j : ℕ) (xs : List A) (x : A) {y : A}
      → find_key key j xs ≡ some y
      → find_key key j (xs ++ x ∷ []) ≡ some y
  find_key-kept j [] x f = cc
  find_key-kept j (z ∷ zs) x {y} f = elim (ℕ-cases (key z) j) [
    | inl same ↦ ground arith
    | inr differs ↦ ground (arith, find_key-kept j zs x {y = y} (ground arith))
  ]

  -- What is missing with one more row was missing without it.
  pub find_key-missing :
      (j : ℕ) (xs : List A) (x : A)
      → find_key key j (xs ++ x ∷ []) ≡ none
      → find_key key j xs ≡ none
  find_key-missing j [] x f = refl
  find_key-missing j (z ∷ zs) x f = ground (arith, find_key-missing j zs x)

  -- A row with a free key is found where it was put.
  pub find_key-last :
      (xs : List A) (x : A)
      → find_key key (key x) xs ≡ none
      → find_key key (key x) (xs ++ x ∷ []) ≡ some x
  find_key-last [] x free = rw (==_refl (key x)) refl
  find_key-last (z ∷ zs) x free = ground (arith, find_key-last zs x)

  pub append-IsPrimary :
      (xs : List A) (x : A)
      → find_key key (key x) xs ≡ none
      → IsPrimary key xs
      → IsPrimary key (xs ++ x ∷ [])
  append-IsPrimary [] x f prim = (refl, tt)
  append-IsPrimary (z ∷ zs) x f (first, rest) = (
    find_key-append_none (key z) zs x first (ground (arith, f)),
    append-IsPrimary zs x (ground (arith, f)) rest,
  )
