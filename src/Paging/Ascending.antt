-- ===== src/Paging/Ascending.antt =====
-- Rows in the order of their keys.
use mathlib.Core.Path.{subst}
use micromart.Prelude.{
  ℕ, zero, suc, ◌≤◌, ◌<◌, ◌≡◌, refl, ◌≢◌, sym, ap, inl, inr, Bool, true, false, ◌&&◌, none, some,
  List, [], ◌∷◌, arith, ltb, leb, if◌then◌else◌, filter, take, drop, get_last?, All, Bool-cases,
  ℕ-cases,
}
use micromart.Sql.Keys.{find_key, IsPrimary}

module _ {A : Type 0} (key : A → ℕ) where
  abbrev pub IsAbove : ℕ → List A → Type 0
  IsAbove n xs = All (λ x. n < key x) xs

  abbrev pub IsAscending : List A → Type 0
  IsAscending [] = Unit
  IsAscending (x ∷ xs) = IsAbove (key x) xs × IsAscending xs

  -- A row put in front of the first that has a greater key.
  unfoldable pub insert_by : A → List A → List A
  insert_by x [] = x ∷ []
  insert_by x (y ∷ ys) =
      let rest = insert_by x ys in if leb (key x) (key y) then x ∷ y ∷ ys else y ∷ rest

  -- ORDER BY key
  unfoldable pub order_by : List A → List A
  order_by [] = []
  order_by (x ∷ xs) = insert_by x (order_by xs)

  -- No row has the key `k`.
  abbrev IsFresh : ℕ → List A → Type 0
  IsFresh k xs = All (λ x. key x ≢ k) xs

  IsFresh-of_none : (k : ℕ) (xs : List A) → find_key key k xs ≡ none → IsFresh k xs
  IsFresh-of_none k [] h = tt
  IsFresh-of_none k (x ∷ xs) h = elim (ℕ-cases (key x) k) [
    | inl same ↦ ground arith
    | inr differs ↦ (differs, IsFresh-of_none k xs (ground arith))
  ]

  IsAbove-insert :
      (n : ℕ) (x : A) (ys : List A) → n < key x → IsAbove n ys → IsAbove n (insert_by x ys)
  unfolding insert_by
  IsAbove-insert n x [] h a = (h, tt)
  IsAbove-insert n x (y ∷ ys) h (a, above) = elim (Bool-cases (leb (key x) (key y))) [
    | inl le ↦ rw le (h, (a, above))
    | inr gt ↦ rw gt (a, IsAbove-insert n x ys h above)
  ]

  IsAbove-mono : (n m : ℕ) (xs : List A) → n ≤ m → IsAbove m xs → IsAbove n xs
  IsAbove-mono n m [] le h = tt
  IsAbove-mono n m (x ∷ xs) le (h, hs) = (omega (arith, h, le), IsAbove-mono n m xs le hs)

  IsAscending-insert :
      (x : A) (ys : List A) → IsFresh (key x) ys → IsAscending ys → IsAscending (insert_by x ys)
  unfolding insert_by
  IsAscending-insert x [] f a = (tt, tt)
  IsAscending-insert x (y ∷ ys) (n, f) (above, asc) = elim (Bool-cases (leb (key x) (key y))) [
    | inl le ↦
        let below : key x < key y = ground arith in
        rw le ((below, IsAbove-mono (key x) (key y) ys (omega arith) above), (above, asc))
    | inr gt ↦
        rw gt (IsAbove-insert (key y) x ys (ground arith) above, IsAscending-insert x ys f asc)
  ]

  IsFresh-insert :
      (k : ℕ) (x : A) (ys : List A) → key x ≢ k → IsFresh k ys → IsFresh k (insert_by x ys)
  unfolding insert_by
  IsFresh-insert k x [] n f = (n, tt)
  IsFresh-insert k x (y ∷ ys) n (m, f) = elim (Bool-cases (leb (key x) (key y))) [
    | inl le ↦ rw le (n, (m, f))
    | inr gt ↦ rw gt (m, IsFresh-insert k x ys n f)
  ]

  IsFresh-order_by : (k : ℕ) (xs : List A) → IsFresh k xs → IsFresh k (order_by xs)
  unfolding order_by
  IsFresh-order_by k [] f = tt
  IsFresh-order_by k (x ∷ xs) (n, f) = IsFresh-insert k x (order_by xs) n (IsFresh-order_by k xs f)

  IsFresh-filter : (k : ℕ) (p : A → Bool) (xs : List A) → IsFresh k xs → IsFresh k (filter p xs)
  IsFresh-filter k p [] f = tt
  IsFresh-filter k p (x ∷ xs) (n, f) = elim (Bool-cases (p x)) [
    | inl yes_x ↦ rw yes_x (n, IsFresh-filter k p xs f)
    | inr no_x ↦ rw no_x (IsFresh-filter k p xs f)
  ]

  -- The rows of a table with a primary key that pass a test come in strictly ascending order.
  pub order_by-IsAscending :
      (p : A → Bool) (xs : List A) → IsPrimary key xs → IsAscending (order_by (filter p xs))
  unfolding order_by
  order_by-IsAscending p [] prim = tt
  order_by-IsAscending p (x ∷ xs) (missing, prim) = elim (Bool-cases (p x)) [
    | inl yes_x ↦ rw yes_x (
        IsAscending-insert x (order_by (filter p xs))
          (IsFresh-order_by (key x) (filter p xs)
            (IsFresh-filter (key x) p xs (IsFresh-of_none (key x) xs missing)))
          (order_by-IsAscending p xs prim))
    | inr no_x ↦ rw no_x (order_by-IsAscending p xs prim)
  ]

  -- Testing before and after the ordering is the same.
  filter-insert_no :
      (p : A → Bool) (x : A) (ys : List A) → p x ≡ false → filter p (insert_by x ys) ≡ filter p ys
  unfolding insert_by
  filter-insert_no p x [] n = rw n refl
  filter-insert_no p x (y ∷ ys) n = elim (Bool-cases (leb (key x) (key y))) [
    | inl le ↦ rw (le, n) refl
    | inr gt ↦ rw (gt, filter-insert_no p x ys n) refl
  ]

  insert_front : (x : A) (k : ℕ) (zs : List A) → key x ≤ k → IsAbove k zs → insert_by x zs ≡ x ∷ zs
  unfolding insert_by
  insert_front x k [] le h = refl
  insert_front x k (z ∷ zs) le (h, hs) =
      let smaller : leb (key x) (key z) ≡ true = ground arith in rw smaller refl

  filter-IsAbove : (k : ℕ) (p : A → Bool) (zs : List A) → IsAbove k zs → IsAbove k (filter p zs)
  filter-IsAbove k p [] h = tt
  filter-IsAbove k p (z ∷ zs) (h, hs) = elim (Bool-cases (p z)) [
    | inl yes_z ↦ rw yes_z (h, filter-IsAbove k p zs hs)
    | inr no_z ↦ rw no_z (filter-IsAbove k p zs hs)
  ]

  filter-insert_yes :
      (p : A → Bool) (x : A) (ys : List A)
      → p x ≡ true
      → IsAscending ys
      → filter p (insert_by x ys) ≡ insert_by x (filter p ys)
  unfolding insert_by
  filter-insert_yes p x [] e asc = rw e refl
  filter-insert_yes p x (y ∷ ys) e (above, asc) = elim (Bool-cases (leb (key x) (key y))) [
    | inl le ↦
        let small : key x ≤ key y = ground arith in
        elim (Bool-cases (p y)) [
          | inl yes_y ↦ rw (le, e, yes_y, le) refl
          | inr no_y ↦
              rw (le, e, no_y)
                (sym
                  (insert_front x (key y) (filter p ys) small (filter-IsAbove (key y) p ys above)))
        ]
    | inr gt ↦ elim (Bool-cases (p y)) [
      | inl yes_y ↦ rw (gt, yes_y, gt) (ap (λ zs. y ∷ zs) (filter-insert_yes p x ys e asc))
      | inr no_y ↦ rw (gt, no_y) (filter-insert_yes p x ys e asc)
    ]
  ]

  pub order_by-filter :
      (p q : A → Bool) (xs : List A)
      → IsPrimary key xs
      → order_by (filter (λ x. p x && q x) xs) ≡ filter q (order_by (filter p xs))
  unfolding order_by
  order_by-filter p q [] prim = refl
  order_by-filter p q (x ∷ xs) (missing, prim) = elim (Bool-cases (p x)) [
    | inl yes_x ↦ elim (Bool-cases (q x)) [
      | inl passes ↦
          rw (yes_x, passes, order_by-filter p q xs prim)
            (sym (
              filter-insert_yes q x (order_by (filter p xs)) passes
                (order_by-IsAscending p xs prim)))
      | inr fails ↦
          rw (yes_x, fails, order_by-filter p q xs prim)
            (sym (filter-insert_no q x (order_by (filter p xs)) fails))
    ]
    | inr no_x ↦ rw no_x (order_by-filter p q xs prim)
  ]

  pub last-above :
      (k n : ℕ) (zs : List A) {x : A} → IsAbove k zs → get_last? (take n zs) ≡ some x → k < key x
  last-above k zero zs h e = cc
  last-above k (suc n) [] h e = cc
  last-above k (suc zero) (z ∷ zs) (h, hs) e = ground (arith, h)
  last-above k (suc (suc n)) (z ∷ []) (h, hs) e = ground (arith, h)
  last-above k (suc (suc n)) (z ∷ y ∷ zs) (h, hs) e = last-above k (suc n) (y ∷ zs) hs e

  keep_above : (k : ℕ) (zs : List A) → IsAbove k zs → filter (λ z. ltb k (key z)) zs ≡ zs
  keep_above k [] h = refl
  keep_above k (z ∷ zs) (h, hs) =
      let larger : ltb k (key z) ≡ true = ground arith in
      rw larger (ap (λ ys. z ∷ ys) (keep_above k zs hs))

  -- What comes after the last row of a page is what the page has left.
  pub filter_after_take :
      (n : ℕ) (zs : List A) {x : A}
      → IsAscending zs
      → get_last? (take n zs) ≡ some x
      → filter (λ z. ltb (key x) (key z)) zs ≡ drop n zs
  filter_after_take zero zs asc e = cc
  filter_after_take (suc n) [] asc e = cc
  filter_after_take (suc zero) (z ∷ zs) {x} (above, asc) e =
      let same : z ≡ x = ground arith in
      let itself : ltb (key z) (key z) ≡ false = ground arith in
      subst (λ (v : A). filter (λ y. ltb (key v) (key y)) (z ∷ zs) ≡ zs) same
        (rw itself (keep_above (key z) zs above))
  filter_after_take (suc (suc n)) (z ∷ []) {x} (above, asc) e =
      let same : z ≡ x = ground arith in
      let itself : ltb (key z) (key z) ≡ false = ground arith in
      subst (λ (v : A). filter (λ y. ltb (key v) (key y)) (z ∷ []) ≡ []) same (rw itself refl)
  filter_after_take (suc (suc n)) (z ∷ y ∷ zs) {x} (above, asc) e =
      let larger : key z < key x = last-above (key z) (suc n) (y ∷ zs) above e in
      let behind : ltb (key x) (key z) ≡ false = ground arith in
      rw behind (filter_after_take (suc n) (y ∷ zs) asc e)
