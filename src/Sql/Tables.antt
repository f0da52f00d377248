-- ===== src/Sql/Tables.antt =====
-- The statements' work on the rows of one table, and on the columns' types.
use micromart.Prelude.{
  ℕ, Bool, Option, none, some, List, [], ◌∷◌, ◌&&◌, ◌≡◌, refl, ltb, if◌then◌else◌,
}
use micromart.Prelude.Int.{ℤ, pos, negsuc, int32_half, int64_half}

-- A value for an INT or BIGINT column with CHECK (... >= 0): out of range is refused. The columns
-- are kept as natural numbers.
abbrev pub check_int : ℤ → Option ℕ
check_int (pos n) = if ltb n int32_half then some n else none
check_int (negsuc n) = none

abbrev pub check_bigint : ℤ → Option ℕ
check_bigint (pos n) = if ltb n int64_half then some n else none
check_bigint (negsuc n) = none

-- A column with CHECK (... > 0).
abbrev pub check_positive : ℤ → Option ℕ
check_positive (pos n) = if ltb 0 n && ltb n int32_half then some n else none
check_positive (negsuc n) = none

-- A statement that is refused where a part of it is.
abbrev pub and_then : {A B : Type 0} → Option A → (A → Option B) → Option B
and_then none f = none
and_then (some a) f = f a

pub and_then-eq-some :
    {A B : Type 0} (o : Option A) (f : A → Option B) {b : B}
    → and_then o f ≡ some b
    → (a : A) × (o ≡ some a) × (f a ≡ some b)
and_then-eq-some none f h = cc
and_then-eq-some (some a) f h = (a, refl, h)

module _ {A : Type 0} where
  -- An UPDATE that no constraint can refuse.
  abbrev pub update_all : (A → Bool) → (A → A) → List A → List A
  update_all test set [] = []
  update_all test set (x ∷ xs) = (if test x then set x else x) ∷ update_all test set xs

  -- A row in front of the rows that an UPDATE made, if it was not refused.
  abbrev pub put_row : Option A → Option (List A) → Option (List A)
  put_row none rest = none
  put_row (some a) none = none
  put_row (some a) (some rest) = some (a ∷ rest)

  -- UPDATE ... SET set WHERE test: refused whole if one row is.
  unfoldable pub update_where : (A → Bool) → (A → Option A) → List A → Option (List A)
  update_where test set [] = some []
  update_where test set (x ∷ xs) =
      put_row (if test x then set x else some x) (update_where test set xs)
