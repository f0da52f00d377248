-- ===== src/Prelude/Atoi.antt =====
-- strconv.Atoi, on the bytes of a text.
use Prim.Native.Nat.{ℕ, ◌+◌, ◌-◌, ◌*◌}
use mathlib.Core.Option.{Option, none, some}
use mathlib.Core.List.{List, [], ◌∷◌}
use micromart.Prelude.Tests.{ltb, leb, ◌==◌, if◌then◌else◌}
use micromart.Prelude.Int.{ℤ, pos, sub_ℕ, int64_half}

-- The digits behind the value `n` of those before them.
unfoldable pub digits_from : ℕ → List ℕ → Option ℕ
digits_from n [] = some n
digits_from n (c ∷ cs) =
    let rest = digits_from (n * 10 + (c - 48)) cs in
    if ltb c 48 then none else if ltb 57 c then none else rest

abbrev pub number : List ℕ → Option ℕ
number [] = none
number (c ∷ cs) = digits_from 0 (c ∷ cs)

-- A value out of the range of int64 is an error.
abbrev pub positive : Option ℕ → Option ℤ
positive none = none
positive (some n) = if ltb n int64_half then some (pos n) else none

abbrev pub negative : Option ℕ → Option ℤ
negative none = none
negative (some n) = if leb n int64_half then some (sub_ℕ 0 n) else none

unfoldable pub atoi : List ℕ → Option ℤ
atoi [] = none
atoi (c ∷ cs) =
    if c == 45
    then negative (number cs)
    else if c == 43
    then positive (number cs)
    else positive (number (c ∷ cs))
