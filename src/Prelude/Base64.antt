-- ===== src/Prelude/Base64.antt =====
-- base64.StdEncoding of Go's standard library, on lists of bytes.
use Prim.Native.Nat.{ℕ, ◌+◌, ◌-◌, ◌*◌, ◌/◌, ◌%◌, ◌<◌}
use mathlib.Core.Path.{◌≡◌}
use mathlib.Core.Bool.{Bool, false}
use mathlib.Core.Option.{Option, none, some}
use mathlib.Core.List.{List, [], ◌∷◌}
use native.Mathlib.Omega.{arith}
use micromart.Prelude.Tests.{ltb, ◌==◌, if◌then◌else◌}

-- The character of a sextet: A-Z, a-z, 0-9, + and /.
unfoldable pub symbol : ℕ → ℕ
symbol n =
    if ltb n 26
    then 65 + n
    else if ltb n 52
    then 71 + n
    else if ltb n 62
    then n - 4
    else if n == 62
    then 43
    else 47

abbrev in_range : ℕ → ℕ → ℕ → Bool
in_range a b c = if ltb c a then false else ltb c b

-- The sextet of a character.
unfoldable pub sextet : ℕ → Option ℕ
sextet c =
    if in_range 65 91 c
    then some (c - 65)
    else if in_range 97 123 c
    then some (c - 71)
    else if in_range 48 58 c
    then some (c + 4)
    else if c == 43
    then some 62
    else if c == 47
    then some 63
    else none

-- `=`
abbrev pub padding : ℕ
padding = 61

unfoldable pub encode : List ℕ → List ℕ
encode [] = []
encode (a ∷ []) = symbol (a / 4) ∷ symbol (a % 4 * 16) ∷ padding ∷ padding ∷ []
encode (a ∷ b ∷ []) =
    symbol (a / 4) ∷ symbol (a % 4 * 16 + b / 16) ∷ symbol (b % 16 * 4) ∷ padding ∷ []
encode (a ∷ b ∷ c ∷ rest) =
    symbol (a / 4)
    ∷ symbol (a % 4 * 16 + b / 16)
    ∷ symbol (b % 16 * 4 + c / 64)
    ∷ symbol (c % 64)
    ∷ encode rest

-- Line breaks are skipped.
unfoldable pub skip_breaks : List ℕ → List ℕ
skip_breaks [] = []
skip_breaks (c ∷ cs) =
    if c == 10 then skip_breaks cs else if c == 13 then skip_breaks cs else c ∷ skip_breaks cs

abbrev one_byte : Option ℕ → Option ℕ → Option (List ℕ)
one_byte (some p) (some q) = some ((p * 4 + q / 16) ∷ [])
one_byte _ _ = none

abbrev two_bytes : Option ℕ → Option ℕ → Option ℕ → Option (List ℕ)
two_bytes (some p) (some q) (some r) = some ((p * 4 + q / 16) ∷ (q % 16 * 16 + r / 4) ∷ [])
two_bytes _ _ _ = none

abbrev pub three_bytes :
    Option ℕ → Option ℕ → Option ℕ → Option ℕ → Option (List ℕ) → Option (List ℕ)
three_bytes (some p) (some q) (some r) (some s) (some rest) =
    some ((p * 4 + q / 16) ∷ (q % 16 * 16 + r / 4) ∷ (r % 4 * 64 + s) ∷ rest)
three_bytes _ _ _ _ _ = none

-- The last four characters, of which one or two may be padding. The bits that a padded group has
-- left over are not looked at.
abbrev pub last_group : ℕ → ℕ → ℕ → ℕ → Option (List ℕ)
last_group a b c d =
    if d == padding
    then (if c == padding
        then one_byte (sextet a) (sextet b)
        else two_bytes (sextet a) (sextet b) (sextet c))
    else three_bytes (sextet a) (sextet b) (sextet c) (sextet d) (some [])

unfoldable pub decode_groups : List ℕ → Option (List ℕ)
decode_groups [] = some []
decode_groups (a ∷ b ∷ c ∷ d ∷ []) = last_group a b c d
decode_groups (a ∷ b ∷ c ∷ d ∷ e ∷ rest) =
    three_bytes (sextet a) (sextet b) (sextet c) (sextet d) (decode_groups (e ∷ rest))
decode_groups _ = none

unfoldable pub decode : List ℕ → Option (List ℕ)
decode cs = decode_groups (skip_breaks cs)

pub symbol_lem :
    (n : ℕ)
    → n < 64
    → (sextet (symbol n) ≡ some n)
      × ((symbol n == padding) ≡ false)
      × ((symbol n == 10) ≡ false)
      × ((symbol n == 13) ≡ false)
unfolding symbol sextet
symbol_lem n h = ground arith
