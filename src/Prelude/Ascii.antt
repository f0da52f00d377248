-- ===== src/Prelude/Ascii.antt =====
-- Texts as lists of bytes: []byte(s) and string(b). A byte above 127 belongs to a character that is
-- not ASCII, and a text with one has no `of_codes`.
use Prim.Native.Nat.{ℕ, ◌<◌, compare, Ordering}
use Prim.Native.Char.{Char, char, code, nul}
use Prim.Native.String.{String}
use mathlib.Core.Path.{◌≡◌, refl, ap}
use mathlib.Core.Bool.{Bool, true}
use mathlib.Core.Option.{Option, none, some}
use mathlib.Core.List.{List, [], ◌∷◌}
use native.Mathlib.Omega.{arith}
use text.Mathlib.TextEquality.{Char-path}
use micromart.Prelude.Tests.{ltb}
use micromart.Prelude.Lists.{All}

-- The code points of a text, which are its bytes if it is ASCII.
abbrev pub codes : String → List ℕ
codes String.[] = []
codes (String.◌∷◌ c s) = code c ∷ codes s

abbrev pub IsAscii : String → Type 0
IsAscii s = All (λ n. n < 128) (codes s)

scalar_char : (n : ℕ) (o : Ordering) → compare n 55296 ≡ o → Char
scalar_char n Ordering.lt e = char n (rw e tt)
scalar_char n Ordering.eq e = nul
scalar_char n Ordering.gt e = nul

unfoldable pub to_char : ℕ → Char
unfolding scalar_char
to_char n = scalar_char n (compare n 55296) refl

code-scalar_char :
    (n : ℕ) (o : Ordering) (e : compare n 55296 ≡ o) → n < 128 → code (scalar_char n o e) ≡ n
unfolding scalar_char
code-scalar_char n Ordering.lt e h = refl
code-scalar_char n Ordering.eq e h = ground arith
code-scalar_char n Ordering.gt e h = ground arith

pub code-to_char : (n : ℕ) → n < 128 → code (to_char n) ≡ n
unfolding to_char
code-to_char n h = code-scalar_char n (compare n 55296) refl h

abbrev put_char : Bool → ℕ → Option String → Option String
put_char true n (some s) = some (String.◌∷◌ (to_char n) s)
put_char _ n _ = none

unfoldable pub of_codes : List ℕ → Option String
of_codes [] = some String.[]
of_codes (n ∷ ns) = put_char (ltb n 128) n (of_codes ns)

-- A text of ASCII symbols.
unfoldable pub text_of : List ℕ → String
text_of [] = String.[]
text_of (n ∷ ns) = String.◌∷◌ (to_char n) (text_of ns)

pub of_codes-codes : (s : String) → IsAscii s → of_codes (codes s) ≡ some s
unfolding of_codes
of_codes-codes String.[] h = refl
of_codes-codes (String.◌∷◌ c s) (small, rest) =
    let is_small : ltb (code c) 128 ≡ true = ground arith in
    rw (of_codes-codes s rest, is_small)
      (ap (λ d. some (String.◌∷◌ d s))
        (Char-path (to_char (code c)) c (code-to_char (code c) small)))

pub codes-text_of : (ns : List ℕ) → All (λ n. n < 128) ns → codes (text_of ns) ≡ ns
unfolding text_of
codes-text_of [] h = refl
codes-text_of (n ∷ ns) (small, rest) = rw (code-to_char n small, codes-text_of ns rest) refl
