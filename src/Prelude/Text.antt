-- ===== src/Prelude/Text.antt =====
-- Go strings that the program only compares: texts with a Boolean equality.
use Prim.Native.String.{String}
use mathlib.Core.Bool.{Bool, true, false}
pub use text.Mathlib.Text.{◌==◌ as str_eq}
pub use text.Mathlib.TextEquality.{eq_iff}

-- `s == ""`
abbrev pub is_empty : String → Bool
is_empty String.[] = true
is_empty (String.◌∷◌ c s) = false

-- `s + t`
abbrev pub append : String → String → String
append String.[] t = t
append (String.◌∷◌ c s) t = String.◌∷◌ c (append s t)
