-- ===== src/Prelude/Keeps.antt =====
-- Predicates on the state that a method keeps.
use micromart.Prelude.{Bool, true, false, if◌then◌else◌}
use micromart.Prelude.Exec.{Result, ok, err, Exec, ◌>>=◌}

abbrev pub Keeps : {S E A : Type 0} → (S → Type 0) → Exec S E A → Type 0
Keeps {S = S} P m = (s : S) → P s → P (m s).1

module _ {S E A B : Type 0} (P : S → Type 0) where
  continue_lem :
      (r : Result E A) (f : A → Exec S E B) (t : S)
      → P t
      → ((a : A) → Keeps P (f a))
      → let out : Result E B × S = elim r [ ok a ↦ f a t | err e ↦ (err e, t) ] in P out.1
  continue_lem (ok a) f t h k = k a t h
  continue_lem (err e) f t h k = h

  pub >>=-Keeps :
      (m : Exec S E A) (f : A → Exec S E B)
      → Keeps P m
      → ((a : A) → Keeps P (f a))
      → Keeps P (m >>= f)
  >>=-Keeps m f h k s p = continue_lem (m s).0 f (m s).1 (h s p) k

pub attempt-Keeps :
    {S E F A B : Type 0} (P : S → Type 0) (m : Exec S E A) (f : Result E A → Exec S F B)
    → Keeps P m
    → ((r : Result E A) → Keeps P (f r))
    → Keeps P (λ s. let (r, s') = m s in f r s')
attempt-Keeps P m f h k s p = k (m s).0 (m s).1 (h s p)

pub if-Keeps :
    {S E A : Type 0} (P : S → Type 0) (b : Bool) (m k : Exec S E A)
    → Keeps P m
    → Keeps P k
    → Keeps P (if b then m else k)
if-Keeps P true m k hm hk = hm
if-Keeps P false m k hm hk = hk
