-- ===== src/Prelude/Raises.antt =====
-- Which errors a method can end in.
use micromart.Prelude.{◌≡◌, Bool, true, false, if◌then◌else◌}
use micromart.Prelude.Exec.{Result, ok, err, Exec, ◌>>=◌, on_error, map_error}

-- The error of a call, if it ended in one, satisfies a test.
abbrev pub OnError : {E A : Type 0} → (E → Bool) → Result E A → Type 0
OnError test (ok a) = Unit
OnError test (err e) = test e ≡ true

abbrev pub Raises : {S E A : Type 0} → (E → Bool) → Exec S E A → Type 0
Raises {S = S} test m = (s : S) → OnError test (m s).0

module _ {S E A B : Type 0} (test : E → Bool) where
  continue_lem :
      (r : Result E A) (f : A → Exec S E B) (t : S)
      → OnError test r
      → ((a : A) → Raises test (f a))
      → let out : Result E B × S = elim r [ ok a ↦ f a t | err e ↦ (err e, t) ] in
        OnError test out.0
  continue_lem (ok a) f t h k = k a t
  continue_lem (err e) f t h k = h

  pub >>=-Raises :
      (m : Exec S E A) (f : A → Exec S E B)
      → Raises test m
      → ((a : A) → Raises test (f a))
      → Raises test (m >>= f)
  >>=-Raises m f h k s = continue_lem (m s).0 f (m s).1 (h s) k

pub attempt-Raises :
    {S E F A B : Type 0} (test : F → Bool) (m : Exec S E A) (f : Result E A → Exec S F B)
    → ((r : Result E A) → Raises test (f r))
    → Raises test (λ s. let (r, s') = m s in f r s')
attempt-Raises test m f h s = h (m s).0 (m s).1

pub if-Raises :
    {S E A : Type 0} (test : E → Bool) (b : Bool) (m k : Exec S E A)
    → Raises test m
    → Raises test k
    → Raises test (if b then m else k)
if-Raises test true m k hm hk = hm
if-Raises test false m k hm hk = hk

on_error_lem :
    {E F A : Type 0} (test : F → Bool) (f : E → F) (r : Result E A)
    → ((e : E) → test (f e) ≡ true)
    → OnError test (on_error f r)
on_error_lem test f (ok a) h = tt
on_error_lem test f (err e) h = h e

-- An error that is translated satisfies a test that every translation does.
pub map_error-Raises :
    {S E F A : Type 0} (test : F → Bool) (f : E → F) (m : Exec S E A)
    → ((e : E) → test (f e) ≡ true)
    → Raises test (map_error f m)
map_error-Raises test f m h s = on_error_lem test f (m s).0 h
