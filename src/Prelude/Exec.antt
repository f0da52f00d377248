-- ===== src/Prelude/Exec.antt =====
-- Methods that change a state and may return an error. What was written before the error stays
-- written, so the state comes back beside the error too.
use mathlib.Core.Path.{◌≡◌, refl}
use mathlib.Core.Logic.{◌⊎◌, inl, inr}

pub data Result (E A : Type 0) : Type 0 where
  ok : A → Result E A
  err : E → Result E A

abbrev pub Exec : Type 0 → Type 0 → Type 0 → Type 0
Exec S E A = S → Result E A × S

module _ {S E A : Type 0} where
  abbrev pub pure : A → Exec S E A
  pure a s = (ok a, s)

  abbrev pub raise : E → Exec S E A
  raise e s = (err e, s)

infixl 5 ◌>>=◌ ◌>>◌
abbrev pub ◌>>=◌ : {S E A B : Type 0} → Exec S E A → (A → Exec S E B) → Exec S E B
◌>>=◌ m f s = let (r, s') = m s in elim r [ ok a ↦ f a s' | err e ↦ (err e, s') ]

abbrev pub ◌>>◌ : {S E A B : Type 0} → Exec S E A → Exec S E B → Exec S E B
m >> k = m >>= λ _. k

module _ {S E A B : Type 0} where
  continue-eq-ok :
      (r : Result E A) (f : A → Exec S E B) (t : S) {b : B} {s' : S}
      → (elim r [ ok a ↦ f a t | err e ↦ (err e, t) ]) ≡ (ok b, s')
      → (a : A) × (r ≡ ok a) × (f a t ≡ (ok b, s'))
  continue-eq-ok (ok a) f t h = (a, refl, h)
  continue-eq-ok (err e) f t h = cc

  -- A call that ended in a value had a first part that did.
  pub >>=-eq-ok :
      (m : Exec S E A) (f : A → Exec S E B) (s : S) {b : B} {s' : S}
      → (m >>= f) s ≡ (ok b, s')
      → (a : A) × (t : S) × (m s ≡ (ok a, t)) × (f a t ≡ (ok b, s'))
  >>=-eq-ok m f s h =
      let (a, e, k) = continue-eq-ok (m s).0 f (m s).1 h in (a, (m s).1, λ i. (e i, (m s).1), k)

pub pure-eq :
    {S E A : Type 0} {a b : A} {s t : S}
    → pure {S = S} {E = E} {A = A} a s ≡ (ok b, t)
    → (a ≡ b) × (s ≡ t)
pure-eq {a = a0} h = (λ i. elim (h i).0 [ ok a ↦ a | err e ↦ a0 ], λ i. (h i).1)

pub Result-cases :
    {E A : Type 0} (r : Result E A) → ((a : A) × (r ≡ ok a)) ⊎ ((e : E) × (r ≡ err e))
Result-cases (ok a) = inl (a, refl)
Result-cases (err e) = inr (e, refl)

-- A result with the state beside it.
pub with_state : {S R : Type 0} (m : R × S) {r : R} → m.0 ≡ r → m ≡ (r, m.1)
with_state m e i = (e i, m.1)

-- A first part that returned hands its value on.
pub >>=-ok :
    {S E A B : Type 0} (m : Exec S E A) (f : A → Exec S E B) (s : S) {a : A} {t : S}
    → m s ≡ (ok a, t)
    → (m >>= f) s ≡ f a t
>>=-ok m f s h i = elim (h i).0 [ ok a ↦ f a (h i).1 | err e ↦ (err e, (h i).1) ]

-- A first part that failed is all there is.
pub >>=-err :
    {S E A B : Type 0} (m : Exec S E A) (f : A → Exec S E B) (s : S) {x : E} {t : S}
    → m s ≡ (err x, t)
    → (m >>= f) s ≡ (err x, t)
>>=-err m f s h i = elim (h i).0 [ ok a ↦ f a (h i).1 | err e ↦ (err e, (h i).1) ]

-- `status.Errorf(code, ...)` for the error of a call.
abbrev pub on_error : {E F A : Type 0} → (E → F) → Result E A → Result F A
on_error f (ok a) = ok a
on_error f (err e) = err (f e)

abbrev pub map_error : {S E F A : Type 0} → (E → F) → Exec S E A → Exec S F A
map_error f m s = let (r, s') = m s in (on_error f r, s')
