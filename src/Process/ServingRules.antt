-- ===== src/Process/ServingRules.antt =====
-- How the condition under which a program serves is found through the parts of main.
use micromart.Prelude.{
  ap, if◌then◌else◌, ◌∙◌, String, ◌≡◌, refl, Bool, true, false, [], ◌∷◌, ◌&&◌, ◌||◌, not, arith,
  Bool-cases, inl, inr,
}
use micromart.Prelude.Text.{is_empty}
use micromart.Prelude.Exec.{Result, ok, err, ◌>>=◌}
use micromart.Process.{
  Surroundings, Resource, opened, closed, served, Log, Stop, panicked, exited, Main, run_deferred,
  deferring, open_checked, close_after, using, must_get,
}

unfoldable pub has_served : Log → Bool
has_served [] = false
has_served (served ∷ log) = true
has_served (e ∷ log) = has_served log

abbrev pub is_set : Surroundings → String → Bool
is_set env key = not (is_empty (env.getenv key))

-- A part of main serves under the condition `b`.
abbrev pub Serves : {A : Type 0} → Main A → Bool → Type 0
Serves m b = (log : Log) → has_served (m log).1 ≡ has_served log || b

pub idle_lem : (b : Bool) → b ≡ b || false
idle_lem b = ground arith

pub true_lem : (b : Bool) → true ≡ b || true
true_lem b = ground arith

run_deferred-has_served :
    (r : Resource) (x : Result Stop (Unit {0}) × Log)
    → has_served (run_deferred (closed r) x).1 ≡ has_served x.1
unfolding has_served
run_deferred-has_served r (ok a, log) = refl
run_deferred-has_served r (err panicked, log) = refl
run_deferred-has_served r (err exited, log) = refl

pub deferring-Serves :
    (r : Resource) (rest : Main (Unit {0})) (b : Bool)
    → Serves rest b
    → Serves (deferring (closed r) rest) b
deferring-Serves r rest b h log = run_deferred-has_served r (rest log) ∙ h log

open_checked-Serves :
    (works check : Bool) (r : Resource) (rest : Bool → Main (Unit {0})) (b c : Bool)
    → Serves (rest true) b
    → Serves (rest false) c
    → Serves (open_checked works check r >>= rest) (if works && check then b else c)
unfolding has_served
open_checked-Serves true true r rest b c h k log = h (opened r ∷ log)
open_checked-Serves true false r rest b c h k log = k (opened r ∷ log)
open_checked-Serves false check r rest b c h k log = k log

pub using-Serves :
    (works check : Bool) (r : Resource) (rest : Main (Unit {0})) (b : Bool)
    → Serves rest b
    → Serves (using (open_checked works check r) r rest) (works && (check && b))
using-Serves works check r rest b h log =
    open_checked-Serves works check r (close_after r rest) b false (deferring-Serves r rest b h)
      (λ log. idle_lem (has_served log)) log
    ∙ ap (λ x. has_served log || x) (cond_lem works check b)
  where
    cond_lem : (x y b : Bool) → (if x && y then b else false) ≡ x && (y && b)
    cond_lem x y b = ground arith

-- An optional resource makes no difference.
pub either_Serves :
    (works check : Bool) (r : Resource) (rest : Bool → Main (Unit {0})) (b : Bool)
    → Serves (rest true) b
    → Serves (rest false) b
    → Serves (open_checked works check r >>= rest) b
either_Serves works check r rest b h k log =
    open_checked-Serves works check r rest b b h k log
    ∙ ap (λ x. has_served log || x) (same_lem (works && check) b)
  where
    same_lem : (x b : Bool) → (if x then b else b) ≡ b
    same_lem x b = ground arith

pub must_get-Serves :
    (env : Surroundings) (key : String) (rest : String → Main (Unit {0})) (b : Bool)
    → Serves (rest (env.getenv key)) b
    → Serves (must_get env key rest) (is_set env key && b)
unfolding must_get
must_get-Serves env key rest b h log = elim (Bool-cases (is_empty (env.getenv key))) [
  | inl missing ↦ rw missing (idle_lem (has_served log))
  | inr given ↦ rw given (h log)
]
