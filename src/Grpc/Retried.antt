-- ===== src/Grpc/Retried.antt =====
-- How a retried call ends, and what a circuit breaker lets through.
use mathlib.Core.Path.{subst}
use micromart.Prelude.{
  ℕ, zero, suc, ◌≤◌, ◌≡◌, refl, sym, ap, ◌∙◌, ◌⊎◌, inl, inr, true, false, arith, Bool-cases,
}
use micromart.Prelude.Exec.{Result, ok, err, Exec, pure, on_error, map_error, with_state}
use micromart.Grpc.Status.{Code}
use micromart.Grpc.Retry.{
  is_transient, BreakerError, wrap_error, unwrap_error, after_attempt, attempts, retry_interceptor,
  circuit_breaker_interceptor,
}

module _ {A : Type 0} where
  abbrev pub IsTransient : Result Code A → Type 0
  IsTransient r = (e : Code) × (r ≡ err e) × (is_transient e ≡ true)

  -- A call after which no other is made.
  abbrev pub IsLast : ℕ → ℕ → Result Code A → Type 0
  IsLast m max (ok a) = Unit
  IsLast m max (err e) = (is_transient e ≡ false) ⊎ (m ≡ max)

  IsLast-suc : (m max : ℕ) (r : Result Code A) → IsLast m max r → IsLast (suc m) (suc max) r
  IsLast-suc m max (ok a) l = tt
  IsLast-suc m max (err e) (inl n) = inl n
  IsLast-suc m max (err e) (inr same) = inr (ap suc same)

  at_once : (r : Result Code A) → IsLast 0 0 r
  at_once (ok a) = tt
  at_once (err e) = inr refl

module _ {S A : Type 0} where
  -- The state after `m` calls.
  abbrev pub after_calls : Exec S Code A → ℕ → S → S
  after_calls invoke zero s = s
  after_calls invoke (suc m) s = after_calls invoke m (invoke s).1

  -- The first `m` calls fail with a transient error.
  abbrev pub AllTransient : Exec S Code A → ℕ → S → Type 0
  AllTransient invoke zero s = Unit
  AllTransient invoke (suc m) s = IsTransient (invoke s).0 × AllTransient invoke m (invoke s).1

  -- How a retried call ends.
  pub record Retried (invoke : Exec S Code A) (max : ℕ) (s : S) (r : Result Code A × S)
      : Type 0 where
    pub failures : ℕ
    pub bounded : failures ≤ max
    pub transient : AllTransient invoke failures s
    pub answer : r ≡ invoke (after_calls invoke failures s)
    pub last : IsLast failures max (invoke (after_calls invoke failures s)).0

  stop_now :
      (invoke : Exec S Code A) (max : ℕ) (s : S)
      → IsLast 0 max (invoke s).0
      → Retried invoke max s (invoke s)
  stop_now invoke max s last = record {
    failures = 0;
    bounded = omega arith;
    transient = tt;
    answer = refl;
    last = last;
  }

  one_more :
      (invoke : Exec S Code A) (max : ℕ) (s : S) (r : Result Code A × S)
      → IsTransient (invoke s).0
      → Retried invoke max (invoke s).1 r
      → Retried invoke (suc max) s r
  one_more invoke max s r t more = record {
    failures = suc more.failures;
    bounded = omega (arith, more.bounded);
    transient = (t, more.transient);
    answer = more.answer;
    last = IsLast-suc more.failures max _ more.last;
  }

  module _ (invoke : Exec S Code A) (max : ℕ) (s : S) (again : Exec S Code A)
      (more : Retried invoke max (invoke s).1 (again (invoke s).1)) where
    after_attempt-Retried :
        (r : Result Code A)
        → (invoke s).0 ≡ r
        → Retried invoke (suc max) s (after_attempt again (r, (invoke s).1))
    after_attempt-Retried (ok a) same =
        subst (Retried invoke (suc max) s) (with_state (invoke s) same)
          (stop_now invoke (suc max) s (subst (IsLast 0 (suc max)) (sym same) tt))
    after_attempt-Retried (err e) same = elim (Bool-cases (is_transient e)) [
      | inl again_true ↦ rw again_true (one_more invoke max s _ (e, same, again_true) more)
      | inr stops ↦ rw stops (
          subst (Retried invoke (suc max) s) (with_state (invoke s) same)
            (stop_now invoke (suc max) s (subst (IsLast 0 (suc max)) (sym same) (inl stops))))
    ]

  attempts-Retried :
      (invoke : Exec S Code A) (attempt max : ℕ) (s : S)
      → Retried invoke max s (attempts (λ _. pure tt) invoke attempt max s)
  unfolding attempts
  attempts-Retried invoke attempt zero s = stop_now invoke 0 s (at_once (invoke s).0)
  attempts-Retried invoke attempt (suc max) s =
      after_attempt-Retried invoke max s (attempts (λ _. pure tt) invoke (suc attempt) max)
        (attempts-Retried invoke (suc attempt) max (invoke s).1) (invoke s).0 refl

  -- A retried call whose waiting is never cut short makes one call more than it has failures, at
  -- most maxRetries + 1; every call but the last failed with a transient error; the answer is that
  -- of the last call, which succeeded, or failed with an error that is not transient, or was the
  -- last one allowed.
  pub retry_interceptor-Retried :
      (max_retries : ℕ) (invoke : Exec S Code A) (s : S)
      → Retried invoke max_retries s (retry_interceptor max_retries (λ _. pure tt) invoke s)
  unfolding retry_interceptor
  retry_interceptor-Retried max_retries invoke s = attempts-Retried invoke 0 max_retries s

  -- A circuit breaker that lets a call through, and hands on what it returned, is invisible: the
  -- caller sees the same error, transient or not, and the same state.
  pub circuit_breaker_interceptor-closed :
      (execute : Exec S BreakerError A → Exec S BreakerError A) (invoke : Exec S Code A) (s : S)
      → execute (map_error wrap_error invoke) s ≡ map_error wrap_error invoke s
      → circuit_breaker_interceptor execute invoke s ≡ invoke s
  unfolding circuit_breaker_interceptor
  circuit_breaker_interceptor-closed execute invoke s closed =
      ap (λ (x : Result BreakerError A × S). (on_error unwrap_error x.0, x.1)) closed
      ∙ (λ i. (unwrapped (invoke s).0 i, (invoke s).1))
    where
      unwrapped : (r : Result Code A) → on_error unwrap_error (on_error wrap_error r) ≡ r
      unwrapped (ok a) = refl
      unwrapped (err e) = elim (Bool-cases (is_transient e)) [
        | inl transient ↦ rw transient refl
        | inr passed ↦ rw passed refl
      ]
