-- ===== src/Grpc/Invariants.antt =====
-- What the interceptors of pkg/grpcutil leave alone: an invariant that a call keeps, and the waiting
-- and the circuit breaker keep, the call of the connection keeps too.
use micromart.Prelude.{ℕ, zero, suc, Bool, true, false, Option, none, some, if◌then◌else◌}
use micromart.Prelude.Exec.{Result, ok, err, Exec, map_error, ◌>>◌}
use micromart.Prelude.Keeps.{Keeps, >>=-Keeps}
use micromart.Grpc.Status.{Code}
use micromart.Grpc.Retry.{
  BreakerError, Waits, after_attempt, attempts, retry_interceptor, circuit_breaker_interceptor,
  is_transient, wrap_error,
}
use micromart.Grpc.Client.{
  DialOptions, dial_with_resilience, with_breaker, with_retries, allowed, base_delay,
}

-- What is asked of Execute of a circuit breaker, if there is one.
abbrev pub BreakerKeeps :
    {S A : Type 0} → (S → Type 0) → Option (Exec S BreakerError A → Exec S BreakerError A) → Type 0
BreakerKeeps P none = Unit
BreakerKeeps {S} {A} P (some execute) =
    (m : Exec S BreakerError A) → Keeps P m → Keeps P (execute m)

module _ {S A : Type 0} (P : S → Type 0) where
  go_on_lem :
      (b : Bool) (again : Exec S Code A) (e : Code)
      → Keeps P again
      → (t : S) → P t
      → P (if b then again t else (err e, t)).1
  go_on_lem true again e h t p = h t p
  go_on_lem false again e h t p = p

  after_attempt-Keeps :
      (again : Exec S Code A)
      → Keeps P again
      → (r : Result Code A) (t : S) → P t
      → P (after_attempt again (r, t)).1
  after_attempt-Keeps again h (ok a) t p = p
  after_attempt-Keeps again h (err e) t p = go_on_lem (is_transient e) again e h t p

  attempts-Keeps :
      (wait : Waits S) (invoke : Exec S Code A)
      → ((n : ℕ) → Keeps P (wait n))
      → Keeps P invoke
      → (attempt n : ℕ) → Keeps P (attempts wait invoke attempt n)
  unfolding attempts
  attempts-Keeps wait invoke waits h attempt zero s k = h s k
  attempts-Keeps wait invoke waits h attempt (suc n) s k =
      after_attempt-Keeps (wait attempt >> attempts wait invoke (suc attempt) n)
        (>>=-Keeps P (wait attempt) (λ _. attempts wait invoke (suc attempt) n) (waits attempt)
          (λ _. attempts-Keeps wait invoke waits h (suc attempt) n))
        (invoke s).0 (invoke s).1 (h s k)

  with_breaker-Keeps :
      (has_logger : Bool) (breaker : Option (Exec S BreakerError A → Exec S BreakerError A))
      (invoke : Exec S Code A)
      → BreakerKeeps P breaker
      → Keeps P invoke
      → Keeps P (with_breaker has_logger breaker invoke)
  unfolding circuit_breaker_interceptor
  with_breaker-Keeps true (some execute) invoke b h = b (map_error wrap_error invoke) h
  with_breaker-Keeps true none invoke b h = h
  with_breaker-Keeps false breaker invoke b h = h

  with_retries-Keeps :
      (wait : ℕ → Waits S) (delay n : ℕ) (invoke : Exec S Code A)
      → ((d n : ℕ) → Keeps P (wait d n))
      → Keeps P invoke
      → Keeps P (with_retries wait delay n invoke)
  unfolding retry_interceptor
  with_retries-Keeps wait delay zero invoke waits h = h
  with_retries-Keeps wait delay (suc n) invoke waits h =
      attempts-Keeps (wait (base_delay delay)) invoke (waits (base_delay delay)) h 0 (suc n)

  pub dial_with_resilience-Keeps :
      (opts : DialOptions S A) (wait : ℕ → Waits S) (invoke : Exec S Code A)
      → BreakerKeeps P opts.circuit_breaker
      → ((d n : ℕ) → Keeps P (wait d n))
      → Keeps P invoke
      → Keeps P (dial_with_resilience opts wait invoke)
  unfolding dial_with_resilience
  dial_with_resilience-Keeps opts wait invoke b waits h =
      with_retries-Keeps wait opts.retry_base_delay (allowed opts.has_logger opts.max_retries)
        (with_breaker opts.has_logger opts.circuit_breaker invoke) waits
        (with_breaker-Keeps opts.has_logger opts.circuit_breaker invoke b h)
