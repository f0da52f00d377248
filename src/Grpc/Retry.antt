-- ===== src/Grpc/Retry.antt =====
-- pkg/grpcutil/retry.go and circuit_breaker.go: the two interceptors, and how
-- DialWithResilience of pkg/grpcutil/client.go puts them together. Log lines are left out.
use micromart.Prelude.{ℕ, zero, suc, Bool, true, false, if◌then◌else◌}
use micromart.Prelude.Exec.{Result, ok, err, Exec, map_error, ◌>>◌}
use micromart.Grpc.Status.{Code, unavailable, deadline_exceeded, resource_exhausted, aborted}

unfoldable pub is_transient : Code → Bool
is_transient unavailable = true
is_transient deadline_exceeded = true
is_transient resource_exhausted = true
is_transient aborted = true
is_transient _ = false

-- What Execute of gobreaker can return: an error of the call, wrapped if it is not transient, or
-- its own refusals.
pub data BreakerError : Type 0 where
  failed_call non_transient : Code → BreakerError
  open_state too_many_requests : BreakerError

abbrev pub wrap_error : Code → BreakerError
wrap_error e = if is_transient e then failed_call e else non_transient e

abbrev pub unwrap_error : BreakerError → Code
unwrap_error (failed_call e) = e
unwrap_error (non_transient e) = e
unwrap_error open_state = unavailable
unwrap_error too_many_requests = unavailable

-- Waiting for the delay of an attempt, which ends early with an error if the context is done.
abbrev pub Waits : Type 0 → Type 0
Waits S = ℕ → Exec S Code (Unit {0})

module _ {S A : Type 0} where
  -- After an attempt that failed, with `n` more allowed.
  abbrev pub go_on : Exec S Code A → Code → Exec S Code A
  go_on again e s = if is_transient e then again s else (err e, s)

  abbrev pub after_attempt : Exec S Code A → Result Code A × S → Result Code A × S
  after_attempt again (ok a, s) = (ok a, s)
  after_attempt again (err e, s) = go_on again e s

  -- The loop: `n` is maxRetries - attempt.
  unfoldable pub attempts : Waits S → Exec S Code A → ℕ → ℕ → Exec S Code A
  attempts wait invoke attempt zero s = invoke s
  attempts wait invoke attempt (suc n) s =
      after_attempt (wait attempt >> attempts wait invoke (suc attempt) n) (invoke s)

  -- RetryInterceptor
  unfoldable pub retry_interceptor : ℕ → Waits S → Exec S Code A → Exec S Code A
  retry_interceptor max_retries wait invoke = attempts wait invoke 0 max_retries

  -- CircuitBreakerInterceptor, with cb.Execute as an argument.
  unfoldable pub circuit_breaker_interceptor :
      (Exec S BreakerError A → Exec S BreakerError A) → Exec S Code A → Exec S Code A
  circuit_breaker_interceptor execute invoke =
      map_error unwrap_error (execute (map_error wrap_error invoke))
