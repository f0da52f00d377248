-- ===== src/Grpc/Client.antt =====
-- pkg/grpcutil/client.go, DialWithResilience: the interceptors that a connection gets.
use mathlib.Core.Path.{subst}
use micromart.Prelude.{
  ℕ, zero, suc, ◌≡◌, refl, Bool, true, false, Option, none, some, ◌==◌, sym, if◌then◌else◌,
}
use micromart.Prelude.Int.{ℤ, pos}
use micromart.Prelude.Exec.{Exec, pure, map_error}
use micromart.Grpc.Status.{Code}
use micromart.Grpc.Retry.{
  BreakerError, Waits, wrap_error, attempts, retry_interceptor, circuit_breaker_interceptor,
}
use micromart.Grpc.Retried.{Retried, retry_interceptor-Retried, circuit_breaker_interceptor-closed}

-- DialOptions, with Execute of the circuit breaker if there is one. Times are in nanoseconds.
pub record DialOptions (S A : Type 0) : Type 0 where
  pub circuit_breaker : Option (Exec S BreakerError A → Exec S BreakerError A)
  pub max_retries : ℤ
  pub retry_base_delay : ℕ
  pub has_logger : Bool

-- 100 * time.Millisecond, where no delay is given.
abbrev pub base_delay : ℕ → ℕ
base_delay given = if given == 0 then 100000000 else given

-- The retries that the options allow: none without a logger.
abbrev pub allowed : Bool → ℤ → ℕ
allowed true (pos n) = n
allowed _ _ = 0

module _ {S A : Type 0} where
  abbrev pub with_retries : (ℕ → Waits S) → ℕ → ℕ → Exec S Code A → Exec S Code A
  with_retries wait delay zero invoke = invoke
  with_retries wait delay (suc n) invoke =
      retry_interceptor (suc n) (wait (base_delay delay)) invoke

  abbrev pub with_breaker :
      Bool → Option (Exec S BreakerError A → Exec S BreakerError A) → Exec S Code A → Exec S Code A
  with_breaker true (some execute) invoke = circuit_breaker_interceptor execute invoke
  with_breaker _ _ invoke = invoke

  -- A call of the connection: the retries are outside, the circuit breaker inside.
  unfoldable pub dial_with_resilience :
      DialOptions S A → (ℕ → Waits S) → Exec S Code A → Exec S Code A
  dial_with_resilience opts wait invoke =
      with_retries wait opts.retry_base_delay (allowed opts.has_logger opts.max_retries)
        (with_breaker opts.has_logger opts.circuit_breaker invoke)

  with_breaker-closed :
      (has_logger : Bool) (breaker : Option (Exec S BreakerError A → Exec S BreakerError A))
      (invoke : Exec S Code A)
      → ((execute : Exec S BreakerError A → Exec S BreakerError A) (s : S)
          → breaker ≡ some execute
          → execute (map_error wrap_error invoke) s ≡ map_error wrap_error invoke s)
      → with_breaker has_logger breaker invoke ≡ invoke
  with_breaker-closed true (some execute) invoke closed =
      λ i s. circuit_breaker_interceptor-closed execute invoke s (closed execute s refl) i
  with_breaker-closed true none invoke closed = refl
  with_breaker-closed false breaker invoke closed = refl

  with_retries-Retried :
      (n delay : ℕ) (invoke : Exec S Code A) (s : S)
      → Retried invoke n s (with_retries (λ _ _. pure tt) delay n invoke s)
  unfolding retry_interceptor attempts
  with_retries-Retried zero delay invoke s = retry_interceptor-Retried 0 invoke s
  with_retries-Retried (suc n) delay invoke s = retry_interceptor-Retried (suc n) invoke s

  -- A call of a connection with a circuit breaker that lets calls through, and with waiting that is
  -- never cut short, is retried as RetryInterceptor retries it, as often as the options allow; with
  -- no logger or no retries it is one call.
  pub dial_with_resilience-Retried :
      (opts : DialOptions S A) (invoke : Exec S Code A) (s : S)
      → ((execute : Exec S BreakerError A → Exec S BreakerError A) (s : S)
          → opts.circuit_breaker ≡ some execute
          → execute (map_error wrap_error invoke) s ≡ map_error wrap_error invoke s)
      → Retried invoke
          (allowed opts.has_logger opts.max_retries)
          s
          (dial_with_resilience opts (λ _ _. pure tt) invoke s)
  unfolding dial_with_resilience
  dial_with_resilience-Retried opts invoke s closed =
      subst
        (λ (call : Exec S Code A). Retried invoke (allowed opts.has_logger opts.max_retries) s (
          with_retries (λ _ _. pure tt) opts.retry_base_delay
            (allowed opts.has_logger opts.max_retries) call s))
        (sym (with_breaker-closed opts.has_logger opts.circuit_breaker invoke closed))
        (with_retries-Retried (allowed opts.has_logger opts.max_retries) opts.retry_base_delay
          invoke s)
