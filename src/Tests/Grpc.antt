-- ===== src/Tests/Grpc.antt =====
-- The interceptors, on a service that answers the third call.
use micromart.Prelude.{◌/◌, ◌≤◌, ◌+◌, ◌*◌, ◌^◌, ℕ, zero, suc, ◌≡◌, true, some, none, [], ◌∷◌, arith}
use micromart.Prelude.Exec.{ok, err, Exec, pure}
use micromart.Prelude.Int.{pos}
use micromart.Grpc.Status.{Code, unavailable, internal}
use micromart.Grpc.Client.{DialOptions, dial_with_resilience, dial_with_resilience-Retried}
use micromart.Grpc.Backoff.{Timed, wait_backoff, timed, ten_seconds, retry_interceptor-waited}
use micromart.Grpc.Interceptors.{
  UnaryHandler, Observed, answered, panicked, handler_panic, new_server_with_metrics,
}
use micromart.Grpc.Observations.{new_server_with_metrics-eq}
use micromart.Grpc.Retry.{retry_interceptor}
use micromart.Grpc.Retried.{Retried, retry_interceptor-Retried}

-- The state is the number of calls that are going to fail.
abbrev third_time : Exec ℕ Code ℕ
third_time zero = (ok 7, 0)
third_time (suc n) = (err unavailable, n)

retry_interceptor-Retried_example :
    Retried third_time 3 2 (retry_interceptor 3 (λ _. pure tt) third_time 2)
retry_interceptor-Retried_example = retry_interceptor-Retried 3 third_time 2

abbrev third_time_options : DialOptions ℕ ℕ
third_time_options = record {
  circuit_breaker = some (λ m. m);
  max_retries = pos 3;
  retry_base_delay = 0;
  has_logger = true;
}

dial_with_resilience-Retried_example :
    Retried third_time 3 2 (dial_with_resilience third_time_options (λ _ _. pure tt) third_time 2)
dial_with_resilience-Retried_example =
    dial_with_resilience-Retried third_time_options third_time 2
      (λ execute s same. ground (arith, same))

-- A handler that panics when there is nothing left.
abbrev fragile : UnaryHandler ℕ ℕ
fragile zero = (panicked, 0)
fragile (suc n) = (answered (ok 7), n)

abbrev idle : Observed ℕ
idle = record { service = 0; log = []; counted = []; spans = [] }

new_server_with_metrics-eq_example : new_server_with_metrics "Get" fragile idle ≡ (
  answered (err internal),
  record { service = 0; log = handler_panic "Get" ∷ []; counted = []; spans = ("Get", none) ∷ [] },
)
new_server_with_metrics-eq_example = new_server_with_metrics-eq "Get" fragile idle

-- Half of each delay is waited, and the third attempt succeeds.
half_le : (attempt n : ℕ) → n / 2 ≤ n
half_le attempt n = omega arith

abbrev just_now : Timed ℕ
just_now = record { inner = 2; waited = 0 }

retry_interceptor-waited_example :
    let wait = wait_backoff (λ attempt n. n / 2) 100000000 in
    let after = (retry_interceptor 3 wait (timed third_time) just_now).1.waited in
    (after + 100000000 ≤ 0 + 100000000 * 2 ^ 3) × (after ≤ 0 + 3 * ten_seconds)
retry_interceptor-waited_example =
    retry_interceptor-waited (λ attempt n. n / 2) half_le 100000000 third_time 3 just_now
