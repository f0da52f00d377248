-- ===== src/Grpc/Backoff.antt =====
-- pkg/grpcutil/retry.go, backoffWithJitter: how long RetryInterceptor waits. The random factor is an
-- argument, a scaling that makes no number larger. Times are in nanoseconds.
use native.Mathlib.Nat.{two-pow-succ, mul-add}
use micromart.Prelude.{
  ap, ◌∙◌, ℕ, zero, suc, ◌+◌, ◌*◌, ◌^◌, ◌≤◌, ◌≡◌, Bool, true, false, arith, ltb, if◌then◌else◌,
}
use micromart.Prelude.Exec.{Result, ok, err, Exec, ◌>>◌}
use micromart.Grpc.Status.{Code}
use micromart.Grpc.Retry.{Waits, is_transient, after_attempt, attempts, retry_interceptor}

-- float64(10*time.Second)
abbrev pub ten_seconds : ℕ
ten_seconds = 10000000000

-- The upper end of the random delay: it doubles with each attempt, up to ten seconds.
unfoldable pub max_delay : ℕ → ℕ → ℕ
max_delay base attempt =
    if ltb ten_seconds (base * 2 ^ attempt) then ten_seconds else base * 2 ^ attempt

-- backoffWithJitter, with what rand.Float64 makes of the delay of an attempt.
unfoldable pub backoff_with_jitter : (ℕ → ℕ → ℕ) → ℕ → ℕ → ℕ
backoff_with_jitter jitter base attempt = jitter attempt (max_delay base attempt)

-- A remote side with the time that was spent on waiting.
pub record Timed (S : Type 0) : Type 0 where
  pub inner : S
  pub waited : ℕ

module _ {S : Type 0} where
  -- time.After(delay)
  abbrev pub wait_backoff : (ℕ → ℕ → ℕ) → ℕ → Waits (Timed S)
  wait_backoff jitter base attempt s =
      (ok tt, record s { waited = s.waited + backoff_with_jitter jitter base attempt })

  abbrev pub timed : {A : Type 0} → Exec S Code A → Exec (Timed S) Code A
  timed invoke s = let (r, inner') = invoke s.inner in (r, record s { inner = inner' })

module _ (jitter : ℕ → ℕ → ℕ) (smaller : (attempt n : ℕ) → jitter attempt n ≤ n) (base : ℕ) where
  max_delay_capped :
      (attempt : ℕ)
      → (max_delay base attempt ≤ base * 2 ^ attempt) × (max_delay base attempt ≤ ten_seconds)
  unfolding max_delay
  max_delay_capped attempt = ground arith

  -- base * 2 ^ attempt
  abbrev upper : ℕ → ℕ
  upper attempt = base * 2 ^ attempt

  upper_doubles : (a : ℕ) → upper (suc a) ≡ upper a + upper a
  upper_doubles a = ap (λ x. base * x) (two-pow-succ a) ∙ mul-add base (2 ^ a) (2 ^ a)

  upper_shift : (a n : ℕ) → upper (a + suc n) ≡ upper (suc a + n)
  upper_shift a n = let same : a + suc n ≡ suc a + n = omega arith in ap upper same

  upper_mono : (a n : ℕ) → upper a ≤ upper (a + n)
  upper_mono a zero = let same : a + 0 ≡ a = omega arith in rw same (omega arith)
  upper_mono a (suc n) = omega (arith, upper_shift a n, upper_doubles a, upper_mono (suc a) n)

  module _ {S A : Type 0} (invoke : Exec S Code A) where
    -- The time that `n` more attempts after number `attempt` may wait.
    abbrev WaitsLittle : ℕ → ℕ → ℕ → Result Code A × Timed S → Type 0
    WaitsLittle attempt n waited x =
        (x.1.waited + upper attempt ≤ waited + upper (attempt + n))
        × (x.1.waited ≤ waited + n * ten_seconds)

    stopped_lem :
        (attempt n : ℕ) (r : Result Code A) (s : Timed S) → WaitsLittle attempt n s.waited (r, s)
    stopped_lem attempt n r s = (omega (arith, upper_mono attempt n), omega arith)

    go_on-WaitsLittle :
        (transient : Bool) (again : Exec (Timed S) Code A) (attempt n : ℕ) (e : Code) (s : Timed S)
        → ((t : Timed S) → WaitsLittle (suc attempt) n t.waited (again t))
        → WaitsLittle attempt
            (suc n)
            s.waited
            (if transient then (wait_backoff jitter base attempt >> again) s else (err e, s))
    unfolding backoff_with_jitter
    go_on-WaitsLittle true again attempt n e s h =
        let delay = jitter attempt (max_delay base attempt) in
        let (low, high) = h (record s { waited = s.waited + delay }) in
        let bound = smaller attempt (max_delay base attempt) in
        let (capped, ten) = max_delay_capped attempt in
        (
          omega (arith, low, bound, capped, upper_doubles attempt, upper_shift attempt n),
          omega (arith, high, bound, ten),
        )
    go_on-WaitsLittle false again attempt n e s h = stopped_lem attempt (suc n) (err e) s

    after_attempt-WaitsLittle :
        (again : Exec (Timed S) Code A) (attempt n : ℕ) (r : Result Code A) (s : Timed S)
        → ((t : Timed S) → WaitsLittle (suc attempt) n t.waited (again t))
        → WaitsLittle attempt
            (suc n)
            s.waited
            (after_attempt (wait_backoff jitter base attempt >> again) (r, s))
    after_attempt-WaitsLittle again attempt n (ok a) s h = stopped_lem attempt (suc n) (ok a) s
    after_attempt-WaitsLittle again attempt n (err e) s h =
        go_on-WaitsLittle (is_transient e) again attempt n e s h

    attempts-WaitsLittle :
        (attempt n : ℕ) (s : Timed S)
        → WaitsLittle attempt n s.waited
            (attempts (wait_backoff jitter base) (timed invoke) attempt n s)
    unfolding attempts
    attempts-WaitsLittle attempt zero s =
        stopped_lem attempt zero (timed invoke s).0 (timed invoke s).1
    attempts-WaitsLittle attempt (suc n) s =
        after_attempt-WaitsLittle
          (attempts (wait_backoff jitter base) (timed invoke) (suc attempt) n) attempt n _ _
          (attempts-WaitsLittle (suc attempt) n)

    -- However a call goes, RetryInterceptor with `n` retries waits between them for at most
    -- base * (2 ^ n - 1) in all, and for at most ten seconds for each, provided that the random
    -- factor makes no delay longer. The first is stated without subtraction.
    pub retry_interceptor-waited :
        (n : ℕ) (s : Timed S)
        → let after = (retry_interceptor n (wait_backoff jitter base) (timed invoke) s).1.waited in
          (after + base ≤ s.waited + base * 2 ^ n) × (after ≤ s.waited + n * ten_seconds)
    unfolding retry_interceptor
    retry_interceptor-waited n s =
        let (low, high) = attempts-WaitsLittle 0 n s in
        let start : upper 0 ≡ base = omega arith in
        let count : 0 + n ≡ n = omega arith in (omega (arith, low, start, ap upper count), high)
