-- ===== src/Process/Closing.antt =====
-- How often a program opens and closes a resource, and how it is counted through the parts of main.
use micromart.Prelude.{
  ℕ, ◌≡◌, ◌≢◌, refl, Bool, true, false, [], ◌∷◌, ◌==◌, ◌+◌, if◌then◌else◌, arith, String,
  Bool-cases, inl, inr,
}
use micromart.Prelude.Text.{is_empty}
use micromart.Prelude.Exec.{Result, ok, err, ◌>>=◌}
use micromart.Process.{
  Surroundings, Resource, number, opened, closed, Log, Stop, panicked, exited, Main, run_deferred,
  deferring, open_checked, close_after, using, must_get,
}

unfoldable pub opens : ℕ → Log → ℕ
opens k [] = 0
opens k (opened r ∷ log) = (if number r == k then 1 else 0) + opens k log
opens k (closed r ∷ log) = opens k log
opens k (e ∷ log) = opens k log

unfoldable pub closes : ℕ → Log → ℕ
closes k [] = 0
closes k (closed r ∷ log) = (if number r == k then 1 else 0) + closes k log
closes k (opened r ∷ log) = closes k log
closes k (e ∷ log) = closes k log

-- The resource numbered `k` is open `n` times.
abbrev pub IsOpened : ℕ → ℕ → Log → Type 0
IsOpened k n log = opens k log ≡ closes k log + n

-- The same at the end of a part of main; os.Exit leaves all closing to the operating system.
abbrev pub Leaves : {A : Type 0} → ℕ → ℕ → Result Stop A × Log → Type 0
Leaves k n (ok a, log) = IsOpened k n log
Leaves k n (err panicked, log) = IsOpened k n log
Leaves k n (err exited, log) = Unit

-- A part of main closes what it opens.
abbrev pub Balances : {A : Type 0} → ℕ → Main A → Type 0
Balances k m = (n : ℕ) (log : Log) → IsOpened k n log → Leaves k n (m log)

-- One more that is open.
abbrev pub one_of : Resource → ℕ → ℕ
one_of r k = if number r == k then 1 else 0

module _ (k : ℕ) where
  opened_lem :
      (r : Resource) (n : ℕ) (log : Log)
      → IsOpened k n log
      → IsOpened k (one_of r k + n) (opened r ∷ log)
  unfolding opens closes
  opened_lem r n log h = omega (arith, h)

  closed_lem :
      (r : Resource) (n : ℕ) (log : Log)
      → IsOpened k (one_of r k + n) log
      → IsOpened k n (closed r ∷ log)
  unfolding opens closes
  closed_lem r n log h = omega (arith, h)

  run_deferred-Leaves :
      (r : Resource) (n : ℕ) (x : Result Stop (Unit {0}) × Log)
      → Leaves k (one_of r k + n) x
      → Leaves k n (run_deferred (closed r) x)
  run_deferred-Leaves r n (ok a, log) h = closed_lem r n log h
  run_deferred-Leaves r n (err panicked, log) h = closed_lem r n log h
  run_deferred-Leaves r n (err exited, log) h = h

  -- The deferred close of what is open, after a part that closes what it opens.
  pub deferring-Leaves :
      (r : Resource) (rest : Main (Unit {0})) (n : ℕ) (log : Log)
      → Balances k rest
      → IsOpened k (one_of r k + n) log
      → Leaves k n (deferring (closed r) rest log)
  deferring-Leaves r rest n log h o = run_deferred-Leaves r n (rest log) (h _ log o)

  pub must_get-Balances :
      (env : Surroundings) (key : String) (rest : String → Main (Unit {0}))
      → ((value : String) → Balances k (rest value))
      → Balances k (must_get env key rest)
  unfolding must_get
  must_get-Balances env key rest h n log o = elim (Bool-cases (is_empty (env.getenv key))) [
    | inl missing ↦ rw missing o
    | inr given ↦ rw given (h (env.getenv key) n log o)
  ]

  -- A constructor with what main does after it: `check` must not fail where the resource counts.
  pub open_checked-Balances :
      (works check : Bool) (r : Resource) (rest : Bool → Main (Unit {0}))
      → (check ≡ false → number r ≢ k)
      → Balances k (rest false)
      → ((n : ℕ) (log : Log) → IsOpened k (one_of r k + n) log → Leaves k n (rest true log))
      → Balances k (open_checked works check r >>= rest)
  open_checked-Balances true true r rest c no_more more n log o = more n _ (opened_lem r n log o)
  open_checked-Balances true false r rest c no_more more n log o =
      no_more n _ (other_lem (c refl) (opened_lem r n log o))
    where
      other_lem :
          number r ≢ k
          → IsOpened k (one_of r k + n) (opened r ∷ log)
          → IsOpened k n (opened r ∷ log)
      other_lem d h = ground (arith, h)
  open_checked-Balances false check r rest c no_more more n log o = no_more n log o

  -- A constructor, the return on its error, and the deferred close.
  pub using-Balances :
      (works check : Bool) (r : Resource) (rest : Main (Unit {0}))
      → (check ≡ false → number r ≢ k)
      → Balances k rest
      → Balances k (using (open_checked works check r) r rest)
  using-Balances works check r rest c h =
      open_checked-Balances works check r (close_after r rest) c (λ n log o. o)
        (λ n log. deferring-Leaves r rest n log h)
