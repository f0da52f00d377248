-- ===== src/Redis/Laws.antt =====
-- What LockWithRetry comes to.
use micromart.Prelude.{ℕ, zero, suc, String, ◌≡◌, refl}
use micromart.Prelude.Int.{pos}
use micromart.Prelude.Text.{append}
use micromart.Prelude.Exec.{Result, ok, err, Exec, raise, with_state}
use micromart.Redis.Store.{Store, RedisError, AnswersOk}
use micromart.Redis.Lock.{
  LockError, Release, lock, answered, after_lock, lock_attempts, lock_with_retry,
}

module _ {S : Type 0} (store : Store S) (wait : Exec S LockError Unit) (key : String)
    (ttl : ℕ) where
  never_again :
      (n : ℕ) (again : Exec S LockError (Release S)) (lock_key : String)
      (r : Result RedisError String) (s : S)
      → ((answer : String) → r ≡ ok answer → answer ≡ "OK")
      → after_lock store wait key ttl n again (answered store lock_key (r, s))
        ≡ answered store lock_key (r, s)
  never_again n again lock_key (err e) s h = refl
  never_again n again lock_key (ok answer) s h = rw (h answer refl) refl

  lock_stays :
      AnswersOk store
      → (n : ℕ) (again : Exec S LockError (Release S)) (s : S)
      → after_lock store wait key ttl n again (lock store key ttl s) ≡ lock store key ttl s
  unfolding lock
  lock_stays h n again s =
      let called = store.set_nx (append "lock:" key) "1" ttl s in
      never_again n again (append "lock:" key) called.0 called.1
        λ answer e. h (append "lock:" key) "1" ttl s answer called.1 (with_state called e)

  -- With Redis answering SET NX with OK or with nil, LockWithRetry is one call of Lock, however many
  -- retries it is allowed: a lock that is held is reported as a failure of Redis, and not tried
  -- again.
  pub lock_with_retry-once :
      AnswersOk store
      → (max_retries : ℕ) (s : S)
      → lock_with_retry store wait key ttl (pos max_retries) s ≡ lock store key ttl s
  unfolding lock_with_retry lock_attempts
  lock_with_retry-once h zero s = lock_stays h zero (raise LockError.lock_not_acquired) s
  lock_with_retry-once h (suc n) s = lock_stays h (suc n) (lock_attempts store wait key ttl n) s
