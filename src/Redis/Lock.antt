-- ===== src/Redis/Lock.antt =====
-- pkg/redis/distributed_locking.go. The call that releases a lock is what Lock returns; the wait
-- between two attempts, which ends early when the context is done, is an argument.
use micromart.Prelude.{ℕ, zero, suc, String, if◌then◌else◌}
use micromart.Prelude.Int.{ℤ, pos, negsuc}
use micromart.Prelude.Text.{str_eq, append}
use micromart.Prelude.Exec.{Result, ok, err, Exec, raise, ◌>>◌}
use micromart.Redis.Store.{Store, RedisError}

-- ErrLockNotAcquired, a wrapped error of Redis, or the context's.
pub data LockError : Type 0 where
  lock_not_acquired cancelled : LockError
  acquire_lock : RedisError → LockError

abbrev pub Release : Type 0 → Type 0
Release S = S → S

module _ {S : Type 0} (store : Store S) where
  abbrev pub release : String → Release S
  release lock_key s = (store.del lock_key s).1

  -- From the answer of SetArgs on.
  abbrev pub answered : String → Result RedisError String × S → Result LockError (Release S) × S
  answered lock_key (err e, s) = (err (acquire_lock e), s)
  answered lock_key (ok result, s) =
      if str_eq result "OK" then (ok (release lock_key), s) else (err lock_not_acquired, s)

  -- (c *Client) Lock
  unfoldable pub lock : String → ℕ → Exec S LockError (Release S)
  lock key ttl s = answered (append "lock:" key) (store.set_nx (append "lock:" key) "1" ttl s)

  module _ (wait : Exec S LockError Unit) (key : String) (ttl : ℕ) where
    abbrev pub not_last : ℕ → Exec S LockError (Release S) → Exec S LockError (Release S)
    not_last zero again = raise lock_not_acquired
    not_last (suc n) again = wait >> again

    abbrev pub after_lock :
        ℕ
        → Exec S LockError (Release S)
        → Result LockError (Release S) × S
        → Result LockError (Release S) × S
    after_lock n again (ok unlock, s) = (ok unlock, s)
    after_lock n again (err lock_not_acquired, s) = not_last n again s
    after_lock n again (err e, s) = (err e, s)

    -- The loop: `n` is maxRetries - i.
    unfoldable pub lock_attempts : ℕ → Exec S LockError (Release S)
    lock_attempts zero s = after_lock zero (raise lock_not_acquired) (lock key ttl s)
    lock_attempts (suc n) s = after_lock (suc n) (lock_attempts n) (lock key ttl s)

    -- (c *Client) LockWithRetry; with a negative count the loop is not entered.
    unfoldable pub lock_with_retry : ℤ → Exec S LockError (Release S)
    lock_with_retry (pos n) = lock_attempts n
    lock_with_retry (negsuc n) = raise lock_not_acquired
