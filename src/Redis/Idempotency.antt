-- ===== src/Redis/Idempotency.antt =====
-- pkg/redis/idempotency.go, as the cache that the order server is built with; protojson is an
-- argument.
use micromart.Prelude.{ℕ, String, Option}
use micromart.Prelude.Text.{append}
use micromart.Prelude.Exec.{Result, ok, err, Exec}
use micromart.Redis.Store.{Store, RedisError, redis_nil}
use micromart.Order.Messages.{OrderMessage}
use micromart.Order.Server.{IdempotencyCache}

abbrev pub idempotency_key : String → String
idempotency_key key = append "idempotency:" key

-- redis.Nil is no error: nothing is cached.
abbrev pub cached_value : Result RedisError String → Result Unit String
cached_value (ok val) = ok val
cached_value (err redis_nil) = ok ""
cached_value (err _) = err tt

abbrev pub set_answer : Result RedisError String → Result Unit Unit
set_answer (ok _) = ok tt
set_answer (err e) = err tt

module _ {S : Type 0} (store : Store S) where
  -- (c *Client) GetIdempotencyResult
  unfoldable pub get_idempotency_result : String → Exec S Unit String
  get_idempotency_result key s =
      let (r, s') = store.get (idempotency_key key) s in (cached_value r, s')

  -- (c *Client) SetIdempotencyResult
  unfoldable pub set_idempotency_result : String → String → ℕ → Exec S Unit Unit
  set_idempotency_result key result ttl s =
      let (r, s') = store.set (idempotency_key key) result ttl s in (set_answer r, s')

  -- The cache with the 24 hours, in seconds, that the order server asks for.
  unfoldable pub redis_cache :
      (String → Option OrderMessage) → (OrderMessage → Option String) → IdempotencyCache S
  redis_cache unmarshal marshal = record {
    get_result = get_idempotency_result;
    set_result = λ key result. set_idempotency_result key result 86400;
    unmarshal = unmarshal;
    marshal = marshal;
  }
