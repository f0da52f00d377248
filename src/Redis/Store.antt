-- ===== src/Redis/Store.antt =====
-- The calls of go-redis that pkg/redis makes, on a remote state. go-redis is not part of the
-- repository: its client is a parameter, with what the code relies on as named hypotheses.
use micromart.Prelude.{ℕ, String, ◌≡◌}
use micromart.Prelude.Exec.{ok, Exec}

-- redis.Nil, which go-redis returns for a nil reply, or another error.
pub data RedisError : Type 0 where
  redis_nil failed : RedisError

-- rdb.SetArgs with Mode NX, Get, Set and Del, each with Result(). A duration is a number.
pub record Store (S : Type 0) : Type 0 where
  pub set_nx : String → String → ℕ → Exec S RedisError String
  pub get : String → Exec S RedisError String
  pub set : String → String → ℕ → Exec S RedisError String
  pub del : String → Exec S RedisError ℕ

-- Redis documents that SET answers with OK, or with nil where NX holds it back.
abbrev pub AnswersOk : {S : Type 0} → Store S → Type 0
AnswersOk {S} store =
    (key value : String) (ttl : ℕ) (s : S) (answer : String) (s' : S)
    → store.set_nx key value ttl s ≡ (ok answer, s')
    → answer ≡ "OK"

-- A GET behind a SET that was carried out, of the same key and before its TTL is over, reads what
-- was set.
abbrev pub ReadsBack : {S : Type 0} → Store S → Type 0
ReadsBack {S} store =
    (key value : String) (ttl : ℕ) (s : S) (answer : String) (s' : S)
    → store.set key value ttl s ≡ (ok answer, s')
    → (store.get key s').0 ≡ ok value
