-- ===== src/Tests/Redis.antt =====
-- The lock and the cache over a Redis that holds one value.
use micromart.Prelude.{String, ◌≡◌, refl, sym, ap, true, Option, none, some, [], arith}
use micromart.Prelude.Int.{pos}
use micromart.Prelude.Exec.{Result, ok, err, pure, raise}
use micromart.Grpc.Status.{unavailable}
use micromart.Grpc.Inventory.{InventoryClient}
use micromart.Order.System.{System}
use micromart.Order.Saga.{new_orchestrator}
use micromart.Order.Messages.{CreateOrderRequest, OrderMessage, StatusMessage}
use micromart.Order.Server.{create_order}
use micromart.Redis.Store.{Store, RedisError, redis_nil, AnswersOk, ReadsBack}
use micromart.Redis.Lock.{lock, lock_with_retry}
use micromart.Redis.Idempotency.{set_idempotency_result}
use micromart.Redis.Laws.{lock_with_retry-once}
use micromart.Redis.Repeated.{cached_server, create_order_repeated}
use micromart.Tests.Fixtures.{digits, print_id, no_orders, two_lamps}

abbrev put_if_free : String → Option String → Result RedisError String × Option String
put_if_free value none = (ok "OK", some value)
put_if_free value (some held) = (err redis_nil, some held)

abbrev read : Option String → Result RedisError String
read none = err redis_nil
read (some value) = ok value

abbrev cell : Store (Option String)
cell = record {
  set_nx = λ key value ttl s. put_if_free value s;
  get = λ key s. (read s, s);
  set = λ key value ttl s. (ok "OK", some value);
  del = λ key s. (ok 1, none);
}

cell-AnswersOk : AnswersOk cell
cell-AnswersOk key value ttl none answer s' h = ground (arith, h)
cell-AnswersOk key value ttl (some held) answer s' h = ground (arith, h)

cell-ReadsBack : ReadsBack cell
cell-ReadsBack key value ttl s answer s' h = ap (λ w. read w.1) (sym h)

lock_with_retry-once_example :
    lock_with_retry cell (pure tt) "stock" 5 (pos 3) (some "1") ≡ lock cell "stock" 5 (some "1")
lock_with_retry-once_example =
    lock_with_retry-once cell (pure tt) "stock" 5 cell-AnswersOk 3 (some "1")

-- An inventory service that does not answer.
abbrev silent : InventoryClient (Option String)
silent = record {
  get_product = λ id. raise unavailable;
  reserve_stock = λ order_id items. raise unavailable;
  release_stock = λ id. raise unavailable;
  decrement_stock = λ id. raise unavailable;
}

abbrev stored_response : OrderMessage
stored_response = record {
  id = "0";
  customer_id = "ann";
  status = StatusMessage.completed;
  items = [];
  total_cents = pos 3000;
  created_at = 7;
  updated_at = 7;
}

abbrev request : CreateOrderRequest
request = record { customer_id = "ann"; idempotency_key = "first"; items = two_lamps }

abbrev remembering : Option String → System (Option String)
remembering value = record { db = no_orders; remote = value; events = [] }

create_order_repeated_example :
    let unmarshal : String → Option OrderMessage = λ text. some stored_response in
    let marshal : OrderMessage → Option String = λ resp. some "text" in
    let (r, s) =
      create_order
        (cached_server cell unmarshal marshal silent (new_orchestrator silent true))
        request
        (remembering (some "text")) in
    (r ≡ ok stored_response) × (s.remote ≡ some "text") × (s.db ≡ no_orders) × (s.events ≡ [])
unfolding set_idempotency_result
create_order_repeated_example =
    create_order_repeated cell (λ text. some stored_response) (λ resp. some "text") silent
      (new_orchestrator silent true) request (record { product_id = print_id 3; quantity = pos 2 })
      [] stored_response "text" (remembering none) (remembering (some "text")) cell-ReadsBack refl
      refl refl refl refl refl
