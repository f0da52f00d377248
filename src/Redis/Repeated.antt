-- ===== src/Redis/Repeated.antt =====
-- The fast path of CreateOrder: a response that was cached is the answer to the request's repetition.
use micromart.Prelude.{String, ◌≡◌, refl, ap, sym, ◌∙◌, false, Option, some, List, ◌∷◌, arith}
use micromart.Prelude.Text.{is_empty}
use micromart.Prelude.Exec.{Result, ok, err, with_state, >>=-ok}
use micromart.Sql.{Uuids}
use micromart.Grpc.Inventory.{InventoryClient}
use micromart.Inventory.Stock.{StockItem}
use micromart.Order.System.{System}
use micromart.Order.Saga.{Orchestrator}
use micromart.Order.Messages.{CreateOrderRequest, OrderMessage}
use micromart.Order.Server.{
  Server, create_order, cached_response, read_cached, with_items_of, unless_cached,
}
use micromart.Redis.Store.{Store, ReadsBack}
use micromart.Redis.Idempotency.{
  redis_cache, idempotency_key, set_idempotency_result, get_idempotency_result, set_answer,
  cached_value,
}

module _ {S : Type 0} (store : Store S) (unmarshal : String → Option OrderMessage)
    (marshal : OrderMessage → Option String) (inventory_client : InventoryClient S)
    (saga : Orchestrator S) ⦃u : Uuids⦄ where
  abbrev pub cached_server : Server S
  cached_server = record {
    inventory_client = inventory_client;
    saga = saga;
    redis = some (redis_cache store unmarshal marshal);
  }

  set_answer-eq : (r : Result _ String) → set_answer r ≡ ok tt → (answer : String) × (r ≡ ok answer)
  set_answer-eq (ok answer) h = (answer, refl)
  set_answer-eq (err e) h = absurd (ground (arith, h))

  get_stored :
      (key text : String) (s s' : S)
      → ReadsBack store
      → set_idempotency_result store key text 86400 s ≡ (ok tt, s')
      → (get_idempotency_result store key s').0 ≡ ok text
  unfolding set_idempotency_result get_idempotency_result
  get_stored key text s s' reads h =
      let called = store.set (idempotency_key key) text 86400 s in
      let (answer, e) = set_answer-eq called.0 (ap (λ w. w.0) h) in
      let back : (store.get (idempotency_key key) called.1).0 ≡ ok text =
        reads (idempotency_key key) text 86400 s answer called.1 (with_state called e) in
      ap (λ w. cached_value (store.get (idempotency_key key) w).0) (sym (ap (λ w. w.1) h))
      ∙ ap cached_value back

  cached_response-stored :
      (key text : String) (resp : OrderMessage) (s' : System S)
      → is_empty key ≡ false
      → is_empty text ≡ false
      → unmarshal text ≡ some resp
      → (get_idempotency_result store key s'.remote).0 ≡ ok text
      → cached_response cached_server.redis key s'
        ≡ (ok (some resp), record s' { remote = (get_idempotency_result store key s'.remote).1 })
  unfolding cached_response redis_cache
  cached_response-stored key text resp s' given some_text parsed stored =
      let after = record s' { remote = (get_idempotency_result store key s'.remote).1 } in
      rw given (
        ap (λ r. read_cached (redis_cache store unmarshal marshal) r after) stored
        ∙ rw (some_text, parsed) refl)

  -- Once a response was stored in Redis under a request's key, and while Redis reads it back, a
  -- repetition of the request is answered with that response; the database and the published events
  -- stay as they are, and the remote side becomes what the one GET of that key leaves, so that the
  -- inventory service is not called at all.
  pub create_order_repeated :
      (req : CreateOrderRequest) (item : StockItem) (items : List StockItem) (resp : OrderMessage)
      (text : String) (s s' : System S)
      → ReadsBack store
      → unmarshal text ≡ some resp
      → is_empty text ≡ false
      → is_empty req.customer_id ≡ false
      → is_empty req.idempotency_key ≡ false
      → req.items ≡ item ∷ items
      → set_idempotency_result store req.idempotency_key text 86400 s.remote ≡ (ok tt, s'.remote)
      → let (r, s'') = create_order cached_server req s' in
        (r ≡ ok resp)
        × (s''.remote ≡ (store.get (idempotency_key req.idempotency_key) s'.remote).1)
        × (s''.db ≡ s'.db)
        × (s''.events ≡ s'.events)
  unfolding create_order get_idempotency_result
  create_order_repeated req item items resp text s s' reads parsed some_text customer key has_items
        stored =
      let after = record s' {
        remote = (get_idempotency_result store req.idempotency_key s'.remote).1;
      } in
      let answered : create_order cached_server req s' ≡ (ok resp, after) = rw customer (
        ap (λ its. with_items_of cached_server req its s') has_items
        ∙ >>=-ok (cached_response cached_server.redis req.idempotency_key)
            (unless_cached cached_server req) s' {a = some resp} {t = after}
            (cached_response-stored req.idempotency_key text resp s' key some_text parsed
              (get_stored req.idempotency_key text s.remote s'.remote reads stored))) in
      (
        ap (λ w. w.0) answered,
        ap (λ w. w.1.remote) answered,
        ap (λ w. w.1.db) answered,
        ap (λ w. w.1.events) answered,
      )
