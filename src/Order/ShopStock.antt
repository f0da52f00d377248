-- ===== src/Order/ShopStock.antt =====
-- What the stock is after every history of the shop, whatever the network loses, whatever fails and
-- whenever the order service is started again.
use micromart.Prelude.{ℕ, String, ◌≡◌, Bool, Option, some, List, [], ◌∷◌}
use micromart.Prelude.Exec.{Result, Exec}
use micromart.Prelude.Keeps.{Keeps}
use micromart.Sql.{World, Outcome, Uuids}
use micromart.Grpc.Status.{Code}
use micromart.Grpc.Invariants.{BreakerKeeps, dial_with_resilience-Keeps}
use micromart.Inventory.Entity.{Tables, Product, find_product}
use micromart.Inventory.Holdings.{held}
use micromart.Inventory.Consistency.{Accounts}
use micromart.Inventory.StockServer
use micromart.Inventory.ProductServer
use micromart.Inventory.Service.{Request, IsSound, serve}
use micromart.Inventory.History.{
  serve-IsSound, serve_all-Preserves, serve-Conserves, empty_tables, empty_tables-IsSound,
}
use micromart.Inventory.Ledger.{Conserves, Conserves-refl}
use micromart.Order.System.{System}
use micromart.Order.Saga.{new_orchestrator}
use micromart.Order.Server.{Server, IdempotencyCache}
use micromart.Order.ServerKeeps.{CallRules, create_order-Keeps, resume_server-Keeps}
use micromart.Order.ReadsKeep.{get_order-Keeps, cancel_order-Keeps, list_orders_call-Keeps}
use micromart.Order.Network.{
  Fate, delivered, request_lost, answer_lost, Network, carried, call_once, Dialled, call,
  networked_client,
}
use micromart.Order.Shop.{ShopStep, shop_step, shop_steps}

-- A predicate of the inventory's tables, at the other end of the network.
abbrev pub OfStock : {R : Type 0} → (Tables → Type 0) → Network R → Type 0
OfStock P net = P net.inventory

-- The server as main.go builds it, over a network.
abbrev pub networked_server :
    {R : Type 0}
    → (String → String → Bool)
    → ⦃u : Uuids⦄ → Dialled R
    → Option (IdempotencyCache (Network R))
    → Bool
    → Server (Network R)
networked_server matches dialled redis has_clickhouse = record {
  inventory_client = networked_client matches dialled;
  saga = new_orchestrator (networked_client matches dialled) has_clickhouse;
  redis = redis;
}

-- The circuit breaker, the waiting between retries and Redis leave the inventory alone: what holds of
-- its tables goes on holding, where what the breaker is given to execute does the same.
pub record LeavesStock {R : Type 0} (dialled : Dialled R)
    (redis : Option (IdempotencyCache (Network R))) : Type 1 where
  pub breaker :
      (P : Tables → Type 0) (A : Type 0)
      → BreakerKeeps (OfStock P) (dialled.options A).circuit_breaker
  pub waiting :
      (P : Tables → Type 0) (delay attempt : ℕ) → Keeps (OfStock P) (dialled.wait delay attempt)
  pub reading :
      (P : Tables → Type 0) (cache : IdempotencyCache (Network R))
      → redis ≡ some cache
      → (key : String) → Keeps (OfStock P) (cache.get_result key)
  pub writing :
      (P : Tables → Type 0) (cache : IdempotencyCache (Network R))
      → redis ≡ some cache
      → (key text : String) → Keeps (OfStock P) (cache.set_result key text)

module _ {R : Type 0} (matches : String → String → Bool) ⦃u : Uuids⦄ (dialled : Dialled R)
    (redis : Option (IdempotencyCache (Network R))) (leaves : LeavesStock dialled redis) where
  -- What every request to the inventory service keeps.
  module _ (P : Tables → Type 0)
      (serves : (request : Request) (w : World Tables)
        → P w.tables
        → P (serve matches request w).tables) where
    carried-OfStock :
        {A : Type 0} (fate : Fate) (net : Network R) (t : Tables) (x : Result Code A × World Tables)
        → P t
        → P x.1.tables
        → OfStock P (carried fate net t x).1
    carried-OfStock delivered net t x before after = after
    carried-OfStock request_lost net t x before after = before
    carried-OfStock answer_lost net t x before after = after

    call-OfStock :
        {A : Type 0} (handler : Exec (World Tables) Code A)
        → ((w : World Tables) → P w.tables → P (handler w).1.tables)
        → Keeps (OfStock P) (call matches dialled handler)
    call-OfStock {A} handler h =
        dial_with_resilience-Keeps (OfStock P) (dialled.options A) dialled.wait
          (call_once matches handler) (leaves.breaker P A) (leaves.waiting P)
          λ net p.
            let turn = net.turns 0 in
            let before = serve_all-Preserves P matches serves turn.others net.inventory p in
            carried-OfStock turn.fate _ _ _ before (h _ before)

    OfStock-CallRules :
        (has_clickhouse : Bool)
        → CallRules (networked_server matches dialled redis has_clickhouse) (OfStock P)
    unfolding networked_client new_orchestrator serve
    OfStock-CallRules has_clickhouse = record {
      product = λ id. call-OfStock (ProductServer.get_product id) (serves (Request.get_product id));
      reserve = λ id items.
          call-OfStock (StockServer.reserve_stock id items)
            (serves (Request.reserve_stock id items));
      release =
          λ id. call-OfStock (StockServer.release_stock id) (serves (Request.release_stock id));
      decrement =
          λ id. call-OfStock (StockServer.decrement_stock id) (serves (Request.decrement_stock id));
      payment = λ id net h. h;
      read = leaves.reading P;
      write = leaves.writing P;
    }

    module _ (has_clickhouse : Bool) where
      shop_step-OfStock :
          (step : ShopStep) (s : System (Network R))
          → OfStock P s.remote
          → OfStock P
              (shop_step (networked_server matches dialled redis has_clickhouse) step s).remote
      unfolding shop_step
      shop_step-OfStock (ShopStep.create_order req) =
          create_order-Keeps _ (OfStock P) (OfStock-CallRules has_clickhouse) req
      shop_step-OfStock (ShopStep.get_order id) =
          get_order-Keeps _ (OfStock P) (OfStock-CallRules has_clickhouse) id
      shop_step-OfStock (ShopStep.cancel_order id) =
          cancel_order-Keeps _ (OfStock P) (OfStock-CallRules has_clickhouse) id
      shop_step-OfStock (ShopStep.list_orders id n token) =
          list_orders_call-Keeps _ (OfStock P) (OfStock-CallRules has_clickhouse) id n token
      shop_step-OfStock ShopStep.restart =
          resume_server-Keeps _ (OfStock P) (OfStock-CallRules has_clickhouse)

      -- Every history of the shop keeps it.
      shop_steps-OfStock :
          (steps : List (List Outcome × ShopStep)) (s : System (Network R))
          → OfStock P s.remote
          → OfStock P
              (shop_steps (networked_server matches dialled redis has_clickhouse) steps s).remote
      unfolding shop_steps
      shop_steps-OfStock [] s h = h
      shop_steps-OfStock ((outcomes, step) ∷ steps) s h =
          shop_steps-OfStock steps _ (shop_step-OfStock step _ h)

  module _ (has_clickhouse : Bool) (steps : List (List Outcome × ShopStep))
      (s : System (Network R)) where
    -- Start from empty inventory tables and let the order service take any history of requests and
    -- restarts, with any calls of its database failing, while any requests of others to the
    -- inventory service come between, and the network loses any requests or answers, which are
    -- retried. Provided that the circuit breaker, the waiting and Redis leave the inventory alone,
    -- each product's row counts as reserved what the open reservations hold of it, no more than
    -- there is.
    pub shop_steps-Accounts :
        s.remote.inventory ≡ empty_tables
        → (k : ℕ) (p : Product)
        → let server = networked_server matches dialled redis has_clickhouse in
          find_product k (shop_steps server steps s).remote.inventory.products ≡ some p
          → Accounts (held k (shop_steps server steps s).remote.inventory.reservations) p
    shop_steps-Accounts start k p found =
        (shop_steps-OfStock IsSound (serve-IsSound matches) has_clickhouse steps s
            (rw start empty_tables-IsSound)).0.accounted
          k p found

    -- And from any inventory tables on, such a history loses no product and no unit of stock: what
    -- is available of each product with what decremented reservations have taken is as much as at
    -- the start.
    pub shop_steps-Conserves :
        let server = networked_server matches dialled redis has_clickhouse in
        Conserves s.remote.inventory (shop_steps server steps s).remote.inventory
    shop_steps-Conserves =
        shop_steps-OfStock (Conserves s.remote.inventory)
          (serve-Conserves matches s.remote.inventory) has_clickhouse steps s
          (Conserves-refl s.remote.inventory)
