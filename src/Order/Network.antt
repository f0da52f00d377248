-- ===== src/Order/Network.antt =====
-- The inventory service as the order service sees it (services/order/main.go, the inventory client):
-- over a network that may lose the request or the answer of any call, through the interceptors of
-- DialWithResilience, while other clients call the same service.
use micromart.Prelude.{ℕ, suc, String, Bool, List}
use micromart.Prelude.Exec.{Result, err, Exec}
use micromart.Sql.{World, Uuids}
use micromart.Grpc.Status.{Code, unavailable}
use micromart.Grpc.Retry.{Waits}
use micromart.Grpc.Client.{DialOptions, dial_with_resilience}
use micromart.Grpc.Inventory.{InventoryClient}
use micromart.Inventory.Entity.{Tables}
use micromart.Inventory.StockServer
use micromart.Inventory.ProductServer
use micromart.Inventory.Service.{Conditions, Request, under, serve_all}

-- A call reaches the service and its answer comes back; or the request is lost; or the answer is.
pub data Fate : Type 0 where
  delivered request_lost answer_lost : Fate

-- What happens to one attempt of a call: first what others ask of the service, then its own fate.
pub record Turn : Type 0 where
  pub others : List (Conditions × Request)
  pub conditions : Conditions
  pub fate : Fate

-- The remote side: the inventory's tables, what is to happen to the coming attempts, and whatever
-- else is remote or beside the calls, such as Redis and the counts of the circuit breaker.
pub record Network (R : Type 0) : Type 0 where
  pub inventory : Tables
  pub turns : ℕ → Turn
  pub beside : R

module _ {R A : Type 0} where
  abbrev pub carried :
      Fate → Network R → Tables → Result Code A × World Tables → Result Code A × Network R
  carried delivered net t (r, w) = (r, record net { inventory = w.tables })
  carried request_lost net t (r, w) = (err unavailable, record net { inventory = t })
  carried answer_lost net t (r, w) = (err unavailable, record net { inventory = w.tables })

  -- One attempt of a call.
  abbrev pub call_once :
      (String → String → Bool) → ⦃u : Uuids⦄ → Exec (World Tables) Code A → Exec (Network R) Code A
  call_once matches handler net =
      let turn = net.turns 0 in
      let t = serve_all matches turn.others net.inventory in
      carried turn.fate (record net { turns = λ n. net.turns (suc n) }) t
        (handler (under turn.conditions t))

-- What the connection is dialled with: the retries, the waiting between them, and Execute of the
-- circuit breaker, if there is one.
pub record Dialled (R : Type 0) : Type 1 where
  pub options : (A : Type 0) → DialOptions (Network R) A
  pub wait : ℕ → Waits (Network R)

module _ {R : Type 0} (matches : String → String → Bool) ⦃u : Uuids⦄ (dialled : Dialled R) where
  -- A call of the connection.
  abbrev pub call : {A : Type 0} → Exec (World Tables) Code A → Exec (Network R) Code A
  call {A} handler =
      dial_with_resilience (dialled.options A) dialled.wait (call_once matches handler)

  -- NewInventoryServiceClient of that connection.
  unfoldable pub networked_client : InventoryClient (Network R)
  networked_client = record {
    get_product = λ id. call (ProductServer.get_product id);
    reserve_stock = λ order_id items. call (StockServer.reserve_stock order_id items);
    release_stock = λ id. call (StockServer.release_stock id);
    decrement_stock = λ id. call (StockServer.decrement_stock id);
  }
