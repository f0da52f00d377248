-- ===== src/Order/Resumed/Stock.antt =====
-- services/order/saga.go, Resume, with the inventory service: what the interrupted sagas still hold.
use micromart.Prelude.{ℕ, String, ◌≡◌, Bool, Option, none, some, List, [], filter, All}
use micromart.Prelude.Exec.{Result, Exec}
use micromart.Sql.{World, Uuids}
use micromart.Grpc.Status.{Code}
use micromart.Grpc.Inventory.{ProductMessage}
use micromart.Inventory.Entity
use micromart.Inventory.Entity.{StockReservation, released, is_reserved}
use micromart.Inventory.Stock
use micromart.Inventory.Stock.{is_held_by}
use micromart.Inventory.StockServer
use micromart.Inventory.Consistency.{IsConsistent}
use micromart.Order.Entity.{SagaState, Tables}
use micromart.Order.Saga.{Orchestrator}
use micromart.Order.AllOrNothing.{shop_saga}

abbrev HoldsNothing : ℕ → List StockReservation → Type 0
HoldsNothing k rs = filter (is_held_by k) rs ≡ []

abbrev close : ℕ → StockReservation → StockReservation
close n r = record r { status = released; updated_at = n }

module _ ⦃u : Uuids⦄ where
  -- What one call of ReleaseStock leaves: consistent tables in which the order holds nothing, and
  -- nor does any other that held nothing before.
  record Released (k : ℕ) (t : Entity.Tables) (w : World Entity.Tables) : Type 0 where
    consistent : IsConsistent w.tables
    nothing : HoldsNothing k w.tables.reservations
    others : (j : ℕ) → HoldsNothing j t.reservations → HoldsNothing j w.tables.reservations

-- The order of a reservation that a saga has stored holds nothing any more.
abbrev pub IsFreed : List StockReservation → Option ℕ → Type 0
IsFreed rs none = Unit
IsFreed rs (some k) = filter (is_held_by k) rs ≡ []

record AllReleased (rows : List SagaState) (t : Entity.Tables) (w : World Entity.Tables)
    : Type 0 where
  consistent : IsConsistent w.tables
  freed : All (λ row. IsFreed w.tables.reservations row.reservation_id) rows
  others : (j : ℕ) → HoldsNothing j t.reservations → HoldsNothing j w.tables.reservations

module _ ⦃u : Uuids⦄ (get_product : String → Exec (World Entity.Tables) Code ProductMessage)
    (pay : String → Result Code Unit) (has_clickhouse : Bool) (us : ℕ → ℕ) (n : ℕ) where
  abbrev saga : Orchestrator (World Entity.Tables)
  saga = shop_saga get_product pay has_clickhouse
