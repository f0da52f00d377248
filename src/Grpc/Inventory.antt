-- ===== src/Grpc/Inventory.antt =====
-- InventoryServiceClient: what the order service calls. The remote side, network included, is a
-- state `S` that each call changes as it will.
use micromart.Prelude.{ℕ, String, Bool, List}
use micromart.Prelude.Int.{ℤ}
use micromart.Prelude.Exec.{Exec}
use micromart.Grpc.Status.{Code}
use micromart.Inventory.Stock.{StockItem}

-- inventoryv1.Product
pub record ProductMessage : Type 0 where
  pub id : String
  pub name : String
  pub description : String
  pub category : String
  pub price_cents : ℤ  -- int64
  pub stock_available : ℤ  -- int32
  pub stock_reserved : ℤ  -- int32
  pub active : Bool
  pub created_at : ℕ
  pub updated_at : ℕ

pub record InventoryClient (S : Type 0) : Type 0 where
  pub get_product : String → Exec S Code ProductMessage
  pub reserve_stock : String → List StockItem → Exec S Code String
  pub release_stock : String → Exec S Code Unit
  pub decrement_stock : String → Exec S Code Unit
