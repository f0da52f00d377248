-- ===== src/Inventory/Entity.antt =====
-- services/inventory/entity.go and errx.go, and the tables of migrations/inventory. An id is the
-- number that its UUID stands for; a column with CHECK (... >= 0) is a natural number.
use micromart.Prelude.{ℕ, String, Bool, true, false, List}
use micromart.Sql.Keys.{find_key}
use micromart.Prelude.{Option}

pub record Product : Type 0 where
  pub id : ℕ
  pub name : String
  pub description : String
  pub category : String
  pub price_cents : ℕ  -- BIGINT, int64
  pub stock_available : ℕ  -- INT, int32
  pub stock_reserved : ℕ  -- INT, int32
  pub active : Bool
  pub created_at : ℕ
  pub updated_at : ℕ

-- The values of the column `status`.
pub data ReservationStatus : Type 0 where
  reserved released decremented : ReservationStatus

abbrev pub is_reserved : ReservationStatus → Bool
is_reserved reserved = true
is_reserved _ = false

pub record StockReservation : Type 0 where
  pub id : ℕ
  pub order_id : ℕ
  pub product_id : ℕ
  pub quantity : ℕ  -- INT with CHECK (quantity > 0)
  pub status : ReservationStatus
  pub created_at : ℕ
  pub updated_at : ℕ

pub record Tables : Type 0 where
  pub products : List Product
  pub reservations : List StockReservation

-- The errors that the code tells apart; `other` is any wrapped database error.
pub data Error : Type 0 where
  not_found insufficient_stock invalid_reservation other : Error

-- SELECT * FROM products WHERE id = k
abbrev pub find_product : ℕ → List Product → Option Product
find_product k ps = find_key (λ p. p.id) k ps
