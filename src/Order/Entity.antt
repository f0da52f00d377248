-- ===== src/Order/Entity.antt =====
-- services/order/entity.go, the statuses that the service writes, and the tables of
-- migrations/order. An id is the number that its UUID stands for.
use micromart.Prelude.{ℕ, String, Option, List}
use micromart.Prelude.Int.{ℤ}

-- The values of orders.status.
pub data OrderStatus : Type 0 where
  pending reserving paying confirming completed failed cancelled : OrderStatus

pub data SagaStatus : Type 0 where
  in_progress completed failed : SagaStatus

pub data SagaStep : Type 0 where
  reserve_inventory process_payment confirm_order : SagaStep

pub record Order : Type 0 where
  pub id : ℕ
  pub customer_id : String
  pub status : OrderStatus
  pub total_cents : ℤ  -- BIGINT, int64
  pub idempotency_key : Option String
  pub created_at : ℕ
  pub updated_at : ℕ

pub record OrderItem : Type 0 where
  pub id : ℕ
  pub order_id : ℕ
  pub product_id : ℕ
  pub quantity : ℕ  -- INT with CHECK (quantity > 0)
  pub unit_price_cents : ℕ  -- BIGINT with CHECK (unit_price_cents >= 0)
  pub created_at : ℕ

-- Why a saga failed: the `reason` that the code passes to `fail`.
pub data Reason : Type 0 where
  reserve_failed payment_failed confirm_failed interrupted : Reason

pub record SagaState : Type 0 where
  pub id : ℕ
  pub order_id : ℕ
  pub current_step : SagaStep
  pub status : SagaStatus
  pub reservation_id : Option ℕ
  pub failure_reason : Option Reason
  pub created_at : ℕ
  pub updated_at : ℕ

pub record Tables : Type 0 where
  pub orders : List Order
  pub order_items : List OrderItem
  pub sagas : List SagaState

pub data Error : Type 0 where
  other : Error
