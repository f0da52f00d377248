-- ===== src/Order.antt =====
-- The order service (services/order).
pub mod Entity
pub mod System
pub mod SagaRows
pub mod Saga
pub mod SagaCalls
pub mod SagaOutcome
pub mod AllOrNothing
pub mod Repository
pub mod Queries
pub mod Messages
pub mod Server
pub mod OrderList
pub mod Lines
pub mod Analytics
pub mod AnalyticsLaws
pub mod AnalyticsStop
pub mod Creation
pub mod Totals
pub mod Idempotency
pub mod SagaKeeps
pub mod CalmSaga
pub mod Resumed
pub mod Execution
pub mod Cancellation
pub mod LookUps
pub mod CalmCreation
pub mod Checkout
pub mod Telemetry
pub mod Network
pub mod ServerKeeps
pub mod ReadsKeep
pub mod Shop
pub mod ShopStock
