-- ===== src/Tests.antt =====
-- The theorems at concrete inputs.
pub mod Fixtures
pub mod Stock
mod Analytics
pub mod Checkout
mod Gateway
mod Grpc
mod Lists
mod Orders
mod Products
mod Redis
mod Resumed
mod Shop
mod Telemetry
mod Process
