-- ===== src/Inventory.antt =====
-- The inventory service (services/inventory).
pub mod Entity
pub mod Stock
pub mod StockServer
pub mod Products
pub mod ProductServer
pub mod ProductList
pub mod ProductRows
pub mod Placeholders
pub mod PartialUpdate
pub mod ProductCreation
pub mod Calm
pub mod CalmReserve
pub mod Whole
pub mod Holdings
pub mod Updates
pub mod Takes
pub mod Invariants
pub mod Consistency
pub mod Settles
pub mod Settlement
pub mod Effects
pub mod Closing
pub mod RoundTrip
pub mod Repeated
pub mod Ledger
pub mod Conserved
pub mod References
pub mod Service
pub mod History
