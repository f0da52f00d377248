-- ===== src/Gateway.antt =====
-- The gateway (services/gateway): HTTP in front of the services' gRPC.
pub mod Http
pub mod Orders
pub mod Products
pub mod ServerCodes
pub mod Statuses
pub mod ProductStatuses
pub mod Walk
pub mod Middlewares
