-- ===== src/Grpc.antt =====
-- What the services use of gRPC, and their use of it (pkg/grpcutil).
pub mod Status
pub mod Retry
pub mod Retried
pub mod Inventory
pub mod Interceptors
pub mod Observations
pub mod Client
pub mod Connection
pub mod Invariants
pub mod Backoff
