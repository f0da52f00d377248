-- ===== src/Redis.antt =====
-- pkg/redis: the lock and the cache of answered requests.
pub mod Store
pub mod Lock
pub mod Idempotency
pub mod Laws
pub mod Repeated
