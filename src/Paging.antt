-- ===== src/Paging.antt =====
-- Keyset pages, which both services make in the same way.
pub mod Cursor
pub mod Ascending
pub mod Page
pub mod Walk
pub mod Bounds
