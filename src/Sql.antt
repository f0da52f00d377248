-- ===== src/Sql.antt =====
-- What the services use of PostgreSQL through database/sql and sqlx: one statement at a time, and
-- transactions. A table is the list of its rows, in the order of insertion, and that is also the
-- order of a SELECT that leaves the order open. Whether a statement reaches the server, and
-- whether its answer comes back, is the environment's choice.
mod State
pub mod Tables
pub mod Laws
pub mod Keys
unfoldable pub use State.*
