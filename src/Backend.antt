-- ===== src/Backend.antt =====
-- The state that the components of the backend share: the Postgres tables (db/sql.db.go), the Redis
-- lists, the calls made to LiveKit, and the clock. `Exec` holds the actions on it.
pub mod Rows
pub mod Exec
pub mod Preserves
pub mod Transactions
pub mod Runs
