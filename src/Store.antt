-- ===== src/Store.antt =====
-- core/runtime/sqlite_store.py: the database and its transactions.
pub mod Db
pub mod Tasks
pub mod Recovery
pub mod Rows
pub mod Passes
pub mod Sweep
pub mod History
pub mod Leases
pub mod Goals
pub mod Stale
pub mod Plans
