-- ===== src/Store.antt =====
-- The ledger (internal/store/store.go): one SQLite table of tasks.
pub mod Table
pub mod Ops
pub mod Rows
pub mod Cas
pub mod Versions
pub mod Once
pub mod Spec
pub mod Refined
