-- ===== src/Snapshots.antt =====
-- internal/handler/snapshot_store.go: read-only files of source text that lives in a database.
pub mod Names
pub mod Escape
