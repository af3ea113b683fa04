-- ===== src/Diagnostics.antt =====
-- internal/handler/diagnostics_scheduler.go: documents queued for diagnostics, and their consumer.
pub mod Queue
pub mod Steps
pub mod Kept
pub mod Drained
