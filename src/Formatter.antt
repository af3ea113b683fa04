-- ===== src/Formatter.antt =====
-- internal/formatter: the check that a formatted text is still the same SQL.
pub mod Kinds
pub mod Verify
pub mod Words
pub mod Gaps
pub mod Safety
