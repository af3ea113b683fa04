-- ===== src/Language.antt =====
-- language: positions in a text.
pub mod Utf8
pub mod Runes
pub mod Positions
pub mod Lines
pub mod Starts
pub mod ColumnSteps
pub mod Columns
pub mod RoundTrip
pub mod Errors
pub mod CodePoints
