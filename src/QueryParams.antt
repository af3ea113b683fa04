-- ===== src/QueryParams.antt =====
-- internal/queryparams: named placeholders compiled to positional ones, and values bound to them.
pub mod Scan
pub mod Trivia
pub mod Compile
pub mod Keys
pub mod Value
pub mod Bind
pub mod Binding
pub mod Answers
pub mod Markers
