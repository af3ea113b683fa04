-- ===== src/Dialect.antt =====
-- dialect: the lexical rules of a driver's SQL, and the keywords that every driver shares.
pub mod Keyword
pub mod Rules
pub mod Variant
