-- ===== src/QueryType.antt =====
-- internal/database/query_type.go: whether a statement is run as a query.
pub mod Tables
pub mod Split
pub mod Words
pub mod Kind
pub mod Results
