-- ===== src/Catalog.antt =====
-- catalog: descriptors, exact identities and the cache that one generation of metadata publishes.
pub mod Identity
pub mod Keys
pub mod ObjectIndex
pub mod Matching
pub mod Resolve
pub mod Types
pub mod Columns
pub mod Dependencies
pub mod Cache
pub mod Kinds
pub mod Lookups
pub mod Snapshot
pub mod Names
pub mod Edges
pub mod Graph
