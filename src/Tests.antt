-- ===== src/Tests.antt =====
-- Runs on small inputs, and each result at an input that meets its conditions.
mod Tokens
mod Params
mod Binding
mod Metadata
mod Sharing
mod Diagnostics
mod Events
mod Details
mod Snapshots
mod Formatter
mod Language
mod QueryType
mod Registry
mod Catalog
mod Merge
mod Samples
