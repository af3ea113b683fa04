-- ===== src/Metadata.antt =====
-- metadata: the stores of catalog data that connections share.
pub mod Budget
pub mod Permits
pub mod Running
pub mod Drain
pub mod Stores
pub mod Sharing
pub mod Lifetime
pub mod Events
pub mod Delivery
pub mod Details
pub mod Registry
pub mod Merge
