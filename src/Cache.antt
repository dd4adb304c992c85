-- ===== src/Cache.antt =====
-- The cache of the storage crate (src/storage/src/cache).
pub mod Budget
pub mod Entry
pub mod Squeeze
pub mod Hydrate
pub mod Policy
pub mod Index
pub mod Store
mod Tests
