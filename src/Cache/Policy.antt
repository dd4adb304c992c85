-- ===== src/Cache/Policy.antt =====
-- src/storage/src/cache/policies/cache/mod.rs: the trait of the cache policies, as an interface.
pub mod ThreeQueue
pub mod Draining
pub mod Lru
pub mod S3Fifo
use liquid_cache.Prelude.{ℕ, Option, List}
use liquid_cache.Cache.Entry.{CachedBatchType}

-- Each method locks the policy's state and runs alone. `find_victim` may panic on an inconsistent
-- state, which is `none`.
pub record CachePolicy : Type 1 where
  pub State : Type 0
  pub find_victim : ℕ → State → Option (List ℕ × State)
  pub notify_insert : ℕ → CachedBatchType → State → State
  pub notify_access : ℕ → CachedBatchType → State → State
