-- ===== src/Cache/Entry.antt =====
-- src/storage/src/cache/cached_batch.rs: the entries of the cache, over the array formats that
-- they hold.
pub mod Meaning
use liquid_cache.Prelude.{ℕ, ◌<◌, Option, isize_limit}

-- `SqueezedBacking` of liquid_array/mod.rs: the format of a squeezed array's bytes on disk.
pub data SqueezedBacking : Type 0 where
  liquid_backing arrow_backing : SqueezedBacking

-- The arrays that the cache moves between formats, behind the `dyn` traits that it calls. `Hint`
-- stands for `CacheExpression`. The three conversions that may fail:
-- `transcode_liquid_inner_with_hint`, `LiquidArray::squeeze`, and `try_variant_squeeze` for a hint
-- that has variant requests.
pub record Formats : Type 1 where
  pub Arrow : Type 0
  pub Liquid : Type 0
  pub Squeezed : Type 0
  pub DataType : Type 0
  pub Bytes : Type 0
  pub Hint : Type 0
  pub arrow_size : Arrow → ℕ
  pub liquid_size : Liquid → ℕ
  pub squeezed_size : Squeezed → ℕ
  pub bytes_len : Bytes → ℕ
  pub arrow_type : Arrow → DataType
  pub liquid_type : Liquid → DataType
  pub squeezed_type : Squeezed → DataType
  pub disk_backing : Squeezed → SqueezedBacking
  pub arrow_to_bytes : Arrow → Bytes
  pub liquid_to_bytes : Liquid → Bytes
  pub transcode : Arrow → Option Hint → Option Liquid
  pub squeeze_liquid : Liquid → Option Hint → Option (Squeezed × Bytes)
  pub variant_squeeze : Arrow → Option Hint → Option (Squeezed × Bytes)

-- `get_array_memory_size` counts bytes that are allocated.
pub record IsSized (F : Formats) : Type 0 where
  pub arrow_fits : (a : F.Arrow) → F.arrow_size a < isize_limit
  pub liquid_fits : (l : F.Liquid) → F.liquid_size l < isize_limit
  pub squeezed_fits : (s : F.Squeezed) → F.squeezed_size s < isize_limit

pub data CacheEntry (F : Formats) : Type 0 where
  memory_arrow : F.Arrow → CacheEntry F
  memory_liquid : F.Liquid → CacheEntry F
  memory_squeezed_liquid : F.Squeezed → CacheEntry F
  disk_liquid : F.DataType → CacheEntry F
  disk_arrow : F.DataType → CacheEntry F

pub data CachedBatchType : Type 0 where
  memory_arrow memory_liquid memory_squeezed_liquid disk_liquid disk_arrow : CachedBatchType

module _ {F : Formats} where
  unfoldable pub memory_usage_bytes : CacheEntry F → ℕ
  memory_usage_bytes (CacheEntry.memory_arrow a) = F.arrow_size a
  memory_usage_bytes (CacheEntry.memory_liquid l) = F.liquid_size l
  memory_usage_bytes (CacheEntry.memory_squeezed_liquid s) = F.squeezed_size s
  memory_usage_bytes (CacheEntry.disk_liquid t) = 0
  memory_usage_bytes (CacheEntry.disk_arrow t) = 0

  -- `From<&CacheEntry> for CachedBatchType`.
  unfoldable pub batch_type : CacheEntry F → CachedBatchType
  batch_type (CacheEntry.memory_arrow a) = CachedBatchType.memory_arrow
  batch_type (CacheEntry.memory_liquid l) = CachedBatchType.memory_liquid
  batch_type (CacheEntry.memory_squeezed_liquid s) = CachedBatchType.memory_squeezed_liquid
  batch_type (CacheEntry.disk_liquid t) = CachedBatchType.disk_liquid
  batch_type (CacheEntry.disk_arrow t) = CachedBatchType.disk_arrow

-- How many times an entry of a format can still be squeezed: Arrow, Liquid, squeezed, disk.
unfoldable pub rank : CachedBatchType → ℕ
rank CachedBatchType.memory_arrow = 3
rank CachedBatchType.memory_liquid = 2
rank CachedBatchType.memory_squeezed_liquid = 1
rank CachedBatchType.disk_liquid = 0
rank CachedBatchType.disk_arrow = 0
