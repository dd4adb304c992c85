-- ===== src/Cache/Hydrate.antt =====
-- src/storage/src/cache/policies/hydration.rs: whether a read promotes its entry to memory.
pub mod Laws
use liquid_cache.Prelude.{Option, none, some}
use liquid_cache.Cache.Entry.{
  Formats, CacheEntry, memory_arrow, memory_liquid, memory_squeezed_liquid, disk_liquid, disk_arrow,
}

-- `MaterializedEntry`: what a read has produced.
pub data MaterializedEntry (F : Formats) : Type 0 where
  arrow : F.Arrow → MaterializedEntry F
  liquid : F.Liquid → MaterializedEntry F

-- The entry before the read, what the read produced, and the read's expression.
abbrev pub HydrationPolicy : Formats → Type 0
HydrationPolicy F = CacheEntry F → MaterializedEntry F → Option F.Hint → Option (CacheEntry F)

module _ {F : Formats} where
  -- `AlwaysHydrate::hydrate`. `extend_paths` is `hydrate_variant_paths` behind the downcast and
  -- the test of the expression: a squeezed variant with more paths, if some are missing.
  unfoldable pub always_hydrate :
      (F.Arrow → F.Squeezed → Option F.Hint → Option F.Squeezed) → HydrationPolicy F
  always_hydrate extend_paths (disk_arrow t) (MaterializedEntry.arrow a) h =
      elim (F.variant_squeeze a h) [
        | some (s, bytes) ↦ some (memory_squeezed_liquid s)
        | none ↦ some (memory_arrow a)
      ]
  always_hydrate extend_paths (disk_liquid t) (MaterializedEntry.liquid l) h =
      some (memory_liquid l)
  always_hydrate extend_paths (memory_liquid l) m h = none
  always_hydrate extend_paths (memory_squeezed_liquid s) (MaterializedEntry.arrow a) h =
      elim (extend_paths a s h) [
        | some s' ↦ some (memory_squeezed_liquid s')
        | none ↦ some (memory_arrow a)
      ]
  always_hydrate extend_paths (memory_squeezed_liquid s) (MaterializedEntry.liquid l) h =
      some (memory_liquid l)
  always_hydrate extend_paths e m h = none

  unfoldable pub no_hydration : HydrationPolicy F
  no_hydration e m h = none
