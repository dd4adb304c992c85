-- ===== src/Cache/Squeeze.antt =====
-- src/storage/src/cache/policies/squeeze.rs: the three squeeze policies. A policy takes an entry
-- and a hint to a smaller entry and the bytes to write to the entry's file, if any. The compressor
-- and the handle for later reads of the file are inside the format's conversions.
pub mod Laws
use liquid_cache.Prelude.{Option, none, some}
use liquid_cache.Cache.Entry.{
  Formats, CacheEntry, SqueezedBacking, liquid_backing, arrow_backing, memory_arrow, memory_liquid,
  memory_squeezed_liquid, disk_liquid, disk_arrow,
}

abbrev pub SqueezePolicy : Formats → Type 0
SqueezePolicy F = CacheEntry F → Option F.Hint → CacheEntry F × Option F.Bytes

module _ {F : Formats} where
  -- The entry on disk of data in a format, as the policies and `disk_entry_from_squeezed` build it.
  unfoldable pub disk_entry : SqueezedBacking → F.DataType → CacheEntry F
  disk_entry liquid_backing t = disk_liquid t
  disk_entry arrow_backing t = disk_arrow t

  unfoldable pub evict : SqueezePolicy F
  unfolding disk_entry
  evict (memory_arrow a) h = (disk_arrow (F.arrow_type a), some (F.arrow_to_bytes a))
  evict (memory_liquid l) h = (disk_liquid (F.liquid_type l), some (F.liquid_to_bytes l))
  evict (memory_squeezed_liquid s) h = (disk_entry (F.disk_backing s) (F.squeezed_type s), none)
  evict (disk_liquid t) h = (disk_liquid t, none)
  evict (disk_arrow t) h = (disk_arrow t, none)

  -- The `match` on `transcode_liquid_inner_with_hint` of the two transcoding policies.
  unfoldable pub transcode_or_evict : F.Arrow → Option F.Hint → CacheEntry F × Option F.Bytes
  transcode_or_evict a h = elim (F.transcode a h) [
    | some l ↦ (memory_liquid l, none)
    | none ↦ (disk_arrow (F.arrow_type a), some (F.arrow_to_bytes a))
  ]

  unfoldable pub transcode_squeeze_evict : SqueezePolicy F
  unfolding disk_entry transcode_or_evict
  transcode_squeeze_evict (memory_arrow a) h = elim (F.variant_squeeze a h) [
    | some (s, bytes) ↦ (memory_squeezed_liquid s, some bytes)
    | none ↦ transcode_or_evict a h
  ]
  transcode_squeeze_evict (memory_liquid l) h = elim (F.squeeze_liquid l h) [
    | some (s, bytes) ↦ (memory_squeezed_liquid s, some bytes)
    | none ↦ (disk_liquid (F.liquid_type l), some (F.liquid_to_bytes l))
  ]
  transcode_squeeze_evict (memory_squeezed_liquid s) h =
      (disk_entry (F.disk_backing s) (F.squeezed_type s), none)
  transcode_squeeze_evict (disk_liquid t) h = (disk_liquid t, none)
  transcode_squeeze_evict (disk_arrow t) h = (disk_arrow t, none)

  unfoldable pub transcode_evict : SqueezePolicy F
  unfolding disk_entry transcode_or_evict
  transcode_evict (memory_arrow a) h = transcode_or_evict a none
  transcode_evict (memory_liquid l) h = (disk_liquid (F.liquid_type l), some (F.liquid_to_bytes l))
  transcode_evict (memory_squeezed_liquid s) h =
      (disk_entry (F.disk_backing s) (F.squeezed_type s), none)
  transcode_evict (disk_liquid t) h = (disk_liquid t, none)
  transcode_evict (disk_arrow t) h = (disk_arrow t, none)
