-- ===== src/Cache/Store/Reading.antt =====
-- `try_read_liquid` and `read_disk_liquid_array` of src/storage/src/cache/core.rs, over
-- `read_from_bytes`.
pub mod Answers
use liquid_cache.Prelude.{
  ℕ, suc, ◌+◌, ◌<◌, ◌≡◌, refl, ◌∙◌, inl, inr, Bool, true, false, Option, none, some, List, [], ◌∷◌,
  ◌==◌, arith, lookup, Option-cases,
}
use liquid_cache.Cache.Entry.{
  Formats, IsSized, CacheEntry, memory_arrow, memory_liquid, memory_squeezed_liquid, disk_liquid,
  disk_arrow, batch_type, rank, SqueezedBacking, liquid_backing, arrow_backing,
}
use liquid_cache.Cache.Entry.Meaning.{Lossless, Backed, Stored}
use liquid_cache.Cache.Index
use liquid_cache.Cache.Squeeze.{SqueezePolicy}
use liquid_cache.Cache.Squeeze.Laws.{IsSqueezePolicy}
use liquid_cache.Cache.Hydrate.{HydrationPolicy, MaterializedEntry, always_hydrate}
use liquid_cache.Cache.Policy.{CachePolicy}
use liquid_cache.Cache.Policy.ThreeQueue
use liquid_cache.Cache.Policy.ThreeQueue.Drains.{liquid_policy, liquid_policy-Draining}
use liquid_cache.Cache.Store.{
  LiquidCache, Run, InternalEvent, done, panic, ◌>>=◌, trace, read_liquid_event, io_read_liquid,
  hydrate_event, insert_inner, maybe_hydrate,
}
use liquid_cache.Cache.Store.Values.{Holds}
use liquid_cache.Cache.Store.Ending.{IsGood, Kept}
use liquid_cache.Cache.Store.Ending.Rounds.{insert_inner_lem}

module _ {F : Formats} {P : CachePolicy} (squeeze : SqueezePolicy F)
    (squeeze_hint : ℕ → Option F.Hint) (hydrate : HydrationPolicy F)
    (read_from_bytes : F.Bytes → F.Liquid) where
  -- A file that is missing is the panic of `expect`.
  unfoldable pub read_disk_liquid_array : ℕ → LiquidCache F P → Run (F.Liquid × LiquidCache F P)
  unfolding trace
  read_disk_liquid_array entry_id c = elim (lookup entry_id c.files) [
    | none ↦ panic
    | some bytes ↦
        done (read_from_bytes bytes, trace c (io_read_liquid entry_id (F.bytes_len bytes)))
  ]

  -- The `match` on the backing of a squeezed entry.
  unfoldable pub read_squeezed_liquid :
      SqueezedBacking → ℕ → LiquidCache F P → Run (Option F.Liquid × LiquidCache F P)
  unfolding read_disk_liquid_array
  read_squeezed_liquid liquid_backing entry_id c =
      read_disk_liquid_array entry_id c >>= λ (liquid, c1). done (some liquid, c1)
  read_squeezed_liquid arrow_backing entry_id c = done (none, c)

  -- The `match` on the entry.
  unfoldable pub read_liquid_entry :
      ℕ → ℕ → CacheEntry F → LiquidCache F P → Run (Option F.Liquid × LiquidCache F P)
  unfolding read_disk_liquid_array read_squeezed_liquid maybe_hydrate
  read_liquid_entry fuel entry_id (memory_liquid l) c = done (some l, c)
  read_liquid_entry fuel entry_id (disk_liquid t) c =
      read_disk_liquid_array entry_id c >>= λ (liquid, c1).
      maybe_hydrate squeeze squeeze_hint hydrate fuel entry_id (disk_liquid t)
        (MaterializedEntry.liquid liquid) none c1
      >>= λ c2. done (some liquid, c2)
  read_liquid_entry fuel entry_id (memory_squeezed_liquid s) c =
      read_squeezed_liquid (F.disk_backing s) entry_id c
  read_liquid_entry fuel entry_id (disk_arrow t) c = done (none, c)
  read_liquid_entry fuel entry_id (memory_arrow a) c = done (none, c)

  unfoldable pub try_read_liquid : ℕ → ℕ → LiquidCache F P → Run (Option F.Liquid × LiquidCache F P)
  unfolding trace read_liquid_entry
  try_read_liquid fuel entry_id c =
      let c1 = trace c (read_liquid_event entry_id) in
      elim (Index.get c1.index entry_id) [
        | none ↦ done (none, c1)
        | some batch ↦ read_liquid_entry fuel entry_id batch (record c1 {
          cache_policy = P.notify_access entry_id (batch_type batch) c1.cache_policy;
        })
      ]
