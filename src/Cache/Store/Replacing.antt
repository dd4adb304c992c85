-- ===== src/Cache/Store/Replacing.antt =====
-- What an insertion does when there is nothing left to squeeze: its own batch moves towards disk.
use liquid_cache.Prelude.{
  ℕ, ◌≤◌, ◌<◌, ◌≡◌, refl, ◌∙◌, Option, none, some, false, ◌==◌, arith, lookup,
}
use liquid_cache.Cache.Entry.{
  Formats, CacheEntry, memory_arrow, memory_liquid, memory_squeezed_liquid, disk_liquid, disk_arrow,
  batch_type, rank,
}
use liquid_cache.Cache.Entry.Meaning.{Lossless, Stored}
use liquid_cache.Cache.Squeeze.{SqueezePolicy, disk_entry}
use liquid_cache.Cache.Squeeze.Laws.{IsSqueezePolicy, disk_entry-rank, disk_entry-Stored}
use liquid_cache.Cache.Policy.{CachePolicy}
use liquid_cache.Cache.Store.{
  LiquidCache, done, write_if_some, write_batch_to_disk, write_in_memory_batch_to_disk,
}
use liquid_cache.Cache.Store.Accounts.{IsAccounted}
use liquid_cache.Cache.Store.Values.{Written, write_if_some-Written}
use liquid_cache.Cache.Store.Squeezing.{Descends-lower}

module _ {F : Formats} {P : CachePolicy} (L : Lossless F) where
  pub record Replaced (c : LiquidCache F P) (id : ℕ) (e e' : CacheEntry F) (c' : LiquidCache F P)
      : Type 0 where
    pub accounted : IsAccounted c → IsAccounted c'
    pub lower : rank (batch_type e') < rank (batch_type e)
    pub same_index : c'.index ≡ c.index
    pub same_policy : c'.cache_policy ≡ c.cache_policy
    pub same_limit : c'.budget.max_memory_bytes ≡ c.budget.max_memory_bytes
    pub other_files : (j : ℕ) → (id == j) ≡ false → lookup j c'.files ≡ lookup j c.files
    pub value :
        (v : L.Value) → Stored L v e (lookup id c.files) → Stored L v e' (lookup id c'.files)

  Written-Replaced :
      (c c' : LiquidCache F P) (id : ℕ) (e e' : CacheEntry F) (bytes : Option F.Bytes)
      → Written c id bytes c'
      → rank (batch_type e') < rank (batch_type e)
      → ((v : L.Value) → Stored L v e (lookup id c.files) → Stored L v e' (lookup id c'.files))
      → Replaced c id e e' c'
  Written-Replaced c c' id e e' bytes w l value = record {
    accounted = w.accounted;
    lower = l;
    same_index = w.same_index;
    same_policy = w.same_policy;
    same_limit = w.same_limit;
    other_files = w.other_files;
    value = value;
  }

  -- A batch in memory is replaced by one further down the formats, with the same value, and the
  -- code marked unreachable is not reached.
  pub write_in_memory_batch_to_disk-Replaced :
      {squeeze : SqueezePolicy F} (law : IsSqueezePolicy L squeeze) (hint : ℕ → Option F.Hint)
      (c : LiquidCache F P) (id : ℕ) (e : CacheEntry F)
      → 1 ≤ rank (batch_type e)
      → (c' : LiquidCache F P) × (e' : CacheEntry F) × (write_in_memory_batch_to_disk squeeze hint c
            id e
          ≡ done (c', e'))
        × Replaced c id e e' c'
  unfolding write_in_memory_batch_to_disk write_if_some rank batch_type
  write_in_memory_batch_to_disk-Replaced {squeeze} law hint c id (memory_arrow a) h =
      let r = squeeze (memory_arrow a) none in
      let c1 = write_if_some c id r.0 r.1 in
      let w = write_if_some-Written c id r.0 r.1 in
      (
        c1,
        r.0,
        refl,
        Written-Replaced c c1 id (memory_arrow a) r.0 r.1 w
            (omega (arith, Descends-lower (memory_arrow a) r (law.descends (memory_arrow a) none)))
            (λ v s. rw w.file (law.keeps (memory_arrow a) none v (lookup id c.files) s)),
      )
  write_in_memory_batch_to_disk-Replaced {squeeze} law hint c id (memory_liquid l) h =
      let b = F.liquid_to_bytes l in
      let c1 = write_batch_to_disk c id (memory_liquid l) b in
      let w = write_if_some-Written c id (memory_liquid l) (some b) in
      (
        c1,
        disk_liquid (F.liquid_type l),
        refl,
        Written-Replaced c c1 id (memory_liquid l) (disk_liquid (F.liquid_type l)) (some b) w
            (omega arith) (λ v s. rw w.file (L.liquid_bytes l ∙ s)),
      )
  write_in_memory_batch_to_disk-Replaced {squeeze} law hint c id (memory_squeezed_liquid q) h =
      let e' = disk_entry {F = F} (F.disk_backing q) (F.squeezed_type q) in
      (
        c,
        e',
        refl,
        Written-Replaced c c id (memory_squeezed_liquid q) e' none
            (write_if_some-Written c id e' none)
            (omega (arith, disk_entry-rank F (F.disk_backing q) (F.squeezed_type q)))
            (λ v s.
              disk_entry-Stored L v (F.disk_backing q) (F.squeezed_type q) (lookup id c.files) s),
      )
  write_in_memory_batch_to_disk-Replaced law hint c id (disk_liquid t) h = absurd (omega arith)
  write_in_memory_batch_to_disk-Replaced law hint c id (disk_arrow t) h = absurd (omega arith)
