-- ===== src/Cache/Store/Stats.antt =====
-- `LiquidCache::stats` of src/storage/src/cache/core.rs, without the configuration and the runtime
-- counters that it copies.
use liquid_cache.Prelude.{ℕ, ◌+◌, ◌≡◌, refl, ◌∙◌, List, [], ◌∷◌, length, arith}
use liquid_cache.Cache.Entry.{
  Formats, CacheEntry, memory_arrow, memory_liquid, memory_squeezed_liquid, disk_liquid, disk_arrow,
  memory_usage_bytes,
}
use liquid_cache.Cache.Index.Laws.{IsCounted}
use liquid_cache.Cache.Policy.{CachePolicy}
use liquid_cache.Cache.Store.{LiquidCache}
use liquid_cache.Cache.Store.Accounts.{IsAccounted, total}

pub record CacheStats : Type 0 where
  pub total_entries : ℕ
  pub memory_arrow_entries : ℕ
  pub memory_liquid_entries : ℕ
  pub memory_squeezed_liquid_entries : ℕ
  pub disk_liquid_entries : ℕ
  pub disk_arrow_entries : ℕ
  pub memory_arrow_bytes : ℕ
  pub memory_liquid_bytes : ℕ
  pub memory_squeezed_liquid_bytes : ℕ
  pub usage_bytes : ℕ
  pub disk_usage_bytes : ℕ

-- The counters at 0, with the numbers that are read from the index and the budget.
abbrev pub nothing_counted : ℕ → ℕ → ℕ → CacheStats
nothing_counted total_entries usage_bytes disk_usage_bytes = record {
  total_entries = total_entries;
  memory_arrow_entries = 0;
  memory_liquid_entries = 0;
  memory_squeezed_liquid_entries = 0;
  disk_liquid_entries = 0;
  disk_arrow_entries = 0;
  memory_arrow_bytes = 0;
  memory_liquid_bytes = 0;
  memory_squeezed_liquid_bytes = 0;
  usage_bytes = usage_bytes;
  disk_usage_bytes = disk_usage_bytes;
}

module _ {F : Formats} where
  -- The closure that `for_each` calls.
  unfoldable pub count_entry : CacheEntry F → CacheStats → CacheStats
  count_entry (memory_arrow a) s = record s {
    memory_arrow_entries = s.memory_arrow_entries + 1;
    memory_arrow_bytes = s.memory_arrow_bytes + F.arrow_size a;
  }
  count_entry (memory_liquid l) s = record s {
    memory_liquid_entries = s.memory_liquid_entries + 1;
    memory_liquid_bytes = s.memory_liquid_bytes + F.liquid_size l;
  }
  count_entry (memory_squeezed_liquid q) s = record s {
    memory_squeezed_liquid_entries = s.memory_squeezed_liquid_entries + 1;
    memory_squeezed_liquid_bytes = s.memory_squeezed_liquid_bytes + F.squeezed_size q;
  }
  count_entry (disk_liquid t) s = record s { disk_liquid_entries = s.disk_liquid_entries + 1 }
  count_entry (disk_arrow t) s = record s { disk_arrow_entries = s.disk_arrow_entries + 1 }

  unfoldable pub count_entries : List (ℕ × CacheEntry F) → CacheStats → CacheStats
  unfolding count_entry
  count_entries [] s = s
  count_entries ((id, e) ∷ entries) s = count_entries entries (count_entry e s)

  unfoldable pub stats : {P : CachePolicy} → LiquidCache F P → CacheStats
  unfolding count_entries
  stats c =
      count_entries c.index.art
        (nothing_counted c.index.entry_count c.budget.used_memory_bytes c.budget.used_disk_bytes)

abbrev pub entries_sum : CacheStats → ℕ
entries_sum s =
    s.memory_arrow_entries + s.memory_liquid_entries + s.memory_squeezed_liquid_entries
    + s.disk_liquid_entries + s.disk_arrow_entries

abbrev pub bytes_sum : CacheStats → ℕ
bytes_sum s = s.memory_arrow_bytes + s.memory_liquid_bytes + s.memory_squeezed_liquid_bytes

module _ {F : Formats} where
  count_entry_lem :
      (e : CacheEntry F) (s : CacheStats)
      → (entries_sum (count_entry e s) ≡ entries_sum s + 1)
        × (bytes_sum (count_entry e s) ≡ bytes_sum s + memory_usage_bytes e)
        × ((count_entry e s).total_entries ≡ s.total_entries)
        × ((count_entry e s).usage_bytes ≡ s.usage_bytes)
  unfolding count_entry memory_usage_bytes
  count_entry_lem (memory_arrow a) s = (omega arith, omega arith, refl, refl)
  count_entry_lem (memory_liquid l) s = (omega arith, omega arith, refl, refl)
  count_entry_lem (memory_squeezed_liquid q) s = (omega arith, omega arith, refl, refl)
  count_entry_lem (disk_liquid t) s = (omega arith, omega arith, refl, refl)
  count_entry_lem (disk_arrow t) s = (omega arith, omega arith, refl, refl)

  count_entries_lem :
      (m : List (ℕ × CacheEntry F)) (s : CacheStats)
      → (entries_sum (count_entries m s) ≡ entries_sum s + length m)
        × (bytes_sum (count_entries m s) ≡ bytes_sum s + total m)
        × ((count_entries m s).total_entries ≡ s.total_entries)
        × ((count_entries m s).usage_bytes ≡ s.usage_bytes)
  unfolding count_entries
  count_entries_lem [] s = (omega arith, omega arith, refl, refl)
  count_entries_lem ((id, e) ∷ m) s =
      let (a, b, c, d) = count_entry_lem e s in
      let (a1, b1, c1, d1) = count_entries_lem m (count_entry e s) in
      (omega (arith, a, a1), omega (arith, b, b1), c1 ∙ c, d1 ∙ d)

  -- In an accounted cache whose index is counted, the numbers of entries by format add up to the
  -- reported total, and the bytes by format to the memory usage of the budget.
  pub stats_lem :
      {P : CachePolicy} (c : LiquidCache F P)
      → IsAccounted c
      → IsCounted c.index
      → (entries_sum (stats c) ≡ (stats c).total_entries)
        × (bytes_sum (stats c) ≡ (stats c).usage_bytes)
  unfolding stats
  stats_lem c g n =
      let start =
        nothing_counted c.index.entry_count c.budget.used_memory_bytes c.budget.used_disk_bytes in
      let (a, b, t, u) = count_entries_lem c.index.art start in
      (omega (arith, a, t, n), omega (arith, b, u, g.exact))
