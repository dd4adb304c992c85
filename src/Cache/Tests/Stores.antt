-- ===== src/Cache/Tests/Stores.antt =====
-- The theorems on the cache's store, on a cache of 150 bytes that holds one Arrow array.
use liquid_cache.Prelude.{
  true, Option, ℕ, ◌+◌, ◌≤◌, ◌<◌, ◌≡◌, ◌⊎◌, refl, inl, false, none, some, List, [], ◌∷◌, ◌==◌,
  arith, lookup, entries,
}
use liquid_cache.Cache.Entry.{
  CacheEntry, memory_arrow, disk_liquid, memory_usage_bytes, batch_type, rank,
}
use liquid_cache.Cache.Squeeze.{transcode_squeeze_evict}
use liquid_cache.Cache.Policy.Draining.{excess}
use liquid_cache.Cache.Policy.ThreeQueue
use liquid_cache.Cache.Policy.ThreeQueue.{QueueKind, LiquidQueueState, list_of}
use liquid_cache.Cache.Policy.ThreeQueue.Places.{IsPlaced}
use liquid_cache.Cache.Policy.ThreeQueue.Drains.{liquid_policy, liquid_policy-Draining}
use liquid_cache.Cache.Policy.Lru.{lru_policy}
use liquid_cache.Cache.Store
use liquid_cache.Cache.Store.{
  LiquidCache, Run, done, out_of_fuel, try_insert, squeeze_victim_inner, squeeze_each,
  write_in_memory_batch_to_disk, insert_inner, flush_all_to_disk,
}
use liquid_cache.Cache.Store.Accounts.{
  IsAccounted, Inserted, needed, total, IsUnique, try_insert-cases,
}
use liquid_cache.Cache.Store.Values.{Holds}
use liquid_cache.Cache.Store.Squeezing.{Squeezed, squeeze_victim_inner-Squeezed}
use liquid_cache.Cache.Store.Replacing.{Replaced, write_in_memory_batch_to_disk-Replaced}
use liquid_cache.Cache.Store.Ending.{IsGood, Kept, rank_at, squeeze_each_lem}
use liquid_cache.Cache.Store.Ending.Rounds.{insert_inner_lem}
use liquid_cache.Cache.Store.Flush.{flush_all_to_disk_lem}
use liquid_cache.Cache.Store.History.{insert_all, latest, insert_all_lem}
use liquid_cache.Cache.Store.Livelock.{IsFlushed, insert_inner-lru_livelock}
use liquid_cache.Cache.Store.Stats.{stats, entries_sum, bytes_sum, stats_lem}
use liquid_cache.Cache.Store.Reading.{try_read_liquid}
use liquid_cache.Cache.Store.Reading.Answers.{Answer, try_read_liquid_lem}
use liquid_cache.Cache.Entry.Meaning.{Stored}
use liquid_cache.Cache.Hydrate.{always_hydrate}
use liquid_cache.Cache.Tests.{no_paths, toy, toy_lossless, toy-IsSized, toy_law, no_hint}

abbrev one_queued : LiquidQueueState
one_queued = record {
  map = (1, QueueKind.arrow) ∷ [];
  arrow_list = 1 ∷ [];
  liquid_list = [];
  squeezed_list = [];
  disk_list = [];
}

abbrev full : LiquidCache toy liquid_policy
full = record {
  index = record { art = (1, memory_arrow 7) ∷ []; entry_count = 1 };
  budget = record { max_memory_bytes = 150; used_memory_bytes = 100; used_disk_bytes = 0 };
  cache_policy = one_queued;
  files = [];
  events = [];
}

full-IsAccounted : IsAccounted full
unfolding memory_usage_bytes
full-IsAccounted = record {
  within = record { limit = omega arith; used = omega arith };
  exact = refl;
}

one_queued-IsPlaced : IsPlaced one_queued
unfolding list_of lookup
one_queued-IsPlaced QueueKind.arrow id = ground arith
one_queued-IsPlaced QueueKind.liquid id = ground arith
one_queued-IsPlaced QueueKind.squeezed id = ground arith
one_queued-IsPlaced QueueKind.disk id = ground arith

full-IsGood : IsGood liquid_policy-Draining full
unfolding lookup rank batch_type
full-IsGood = record {
  accounted = full-IsAccounted;
  inv = one_queued-IsPlaced;
  tracks = λ a l t. ground (arith, t);
}

full_found : lookup 1 full.index.art ≡ some (memory_arrow 7)
unfolding lookup
full_found = refl

try_insert-cases_example :
    ((try_insert full 2 (memory_arrow 8) ≡ none)
      × (full.budget.max_memory_bytes < needed full 2 (memory_arrow 8)))
    ⊎ ((c' : LiquidCache toy liquid_policy) × (try_insert full 2 (memory_arrow 8) ≡ some c')
        × Inserted full 2 (memory_arrow 8) c'
        × (needed full 2 (memory_arrow 8) ≤ full.budget.max_memory_bytes))
try_insert-cases_example = try_insert-cases toy-IsSized full 2 (memory_arrow 8) full-IsAccounted

squeeze_victim_inner-Squeezed_example :
    (e' : CacheEntry toy) × (c' : LiquidCache toy liquid_policy) × (squeeze_victim_inner
        transcode_squeeze_evict no_hint full 1
      ≡ done c')
    × Squeezed toy_lossless full 1 (memory_arrow 7) e' c'
squeeze_victim_inner-Squeezed_example =
    squeeze_victim_inner-Squeezed toy-IsSized toy_lossless toy_law no_hint full 1 (memory_arrow 7)
      full-IsAccounted full_found

squeeze_each_lem_example :
    (c1 : LiquidCache toy liquid_policy) × (squeeze_each transcode_squeeze_evict no_hint
        (1 ∷ [])
        full
      ≡ done c1)
    × IsGood liquid_policy-Draining c1
    × Kept toy_lossless (λ j. false) full c1
    × (liquid_policy-Draining.weight c1.cache_policy
        ≤ liquid_policy-Draining.weight full.cache_policy + excess (rank_at full) (1 ∷ []))
squeeze_each_lem_example =
    squeeze_each_lem toy-IsSized toy_lossless toy_law no_hint liquid_policy-Draining (1 ∷ []) full
      full-IsGood

positive_rank : 1 ≤ rank (batch_type {F = toy} (memory_arrow 8))
unfolding rank batch_type
positive_rank = omega arith

write_in_memory_batch_to_disk-Replaced_example :
    (c' : LiquidCache toy liquid_policy) × (e' : CacheEntry toy) × (write_in_memory_batch_to_disk
        transcode_squeeze_evict no_hint full 2
        (memory_arrow 8)
      ≡ done (c', e'))
    × Replaced toy_lossless full 2 (memory_arrow 8) e' c'
write_in_memory_batch_to_disk-Replaced_example =
    write_in_memory_batch_to_disk-Replaced toy_lossless toy_law no_hint full 2 (memory_arrow 8)
      positive_rank

enough_fuel :
    liquid_policy-Draining.weight full.cache_policy + rank (batch_type {F = toy} (memory_arrow 8))
    < 9
unfolding rank batch_type
enough_fuel = omega arith

decoded : 2 ≤ rank (batch_type {F = toy} (memory_arrow 8))
unfolding rank batch_type
decoded = omega arith

insert_inner_lem_example :
    (c1 : LiquidCache toy liquid_policy) × (insert_inner transcode_squeeze_evict no_hint 9 2
        (memory_arrow 8)
        full
      ≡ done c1)
    × IsGood liquid_policy-Draining c1
    × Holds toy_lossless c1 2 8
    × Kept toy_lossless (λ j. 2 == j) full c1
    × (liquid_policy-Draining.weight c1.cache_policy
        ≤ liquid_policy-Draining.weight full.cache_policy
          + rank (batch_type {F = toy} (memory_arrow 8)))
insert_inner_lem_example =
    insert_inner_lem toy-IsSized toy_lossless toy_law no_hint liquid_policy-Draining 9 2
      (memory_arrow 8) full 8 full-IsGood (refl, inl decoded) enough_fuel

full-IsUnique : IsUnique full.index.art
unfolding entries
full-IsUnique = λ k. ground arith

flush_all_to_disk_lem_example :
    (c1 : LiquidCache toy liquid_policy) × (flush_all_to_disk full ≡ done c1)
    × IsAccounted c1
    × ((j : ℕ) → rank_at c1 j ≡ 0)
    × (c1.budget.used_memory_bytes ≡ 0)
    × Kept toy_lossless (λ j. false) full c1
flush_all_to_disk_lem_example =
    flush_all_to_disk_lem toy-IsSized toy_lossless full full-IsAccounted full-IsUnique

abbrev three_inserts : List (ℕ × toy.Arrow)
three_inserts = (1, 7) ∷ (2, 8) ∷ (1, 9) ∷ []

insert_all_lem_example :
    (c1 : LiquidCache toy liquid_policy) × (insert_all transcode_squeeze_evict no_hint 10
        three_inserts
        (Store.new toy liquid_policy 150 ThreeQueue.new)
      ≡ done c1)
    × (c1.budget.used_memory_bytes ≡ total c1.index.art)
    × (total c1.index.art ≤ 150)
    × ((j : ℕ) (a : ℕ) → latest j three_inserts ≡ some a → Holds toy_lossless c1 j a)
insert_all_lem_example =
    insert_all_lem toy-IsSized toy_lossless toy_law no_hint 150 three_inserts 10 (omega arith)
      (omega arith)

abbrev flushed : LiquidCache toy lru_policy
flushed = record {
  index = record { art = (1, disk_liquid tt) ∷ []; entry_count = 1 };
  budget = record { max_memory_bytes = 50; used_memory_bytes = 0; used_disk_bytes = 64 };
  cache_policy = record { map = 1 ∷ []; list = 1 ∷ [] };
  files = (1, 7) ∷ [];
  events = [];
}

flushed-IsFlushed : IsFlushed 1 flushed
unfolding memory_usage_bytes lookup rank batch_type
flushed-IsFlushed = record {
  accounted = record { within = record { limit = omega arith; used = omega arith }; exact = refl };
  tracked = refl;
  entry = disk_liquid tt;
  found = refl;
  on_disk = refl;
}

too_large : flushed.budget.max_memory_bytes < memory_usage_bytes {F = toy} (memory_arrow 8)
unfolding memory_usage_bytes
too_large = omega arith

insert_inner-lru_livelock_example :
    insert_inner transcode_squeeze_evict no_hint 20 2 (memory_arrow 8) flushed ≡ out_of_fuel
insert_inner-lru_livelock_example =
    insert_inner-lru_livelock toy-IsSized toy_lossless toy_law no_hint 20 2 1 (memory_arrow 8)
      flushed flushed-IsFlushed too_large

stats_lem_example :
    (entries_sum (stats full) ≡ (stats full).total_entries)
    × (bytes_sum (stats full) ≡ (stats full).usage_bytes)
stats_lem_example = stats_lem full full-IsAccounted refl

-- The array 7 is on disk in the Liquid format.
abbrev on_disk : LiquidCache toy liquid_policy
on_disk = record {
  index = record { art = (1, disk_liquid tt) ∷ []; entry_count = 1 };
  budget = record { max_memory_bytes = 150; used_memory_bytes = 0; used_disk_bytes = 64 };
  cache_policy = record {
    map = (1, QueueKind.disk) ∷ [];
    arrow_list = [];
    liquid_list = [];
    squeezed_list = [];
    disk_list = 1 ∷ [];
  };
  files = (1, 7) ∷ [];
  events = [];
}

on_disk-IsPlaced : IsPlaced (on_disk.cache_policy)
unfolding list_of lookup
on_disk-IsPlaced QueueKind.arrow id = ground arith
on_disk-IsPlaced QueueKind.liquid id = ground arith
on_disk-IsPlaced QueueKind.squeezed id = ground arith
on_disk-IsPlaced QueueKind.disk id = ground arith

on_disk-IsGood : IsGood liquid_policy-Draining on_disk
unfolding lookup rank batch_type memory_usage_bytes
on_disk-IsGood = record {
  accounted = record { within = record { limit = omega arith; used = omega arith }; exact = refl };
  inv = on_disk-IsPlaced;
  tracks = λ a l t. ground (arith, t);
}

on_disk_found : lookup 1 on_disk.index.art ≡ some (disk_liquid tt)
unfolding lookup
on_disk_found = refl

on_disk-Stored : Stored toy_lossless 7 (disk_liquid tt) (lookup 1 on_disk.files)
unfolding lookup
on_disk-Stored = refl

try_read_liquid_lem_example :
    (o : Option ℕ) × (c1 : LiquidCache toy liquid_policy) × (try_read_liquid transcode_squeeze_evict
        no_hint
        (always_hydrate no_paths)
        (λ b. b)
        5
        1
        on_disk
      ≡ done (o, c1))
    × Answer toy_lossless true 7 o
    × IsGood liquid_policy-Draining c1
    × Holds toy_lossless c1 1 7
    × Kept toy_lossless (λ j. 1 == j) on_disk c1
try_read_liquid_lem_example =
    try_read_liquid_lem toy-IsSized toy_lossless toy_law no_hint no_paths 5 1 (disk_liquid tt)
      on_disk 7 on_disk-IsGood on_disk_found on_disk-Stored (omega arith)
