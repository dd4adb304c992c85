-- ===== src/Cache/Tests/Policies.antt =====
-- The theorems on the budget, the index and the policies.
use liquid_cache.Prelude.{
  ℕ, ◌+◌, ◌≡◌, refl, ◌⊎◌, Option, true, none, some, List, [], ◌∷◌, ◌++◌, arith, min, length, take,
  drop, count, lookup, add_usize,
}
use liquid_cache.Cache.Entry.{CachedBatchType, disk_arrow}
use liquid_cache.Cache.Budget.{BudgetAccounting, load_and_check, compare_exchange}
use liquid_cache.Cache.Budget.Laws.{IsWithin}
use liquid_cache.Cache.Budget.Threads.{
  outside, loaded, Threads, at, load, exchange, Reach, here, next, IsSound, Reach-IsSound,
}
use liquid_cache.Cache.Index.{ArtIndex}
use liquid_cache.Cache.Squeeze.{evict, transcode_squeeze_evict, transcode_evict}
use liquid_cache.Cache.Squeeze.Laws.{IsSqueezePolicy, policies-IsSqueezePolicy}
use liquid_cache.Cache.Hydrate.{MaterializedEntry, always_hydrate}
use liquid_cache.Cache.Hydrate.Laws.{Promotes, always_hydrate-Promotes}
use liquid_cache.Cache.Policy.ThreeQueue.{
  QueueKind, LiquidQueueState, list_of, find_victim, upsert_into_queue, squeezed,
}
use liquid_cache.Cache.Policy.ThreeQueue.Places.{IsPlaced, upsert_into_queue-IsPlaced}
use liquid_cache.Cache.Policy.ThreeQueue.Victims.{in_memory, find_victim-in_memory}
use liquid_cache.Cache.Policy.Lru
use liquid_cache.Cache.Policy.Lru.{HashList}
use liquid_cache.Cache.Policy.Lru.Recency.{IsLinked, reverse, find_victim_lem}
use liquid_cache.Cache.Policy.S3Fifo
use liquid_cache.Cache.Policy.S3Fifo.{S3FifoState}
use liquid_cache.Cache.Policy.S3Fifo.Measures.{IsMeasured}
use liquid_cache.Cache.Policy.S3Fifo.Rounds.{Emptied, Evicted}
use liquid_cache.Cache.Policy.S3Fifo.Sizes.{evict_from_small_lem}
use liquid_cache.Cache.Policy.S3Fifo.Ghosts.{notify_insert-ghost_twice}
use liquid_cache.Cache.Tests.{toy_lossless, no_paths}

abbrev half : BudgetAccounting
half = record { max_memory_bytes = 100; used_memory_bytes = 50; used_disk_bytes = 0 }

half-IsWithin : IsWithin half
half-IsWithin = record { limit = omega arith; used = omega arith }

abbrev idle : Threads
idle = record { budget = half; phase = λ t. outside; held = 50 }

idle-IsSound : IsSound idle
idle-IsSound = record {
  within = half-IsWithin;
  exact = refl;
  checked = λ t request used e. ground (arith, e);
}

-- Two threads load; the first one exchanges.
abbrev one_loaded : Threads
one_loaded = record idle { phase = at idle.phase 1 (loaded 40 50) }

abbrev two_loaded : Threads
two_loaded = record one_loaded { phase = at one_loaded.phase 2 (loaded 30 50) }

abbrev reserved : BudgetAccounting
reserved = record half { used_memory_bytes = 90 }

abbrev exchanged : Threads
exchanged = record {
  budget = reserved;
  phase = at two_loaded.phase 1 outside;
  held = two_loaded.held + 40;
}

exchanged-Reach : Reach idle exchanged
unfolding load_and_check compare_exchange add_usize
exchanged-Reach =
    next
      (next (next here (load 1 40 50 (omega arith) refl refl))
        (load 2 30 50 (omega arith) refl refl))
      (exchange 1 40 50 reserved refl refl)

Reach-IsSound_example : IsSound exchanged
Reach-IsSound_example = Reach-IsSound idle-IsSound exchanged-Reach

abbrev one_entry : ArtIndex ℕ
one_entry = record { art = (3, 30) ∷ []; entry_count = 1 }

policies-IsSqueezePolicy_example :
    IsSqueezePolicy toy_lossless evict
    × IsSqueezePolicy toy_lossless transcode_squeeze_evict
    × IsSqueezePolicy toy_lossless transcode_evict
policies-IsSqueezePolicy_example = policies-IsSqueezePolicy toy_lossless

always_hydrate-Promotes_example :
    Promotes toy_lossless 7
      (some 7)
      (disk_arrow tt)
      (always_hydrate no_paths (disk_arrow tt) (MaterializedEntry.arrow 7) none)
always_hydrate-Promotes_example =
    always_hydrate-Promotes toy_lossless no_paths (λ a s h s' e. refl) 7 (some 7) none
      (disk_arrow tt) (MaterializedEntry.arrow 7) refl refl

abbrev queued : LiquidQueueState
queued = record {
  map = (1, QueueKind.arrow) ∷ (2, QueueKind.squeezed) ∷ [];
  arrow_list = 1 ∷ [];
  liquid_list = [];
  squeezed_list = 2 ∷ [];
  disk_list = [];
}

queued-IsPlaced : IsPlaced queued
unfolding list_of lookup
queued-IsPlaced QueueKind.arrow id = ground arith
queued-IsPlaced QueueKind.liquid id = ground arith
queued-IsPlaced QueueKind.squeezed id = ground arith
queued-IsPlaced QueueKind.disk id = ground arith

upsert_into_queue-IsPlaced_example : IsPlaced (upsert_into_queue 1 squeezed queued)
upsert_into_queue-IsPlaced_example = upsert_into_queue-IsPlaced 1 squeezed queued queued-IsPlaced

find_victim-in_memory_example :
    (t : LiquidQueueState) × (find_victim 1 queued ≡ some (take 1 (in_memory queued), t))
    × IsPlaced t
    × (in_memory t ≡ drop 1 (in_memory queued))
    × (t.disk_list ≡ queued.disk_list)
find_victim-in_memory_example = find_victim-in_memory 1 queued queued-IsPlaced

abbrev recent : HashList
recent = record { map = 5 ∷ 6 ∷ []; list = 6 ∷ 5 ∷ [] }

recent-IsLinked : IsLinked recent
recent-IsLinked = record { once = λ id. ground arith; keys = λ id. ground arith }

find_victim_lem_example :
    (ids : List ℕ) × (t : HashList) × (Lru.find_victim 1 recent ≡ some (ids, t))
    × IsLinked t
    × (recent.list ≡ t.list ++ reverse ids)
    × (length ids ≡ min 1 (length recent.list))
find_victim_lem_example = find_victim_lem 1 recent recent-IsLinked

-- Identifier 9 was evicted from the small queue; 4 and 5 are in it.
abbrev with_ghost : S3FifoState
with_ghost = record {
  small = 4 ∷ 5 ∷ [];
  main = [];
  ghost = 9 ∷ [];
  ghost_set = 9 ∷ [];
  frequency = (4, 0) ∷ (5, 2) ∷ [];
  small_queue_size = 2;
  main_queue_size = 0;
  total_size = 2;
}

with_ghost-IsMeasured : IsMeasured with_ghost
with_ghost-IsMeasured = record {
  small_size = refl;
  main_size = refl;
  total = refl;
  bounded = omega arith;
}

evict_from_small_lem_example :
    (o : Option ℕ) × (s1 : S3FifoState) × (S3Fifo.evict_from_small 3 with_ghost ≡ some (o, s1))
    × IsMeasured s1
    × (((o ≡ none) × Emptied with_ghost s1)
        ⊎ ((v : ℕ) × (left : List ℕ) × (moved : List ℕ) × (o ≡ some v)
            × Evicted v left moved with_ghost s1))
evict_from_small_lem_example = evict_from_small_lem 3 with_ghost with_ghost-IsMeasured (omega arith)

is_ghost : S3Fifo.contains 9 with_ghost.ghost_set ≡ true
unfolding S3Fifo.contains
is_ghost = refl

no_frequency : lookup 9 with_ghost.frequency ≡ none
unfolding lookup
no_frequency = refl

notify_insert-ghost_twice_example :
    let s1 = S3Fifo.notify_insert 9 CachedBatchType.memory_arrow with_ghost in
    let s2 = S3Fifo.notify_insert 9 CachedBatchType.memory_liquid s1 in
    (S3Fifo.notify_access 9 CachedBatchType.memory_liquid s1 ≡ s1)
    × (count 9 s2.main ≡ count 9 with_ghost.main + 1)
    × (count 9 s2.small ≡ count 9 with_ghost.small + 1)
notify_insert-ghost_twice_example =
    notify_insert-ghost_twice 9 CachedBatchType.memory_arrow CachedBatchType.memory_liquid
      with_ghost is_ghost no_frequency
