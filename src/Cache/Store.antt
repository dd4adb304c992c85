-- ===== src/Cache/Store.antt =====
-- src/storage/src/cache/core.rs: `LiquidCache`, without its reads of Arrow arrays. One call runs
-- at a time, and the victims of a round are squeezed one after the other. The file system is a map
-- from the identifier in a file's path to the file's bytes; a write succeeds. The loops take fuel.
pub mod Accounts
pub mod Values
pub mod Squeezing
pub mod Replacing
pub mod Ending
pub mod Livelock
pub mod Flush
pub mod History
pub mod Stats
pub mod Reading
use liquid_cache.Prelude.{
  ℕ, zero, suc, Bool, Option, none, some, List, [], ◌∷◌, ◌++◌, map, insert as file_insert,
}
use liquid_cache.Cache.Entry.{
  Formats, CacheEntry, memory_arrow, memory_liquid, memory_squeezed_liquid, disk_liquid, disk_arrow,
  CachedBatchType, memory_usage_bytes, batch_type, liquid_backing, arrow_backing,
}
use liquid_cache.Cache.Budget
use liquid_cache.Cache.Budget.{
  BudgetAccounting, try_reserve_memory, try_update_memory_usage, add_used_disk_bytes, reset_usage,
}
use liquid_cache.Cache.Index
use liquid_cache.Cache.Index.{ArtIndex}
use liquid_cache.Cache.Policy.{CachePolicy}
use liquid_cache.Cache.Squeeze.{SqueezePolicy, disk_entry}
use liquid_cache.Cache.Hydrate.{HydrationPolicy, MaterializedEntry}

-- A panic, and a loop that has used up its fuel.
pub data Run {ℓ} (A : Type ℓ) : Type ℓ where
  done : A → Run A
  panic : Run A
  out_of_fuel : Run A

infixl 5 ◌>>=◌
abbrev pub ◌>>=◌ {ℓ κ} : {A : Type ℓ} {B : Type κ} → Run A → (A → Run B) → Run B
done a >>= f = f a
panic >>= f = panic
out_of_fuel >>= f = out_of_fuel

-- The events of observer/internal_tracing.rs that these operations record.
pub data InternalEvent : Type 0 where
  insert_failed insert_success : ℕ → CachedBatchType → InternalEvent
  squeeze_begin : List ℕ → InternalEvent
  squeeze_victim : ℕ → InternalEvent
  io_write : ℕ → CachedBatchType → ℕ → InternalEvent
  hydrate_event : ℕ → CachedBatchType → CachedBatchType → InternalEvent
  read_liquid_event : ℕ → InternalEvent
  io_read_liquid : ℕ → ℕ → InternalEvent

-- The newest event comes first.
pub record LiquidCache (F : Formats) (P : CachePolicy) : Type 0 where
  pub index : ArtIndex (CacheEntry F)
  pub budget : BudgetAccounting
  pub cache_policy : P.State
  pub files : List (ℕ × F.Bytes)
  pub events : List InternalEvent

unfoldable pub new : (F : Formats) (P : CachePolicy) → ℕ → P.State → LiquidCache F P
new F P max_cache_bytes cache_policy = record {
  index = Index.new (CacheEntry F);
  budget = Budget.new max_cache_bytes;
  cache_policy = cache_policy;
  files = [];
  events = [];
}

module _ {F : Formats} {P : CachePolicy} where
  unfoldable pub trace : LiquidCache F P → InternalEvent → LiquidCache F P
  trace c event = record c { events = event ∷ c.events }

  unfoldable pub write_batch_to_disk :
      LiquidCache F P → ℕ → CacheEntry F → F.Bytes → LiquidCache F P
  unfolding trace
  write_batch_to_disk c entry_id batch bytes =
      let c1 = trace c (io_write entry_id (batch_type batch) (F.bytes_len bytes)) in
      record c1 {
        files = file_insert entry_id bytes c1.files;
        budget = add_used_disk_bytes c1.budget (F.bytes_len bytes);
      }

  -- `write_batch_to_disk` where a policy returned bytes.
  unfoldable pub write_if_some :
      LiquidCache F P → ℕ → CacheEntry F → Option F.Bytes → LiquidCache F P
  write_if_some c entry_id batch none = c
  write_if_some c entry_id batch (some bytes) = write_batch_to_disk c entry_id batch bytes

  -- The part of `try_insert` that follows the reservation.
  unfoldable pub commit_insert :
      LiquidCache F P → ℕ → CacheEntry F → BudgetAccounting → LiquidCache F P
  unfolding trace
  commit_insert c entry_id to_insert budget =
      let c1 = record c { index = Index.insert c.index entry_id to_insert; budget = budget } in
      let c2 = trace c1 (insert_success entry_id (batch_type to_insert)) in
      record c2 { cache_policy = P.notify_insert entry_id (batch_type to_insert) c2.cache_policy }

  -- The reservation of `try_insert`.
  unfoldable pub reserve : LiquidCache F P → ℕ → CacheEntry F → Option BudgetAccounting
  reserve c entry_id to_insert = elim (Index.get c.index entry_id) [
    | some entry ↦
        try_update_memory_usage c.budget (memory_usage_bytes entry) (memory_usage_bytes to_insert)
    | none ↦ try_reserve_memory c.budget (memory_usage_bytes to_insert)
  ]

  -- `none` is the `Err` that gives the entry back; the cache is as it was.
  unfoldable pub try_insert : LiquidCache F P → ℕ → CacheEntry F → Option (LiquidCache F P)
  unfolding reserve commit_insert
  try_insert c entry_id to_insert = elim (reserve c entry_id to_insert) [
    | some budget ↦ some (commit_insert c entry_id to_insert budget)
    | none ↦ none
  ]

  unfoldable pub reset : LiquidCache F P → LiquidCache F P
  reset c = record c { index = Index.reset c.index; budget = reset_usage c.budget }

  -- `flush_all_to_disk`, for one of the entries that it has collected. The `expect`s are panics.
  unfoldable pub flush_entry : LiquidCache F P → ℕ → CacheEntry F → Run (LiquidCache F P)
  flush_entry c entry_id (memory_arrow a) =
      let c1 = write_batch_to_disk c entry_id (memory_arrow a) (F.arrow_to_bytes a) in
      elim (try_insert c1 entry_id (disk_arrow (F.arrow_type a))) [
        | some c2 ↦ done c2
        | none ↦ panic
      ]
  flush_entry c entry_id (memory_liquid l) =
      let c1 = write_batch_to_disk c entry_id (memory_liquid l) (F.liquid_to_bytes l) in
      elim (try_insert c1 entry_id (disk_liquid (F.liquid_type l))) [
        | some c2 ↦ done c2
        | none ↦ panic
      ]
  flush_entry c entry_id (memory_squeezed_liquid s) =
      elim (try_insert c entry_id (disk_entry (F.disk_backing s) (F.squeezed_type s))) [
        | some c2 ↦ done c2
        | none ↦ panic
      ]
  flush_entry c entry_id (disk_liquid t) = done c
  flush_entry c entry_id (disk_arrow t) = done c

  unfoldable pub flush_entries : List (ℕ × CacheEntry F) → LiquidCache F P → Run (LiquidCache F P)
  flush_entries [] c = done c
  flush_entries ((entry_id, batch) ∷ entries) c =
      flush_entry c entry_id batch >>= λ c1. flush_entries entries c1

  unfoldable pub flush_all_to_disk : LiquidCache F P → Run (LiquidCache F P)
  unfolding flush_entries
  flush_all_to_disk c = flush_entries (c.index.art) c

-- The operations that squeeze: over the squeeze policy and the hints of the IO context.
module _ {F : Formats} {P : CachePolicy} (squeeze : SqueezePolicy F)
    (squeeze_hint : ℕ → Option F.Hint) where
  -- The loop of `squeeze_victim_inner`.
  unfoldable pub squeeze_loop : ℕ → LiquidCache F P → ℕ → CacheEntry F → Run (LiquidCache F P)
  squeeze_loop zero c to_squeeze batch = out_of_fuel
  squeeze_loop (suc fuel) c to_squeeze batch =
      let (new_batch, bytes) = squeeze batch (squeeze_hint to_squeeze) in
      let c1 = write_if_some c to_squeeze new_batch bytes in
      elim (try_insert c1 to_squeeze new_batch) [
        | some c2 ↦ done c2
        | none ↦ squeeze_loop fuel c1 to_squeeze new_batch
      ]

  -- Four rounds: an entry has three formats in memory.
  unfoldable pub squeeze_victim_inner : LiquidCache F P → ℕ → Run (LiquidCache F P)
  unfolding trace squeeze_loop
  squeeze_victim_inner c to_squeeze = elim (Index.get c.index to_squeeze) [
    | none ↦ done c
    | some batch ↦ squeeze_loop 4 (trace c (squeeze_victim to_squeeze)) to_squeeze batch
  ]

  unfoldable pub squeeze_each : List ℕ → LiquidCache F P → Run (LiquidCache F P)
  squeeze_each [] c = done c
  squeeze_each (v ∷ victims) c = squeeze_victim_inner c v >>= λ c1. squeeze_each victims c1

  unfoldable pub squeeze_victims : List ℕ → LiquidCache F P → Run (LiquidCache F P)
  unfolding trace squeeze_each
  squeeze_victims victims c = squeeze_each victims (trace c (squeeze_begin victims))

  -- The batch to insert in its place; `unreachable!` is a panic.
  unfoldable pub write_in_memory_batch_to_disk :
      LiquidCache F P → ℕ → CacheEntry F → Run (LiquidCache F P × CacheEntry F)
  write_in_memory_batch_to_disk c entry_id (memory_arrow a) =
      let (new_batch, bytes) = squeeze (memory_arrow a) none in
      done (write_if_some c entry_id new_batch bytes, new_batch)
  write_in_memory_batch_to_disk c entry_id (memory_liquid l) = done (
    write_batch_to_disk c entry_id (memory_liquid l) (F.liquid_to_bytes l),
    disk_liquid (F.liquid_type l),
  )
  write_in_memory_batch_to_disk c entry_id (memory_squeezed_liquid s) =
      done (c, disk_entry (F.disk_backing s) (F.squeezed_type s))
  write_in_memory_batch_to_disk c entry_id (disk_liquid t) = panic
  write_in_memory_batch_to_disk c entry_id (disk_arrow t) = panic

  -- What `insert_inner` does after a failed insertion: the cache and the batch of the next round.
  unfoldable pub make_room :
      LiquidCache F P → ℕ → CacheEntry F → Run (LiquidCache F P × CacheEntry F)
  unfolding trace
  make_room c entry_id not_inserted =
      let c1 = trace c (insert_failed entry_id (batch_type not_inserted)) in
      elim (P.find_victim 8 c1.cache_policy) [
        | none ↦ panic
        | some ([], p) ↦
            write_in_memory_batch_to_disk (record c1 { cache_policy = p }) entry_id not_inserted
        | some (v ∷ victims, p) ↦
            squeeze_victims (v ∷ victims) (record c1 { cache_policy = p }) >>= λ c2.
            done (c2, not_inserted)
      ]

  unfoldable pub insert_inner : ℕ → ℕ → CacheEntry F → LiquidCache F P → Run (LiquidCache F P)
  insert_inner zero entry_id batch_to_cache c = out_of_fuel
  insert_inner (suc fuel) entry_id batch_to_cache c = elim (try_insert c entry_id batch_to_cache) [
    | some c1 ↦ done c1
    | none ↦
        make_room c entry_id batch_to_cache >>= λ (c1, batch). insert_inner fuel entry_id batch c1
  ]

  unfoldable pub maybe_hydrate :
      HydrationPolicy F
      → ℕ
      → ℕ
      → CacheEntry F
      → MaterializedEntry F
      → Option F.Hint
      → LiquidCache F P
      → Run (LiquidCache F P)
  unfolding trace
  maybe_hydrate hydrate fuel entry_id cached materialized expression c =
      elim (hydrate cached materialized expression) [
        | none ↦ done c
        | some new_entry ↦
            insert_inner fuel entry_id new_entry
              (trace c (hydrate_event entry_id (batch_type cached) (batch_type new_entry)))
      ]
