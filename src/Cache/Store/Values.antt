-- ===== src/Cache/Store/Values.antt =====
-- The value that an identifier holds: its entry in the index, with its file.
use liquid_cache.Prelude.{
  ℕ, ◌≤◌, ◌≡◌, refl, false, Option, none, some, ◌==◌, arith, lookup, lookup-insert,
}
use liquid_cache.Cache.Entry.{
  Formats, CacheEntry, memory_arrow, memory_liquid, memory_squeezed_liquid, disk_liquid, disk_arrow,
  memory_usage_bytes, batch_type, rank,
}
use liquid_cache.Cache.Entry.Meaning.{Lossless, Stored}
use liquid_cache.Cache.Budget.{add_used_disk_bytes}
use liquid_cache.Cache.Squeeze.Laws.{after_write}
use liquid_cache.Cache.Policy.{CachePolicy}
use liquid_cache.Cache.Store.{LiquidCache, write_if_some, write_batch_to_disk, trace}
use liquid_cache.Cache.Store.Accounts.{IsAccounted}

pub rank-zero :
    {F : Formats} (e : CacheEntry F) → rank (batch_type e) ≡ 0 → memory_usage_bytes e ≡ 0
unfolding rank batch_type memory_usage_bytes
rank-zero (memory_arrow a) h = absurd (omega arith)
rank-zero (memory_liquid l) h = absurd (omega arith)
rank-zero (memory_squeezed_liquid s) h = absurd (omega arith)
rank-zero (disk_liquid t) h = refl
rank-zero (disk_arrow t) h = refl

pub rank-le : {F : Formats} (e : CacheEntry F) → rank (batch_type e) ≤ 3
unfolding rank batch_type
rank-le (memory_arrow a) = omega arith
rank-le (memory_liquid l) = omega arith
rank-le (memory_squeezed_liquid s) = omega arith
rank-le (disk_liquid t) = omega arith
rank-le (disk_arrow t) = omega arith

module _ {F : Formats} {P : CachePolicy} where
  -- The cache holds the value under the identifier.
  abbrev pub Holds : (L : Lossless F) → LiquidCache F P → ℕ → L.Value → Type 0
  Holds L c id v =
      (e : CacheEntry F) × (lookup id c.index.art ≡ some e) × Stored L v e (lookup id c.files)

  -- A write to the file of `id` leaves all else alone.
  pub record Written (c : LiquidCache F P) (id : ℕ) (bytes : Option F.Bytes) (c' : LiquidCache F P)
      : Type 0 where
    pub accounted : IsAccounted c → IsAccounted c'
    pub same_index : c'.index ≡ c.index
    pub same_policy : c'.cache_policy ≡ c.cache_policy
    pub same_limit : c'.budget.max_memory_bytes ≡ c.budget.max_memory_bytes
    pub file : lookup id c'.files ≡ after_write bytes (lookup id c.files)
    pub other_files : (j : ℕ) → (id == j) ≡ false → lookup j c'.files ≡ lookup j c.files

  pub write_if_some-Written :
      (c : LiquidCache F P) (id : ℕ) (e : CacheEntry F) (bytes : Option F.Bytes)
      → Written c id bytes (write_if_some c id e bytes)
  unfolding write_if_some write_batch_to_disk trace add_used_disk_bytes
  write_if_some-Written c id e none = record {
    accounted = λ a. a;
    same_index = refl;
    same_policy = refl;
    same_limit = refl;
    file = refl;
    other_files = λ j h. refl;
  }
  write_if_some-Written c id e (some b) = record {
    accounted = λ a. record { within = ground (arith, a.within); exact = a.exact };
    same_index = refl;
    same_policy = refl;
    same_limit = refl;
    file = ground (arith, lookup-insert id id b c.files);
    other_files = λ j h. ground (arith, lookup-insert id j b c.files);
  }
