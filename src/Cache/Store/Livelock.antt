-- ===== src/Cache/Store/Livelock.antt =====
-- `insert_inner` with a policy that may choose an entry on disk: `LruPolicy`.
use liquid_cache.Prelude.{
  ℕ, zero, suc, ◌<◌, ◌≡◌, refl, ◌∙◌, inl, inr, Option, some, [], ◌∷◌, arith, lookup,
}
use liquid_cache.Cache.Entry.{
  Formats, IsSized, CacheEntry, CachedBatchType, memory_usage_bytes, batch_type, rank,
}
use liquid_cache.Cache.Entry.Meaning.{Lossless}
use liquid_cache.Cache.Squeeze.{SqueezePolicy}
use liquid_cache.Cache.Squeeze.Laws.{IsSqueezePolicy}
use liquid_cache.Cache.Policy.Lru.{
  HashList, find_victim, notify_insert, lru_policy, contains_key, tail, remove_and_release,
  push_front, move_to_front,
}
use liquid_cache.Cache.Store.{
  LiquidCache, done, out_of_fuel, squeeze_victims, squeeze_each, make_room, insert_inner, trace,
  insert_failed, squeeze_begin,
}
use liquid_cache.Cache.Store.Accounts.{IsAccounted, try_insert-cases}
use liquid_cache.Cache.Store.Squeezing.{squeeze_victim_inner-Squeezed}

abbrev pub one : ℕ → HashList
one k = record { map = k ∷ []; list = k ∷ [] }

abbrev none_left : HashList
none_left = record { map = []; list = [] }

find_victim-one : (k : ℕ) → find_victim 8 (one k) ≡ some (k ∷ [], none_left)
unfolding find_victim contains_key tail remove_and_release
find_victim-one k = ground arith

notify_insert-none_left : (k : ℕ) (t : CachedBatchType) → notify_insert k t (none_left) ≡ one k
unfolding notify_insert contains_key push_front move_to_front
notify_insert-none_left k t = refl

-- The cache tracks one entry, which is on disk.
pub record IsFlushed {F : Formats} (k : ℕ) (c : LiquidCache F lru_policy) : Type 0 where
  pub accounted : IsAccounted c
  pub tracked : c.cache_policy ≡ one k
  pub entry : CacheEntry F
  pub found : lookup k c.index.art ≡ some entry
  pub on_disk : rank (batch_type entry) ≡ 0

module _ {F : Formats} (z : IsSized F) (L : Lossless F) {squeeze : SqueezePolicy F}
    (law : IsSqueezePolicy L squeeze) (hint : ℕ → Option F.Hint) where
  -- A round squeezes the entry on disk, to itself.
  make_room-IsFlushed :
      (id k : ℕ) (e : CacheEntry F) (c : LiquidCache F lru_policy)
      → IsFlushed k c
      → (c1 : LiquidCache F lru_policy) × (make_room squeeze hint c id e ≡ done (c1, e))
        × IsFlushed k c1
        × (c1.budget.max_memory_bytes ≡ c.budget.max_memory_bytes)
  unfolding make_room squeeze_victims squeeze_each trace
  make_room-IsFlushed id k e c g =
      let chosen : find_victim 8 c.cache_policy ≡ some (k ∷ [], none_left) =
        rw g.tracked (find_victim-one k) in
      let c0 : LiquidCache F lru_policy =
        trace (record (trace c (insert_failed id (batch_type e))) { cache_policy = none_left })
          (squeeze_begin (k ∷ [])) in
      let a0 : IsAccounted c0 = record { within = g.accounted.within; exact = g.accounted.exact } in
      let (e1, c1, once, q) = squeeze_victim_inner-Squeezed z L law hint c0 k g.entry a0 g.found in
      (
        c1,
        rw (chosen, make_room) (rw once refl),
        record {
          accounted = q.accounted;
          tracked = q.notified ∙ notify_insert-none_left k (batch_type e1);
          entry = e1;
          found = ground (arith, q.found k);
          on_disk = omega (arith, q.lower, g.on_disk);
        },
        q.same_limit,
      )

  -- An insertion of an entry larger than the limit, where `LruPolicy` tracks an entry on disk,
  -- never ends: in each round that entry is the victim, and squeezing it changes nothing and puts
  -- it back. The batch itself is never written to disk.
  pub insert_inner-lru_livelock :
      (fuel id k : ℕ) (e : CacheEntry F) (c : LiquidCache F lru_policy)
      → IsFlushed k c
      → c.budget.max_memory_bytes < memory_usage_bytes e
      → insert_inner squeeze hint fuel id e c ≡ out_of_fuel
  unfolding insert_inner
  insert_inner-lru_livelock zero id k e c g h = refl
  insert_inner-lru_livelock (suc fuel) id k e c g h = elim (try_insert-cases z c id e g.accounted) [
    | inr (_, _, _, fits) ↦ absurd (omega (arith, fits))
    | inl (full, over) ↦
        let (c1, ok, g1, m) = make_room-IsFlushed id k e c g in
        rw (full, insert_inner) (rw ok (insert_inner-lru_livelock fuel id k e c1 g1 (rw m h)))
  ]
