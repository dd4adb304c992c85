-- ===== src/Cache/Store/Ending/Rounds.antt =====
-- The rounds of `insert_inner`: each one makes room or moves the batch towards disk.
use liquid_cache.Prelude.{
  ℕ, zero, suc, ◌+◌, ◌≤◌, ◌<◌, ◌≡◌, refl, ap, ◌∙◌, ◌⊎◌, inl, inr, Option, some, List, [], ◌∷◌, ◌==◌,
  arith, lookup, length,
}
use liquid_cache.Cache.Entry.{
  Formats, IsSized, CacheEntry, memory_arrow, memory_liquid, memory_squeezed_liquid, disk_liquid,
  disk_arrow, batch_type, rank,
}
use liquid_cache.Cache.Entry.Meaning.{Lossless, Stored}
use liquid_cache.Cache.Squeeze.{SqueezePolicy}
use liquid_cache.Cache.Squeeze.Laws.{IsSqueezePolicy}
use liquid_cache.Cache.Policy.{CachePolicy}
use liquid_cache.Cache.Policy.Draining.{Draining, excess}
use liquid_cache.Cache.Store.{
  LiquidCache, done, squeeze_victims, make_room, insert_inner, trace, insert_failed, squeeze_begin,
}
use liquid_cache.Cache.Store.Accounts.{Inserted, try_insert-cases}
use liquid_cache.Cache.Store.Values.{Holds}
use liquid_cache.Cache.Store.Squeezing.{rank-of_full}
use liquid_cache.Cache.Store.Replacing.{Replaced, write_in_memory_batch_to_disk-Replaced}
use liquid_cache.Cache.Store.Ending.{IsGood, Kept, Kept-trans, rank_at, squeeze_each_lem}

-- An entry that is decoded in memory does not need its file.
Stored-in_memory :
    {F : Formats} (L : Lossless F) (v : L.Value) (e : CacheEntry F) (f g : Option F.Bytes)
    → 2 ≤ rank (batch_type e)
    → Stored L v e f
    → Stored L v e g
unfolding rank batch_type
Stored-in_memory L v (memory_arrow a) f g h s = s
Stored-in_memory L v (memory_liquid l) f g h s = s
Stored-in_memory L v (memory_squeezed_liquid q) f g h s = absurd (omega arith)
Stored-in_memory L v (disk_liquid t) f g h s = absurd (omega arith)
Stored-in_memory L v (disk_arrow t) f g h s = absurd (omega arith)

module _ {F : Formats} {P : CachePolicy} (L : Lossless F) (d : Draining P) where
  -- The batch stands for the value, and no squeezing to come can take its file from it.
  abbrev pub IsSafe : LiquidCache F P → ℕ → CacheEntry F → L.Value → Type 0
  IsSafe c id e v =
      Stored L v e (lookup id c.files) × ((2 ≤ rank (batch_type e)) ⊎ (d.weight c.cache_policy ≡ 0))

  -- One round without insertion, from the batch `e` to the batch `e1`.
  pub record Round (c : LiquidCache F P) (id : ℕ) (e : CacheEntry F) (c1 : LiquidCache F P)
      (e1 : CacheEntry F) : Type 0 where
    pub good : IsGood d c1
    pub kept : Kept L (λ j. id == j) c c1
    pub less :
        d.weight c1.cache_policy + rank (batch_type e1)
        < d.weight c.cache_policy + rank (batch_type e)
    pub safe : (v : L.Value) → IsSafe c id e v → IsSafe c1 id e1 v

  -- Nothing left to squeeze.
  Replaced-Round :
      (c c0 c1 : LiquidCache F P) (id : ℕ) (e e1 : CacheEntry F)
      → IsGood d c
      → c0.index ≡ c.index
      → c0.budget ≡ c.budget
      → c0.files ≡ c.files
      → IsGood d c0
      → d.weight c0.cache_policy ≡ 0
      → Replaced L c0 id e e1 c1
      → Round c id e c1 e1
  Replaced-Round c c0 c1 id e e1 g same_index same_budget same_files g0 nothing r = record {
    good = record {
      accounted = r.accounted g0.accounted;
      inv = rw r.same_policy g0.inv;
      tracks = λ a l t. rw r.same_index (g0.tracks a l (rw (← r.same_policy) t));
    };
    kept = record {
      same_limit = r.same_limit ∙ ap (λ b. b.max_memory_bytes) same_budget;
      holds = λ j v n (x, f, s).
          (x, rw (r.same_index, same_index) f, rw (r.other_files j n, same_files) s);
    };
    less = rw (r.same_policy, nothing) (omega (arith, r.lower));
    safe = λ v (s, _). (r.value v (rw same_files s), inr (rw r.same_policy nothing));
  }

module _ {F : Formats} {P : CachePolicy} (z : IsSized F) (L : Lossless F)
    {squeeze : SqueezePolicy F} (law : IsSqueezePolicy L squeeze) (hint : ℕ → Option F.Hint)
    (d : Draining P) where
  abbrev RoundOf : LiquidCache F P → ℕ → CacheEntry F → Type 0
  RoundOf c id e =
      (c1 : LiquidCache F P) × (e1 : CacheEntry F) × (make_room squeeze hint c id e ≡ done (c1, e1))
      × Round L d c id e c1 e1

  -- The round for the victims that the policy has chosen.
  victims-Round :
      (c : LiquidCache F P) (id : ℕ) (e : CacheEntry F) (vs : List ℕ) (t : P.State)
      → IsGood d c
      → 1 ≤ rank (batch_type e)
      → P.find_victim 8 c.cache_policy ≡ some (vs, t)
      → d.Inv t
      → (d.weight t + (excess (rank_at c) vs + length vs) ≤ d.weight c.cache_policy)
      → ((a l : ℕ) → d.tracked t a ≡ some l → d.tracked c.cache_policy a ≡ some l)
      → (vs ≡ [] → d.weight t ≡ 0)
      → RoundOf c id e
  unfolding make_room squeeze_victims trace
  victims-Round c id e [] t g h found inv bound tracked nothing =
      let c0 : LiquidCache F P = record (trace c (insert_failed id (batch_type e))) {
        cache_policy = t;
      } in
      let g0 : IsGood d c0 = record {
        accounted = record { within = g.accounted.within; exact = g.accounted.exact };
        inv = inv;
        tracks = λ a l q. g.tracks a l (tracked a l q);
      } in
      let (c1, e1, ends, r) = write_in_memory_batch_to_disk-Replaced L law hint c0 id e h in
      (
        c1,
        e1,
        rw (found, make_room) ends,
        Replaced-Round L d c c0 c1 id e e1 g refl refl refl g0 (nothing refl) r,
      )
  victims-Round c id e (v ∷ vs) t g h found inv bound tracked nothing =
      let c0 : LiquidCache F P =
        trace (record (trace c (insert_failed id (batch_type e))) { cache_policy = t })
          (squeeze_begin (v ∷ vs)) in
      let g0 : IsGood d c0 = record {
        accounted = record { within = g.accounted.within; exact = g.accounted.exact };
        inv = inv;
        tracks = λ a l q. g.tracks a l (tracked a l q);
      } in
      let (c1, ends, g1, k, w) = squeeze_each_lem z L law hint d (v ∷ vs) c0 g0 in
      (
        c1,
        e,
        rw (found, make_room) (rw ends refl),
        record {
          good = g1;
          kept = record { same_limit = k.same_limit; holds = λ j x n y. k.holds j x refl y };
          less = omega (arith, w, bound);
          safe = λ x s. elim (s.1) [
            | inl big ↦
                (Stored-in_memory L x e (lookup id c.files) (lookup id c1.files) big s.0, inl big)
            | inr none_left ↦ absurd (omega (arith, bound, none_left))
          ];
        },
      )

  make_room-Round :
      (c : LiquidCache F P) (id : ℕ) (e : CacheEntry F)
      → IsGood d c
      → 1 ≤ rank (batch_type e)
      → RoundOf c id e
  make_room-Round c id e g h =
      let (vs, t, found, inv, bound, tracked, nothing) = d.victims 7 c.cache_policy g.inv in
      victims-Round c id e vs t g h found inv (bound (rank_at c) g.tracks) tracked nothing

  Inserted-IsGood :
      (c c1 : LiquidCache F P) (id : ℕ) (e : CacheEntry F)
      → IsGood d c
      → Inserted c id e c1
      → IsGood d c1 × Kept L (λ j. id == j) c c1
  Inserted-IsGood c c1 id e g i = (
    record {
      accounted = i.accounted;
      inv = rw i.notified (d.insert_inv id (batch_type e) c.cache_policy g.inv);
      tracks = λ a l t.
          let t' = rw i.notified at t in
          ground (
            arith,
            t',
            g.tracks a l,
            i.found a,
            d.insert_tracked id a (batch_type e) c.cache_policy g.inv,
          );
    },
    record {
      same_limit = i.same_limit;
      holds = λ j v n (x, f, s). (x, ground (arith, i.found j, n, f), rw i.same_files s);
    },
  )

  -- The loop of `insert_inner` ends, without a panic, for every entry and in a cache of any limit,
  -- if the fuel is more than the policy's weight and the entry's rank. The inserted identifier then
  -- holds the entry's value, every other identifier holds what it held, the limit is the same, and
  -- the used memory is that of the entries and within the limit. The policy is one that drains. The
  -- entry is in memory and decoded, or there is nothing to squeeze. The weight grows by the entry's
  -- rank at most.
  pub insert_inner_lem :
      (fuel : ℕ) (id : ℕ) (e : CacheEntry F) (c : LiquidCache F P) (v : L.Value)
      → IsGood d c
      → IsSafe L d c id e v
      → d.weight c.cache_policy + rank (batch_type e) < fuel
      → (c1 : LiquidCache F P) × (insert_inner squeeze hint fuel id e c ≡ done c1)
        × IsGood d c1
        × Holds L c1 id v
        × Kept L (λ j. id == j) c c1
        × (d.weight c1.cache_policy ≤ d.weight c.cache_policy + rank (batch_type e))
  unfolding insert_inner
  insert_inner_lem zero id e c v g s h = absurd (omega arith)
  insert_inner_lem (suc fuel) id e c v g s h = elim (try_insert-cases z c id e g.accounted) [
    | inr (c1, ok, i, _) ↦
        let (g1, k) = Inserted-IsGood c c1 id e g i in
        (
          c1,
          rw (ok, insert_inner) refl,
          g1,
          (e, ground (arith, i.found id), rw i.same_files s.0),
          k,
          rw i.notified (d.insert_weight id (batch_type e) c.cache_policy g.inv),
        )
    | inl (full, over) ↦
        let (c1, e1, ok, r) = make_room-Round c id e g (rank-of_full z c id e g.accounted full) in
        let (c2, ends, g2, held, k, w) =
          insert_inner_lem fuel id e1 c1 v r.good (r.safe v s) (omega (arith, r.less)) in
        (
          c2,
          rw (full, insert_inner) (rw ok ends),
          g2,
          held,
          Kept-trans r.kept k,
          omega (arith, w, r.less),
        )
  ]
