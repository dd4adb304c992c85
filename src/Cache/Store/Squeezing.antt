-- ===== src/Cache/Store/Squeezing.antt =====
-- Squeezing an entry: the loop ends, the entry gets smaller, and it holds the same value.
use native.Mathlib.Decide.{dec_lt}
use liquid_cache.Prelude.{
  ℕ, zero, suc, ◌-◌, ◌≤◌, ◌<◌, ◌≡◌, refl, ◌∙◌, sym, inl, inr, Option, none, some, false, ◌==◌,
  if◌then◌else◌, arith, lookup,
}
use liquid_cache.Cache.Entry.{Formats, IsSized, CacheEntry, batch_type, rank}
use liquid_cache.Cache.Entry.Meaning.{Lossless, Stored}
use liquid_cache.Cache.Index
use liquid_cache.Cache.Squeeze.{SqueezePolicy}
use liquid_cache.Cache.Squeeze.Laws.{IsSqueezePolicy, Descends}
use liquid_cache.Cache.Policy.{CachePolicy}
use liquid_cache.Cache.Store.{
  LiquidCache, done, write_if_some, try_insert, squeeze_loop, squeeze_victim_inner, trace,
  squeeze_victim,
}
use liquid_cache.Cache.Store.Accounts.{IsAccounted, Inserted, try_insert-cases, try_insert_free}
use liquid_cache.Cache.Store.Values.{Written, write_if_some-Written, rank-zero, rank-le}

pub Descends-lower :
    {F : Formats} (e : CacheEntry F) (r : CacheEntry F × Option F.Bytes)
    → Descends F e r
    → rank (batch_type r.0) ≤ rank (batch_type e) - 1
Descends-lower e r (inl h) = omega arith
Descends-lower e r (inr (h, k)) = ground arith

-- Only an entry in memory can fail to be inserted.
pub rank-of_full :
    {F : Formats} {P : CachePolicy}
    → IsSized F
    → (c : LiquidCache F P) (id : ℕ) (e : CacheEntry F) → IsAccounted c
    → try_insert c id e ≡ none
    → 1 ≤ rank (batch_type e)
rank-of_full z c id e a full = elim (dec_lt 0 (rank (batch_type e))) [
  | yes h ↦ h
  | no h ↦
      let (c', s, i) = try_insert_free z c id e a (rank-zero e (omega arith)) in
      absurd (cc (sym full ∙ s))
]

module _ {F : Formats} {P : CachePolicy} (L : Lossless F) where
  -- What squeezing `e` under `id`, to the entry `e'`, makes of `c`. The rank falls unless it is 0.
  pub record Squeezed (c : LiquidCache F P) (id : ℕ) (e e' : CacheEntry F) (c' : LiquidCache F P)
      : Type 0 where
    pub accounted : IsAccounted c'
    pub lower : rank (batch_type e') ≤ rank (batch_type e) - 1
    pub found :
        (j : ℕ) → lookup j c'.index.art ≡ (if id == j then some e' else lookup j c.index.art)
    pub other_files : (j : ℕ) → (id == j) ≡ false → lookup j c'.files ≡ lookup j c.files
    pub same_limit : c'.budget.max_memory_bytes ≡ c.budget.max_memory_bytes
    pub value :
        (v : L.Value) → Stored L v e (lookup id c.files) → Stored L v e' (lookup id c'.files)
    pub notified : c'.cache_policy ≡ P.notify_insert id (batch_type e') c.cache_policy

module _ {F : Formats} {P : CachePolicy} (z : IsSized F) (L : Lossless F)
    {squeeze : SqueezePolicy F} (law : IsSqueezePolicy L squeeze) (hint : ℕ → Option F.Hint) where
  -- One round in which the insertion succeeds.
  Inserted-Squeezed :
      (c c1 c2 : LiquidCache F P) (id : ℕ) (e : CacheEntry F)
      → Written c id (squeeze e (hint id)).1 c1
      → Inserted c1 id (squeeze e (hint id)).0 c2
      → Squeezed L c id e (squeeze e (hint id)).0 c2
  Inserted-Squeezed c c1 c2 id e w i = record {
    accounted = i.accounted;
    lower = Descends-lower e (squeeze e (hint id)) (law.descends e (hint id));
    found = λ j. ground (arith, i.found j, w.same_index);
    other_files = λ j h. ground (arith, i.same_files, w.other_files j h);
    same_limit = i.same_limit ∙ w.same_limit;
    value = λ v s. rw (i.same_files, w.file) (law.keeps e (hint id) v (lookup id c.files) s);
    notified = ground (arith, i.notified, w.same_policy);
  }

  -- A round in which the insertion fails, before the rounds that follow.
  later-Squeezed :
      (c c1 c2 : LiquidCache F P) (id : ℕ) (e e' : CacheEntry F)
      → Written c id (squeeze e (hint id)).1 c1
      → Squeezed L c1 id (squeeze e (hint id)).0 e' c2
      → Squeezed L c id e e' c2
  later-Squeezed c c1 c2 id e e' w q = record {
    accounted = q.accounted;
    lower =
        omega (arith, q.lower, Descends-lower e (squeeze e (hint id)) (law.descends e (hint id)));
    found = λ j. ground (arith, q.found j, w.same_index);
    other_files = λ j h. q.other_files j h ∙ w.other_files j h;
    same_limit = q.same_limit ∙ w.same_limit;
    value = λ v s. q.value v (rw w.file (law.keeps e (hint id) v (lookup id c.files) s));
    notified = ground (arith, q.notified, w.same_policy);
  }

  -- With more fuel than the entry's rank the loop ends.
  squeeze_loop_lem :
      (fuel : ℕ) (c : LiquidCache F P) (id : ℕ) (e : CacheEntry F)
      → IsAccounted c
      → rank (batch_type e) < fuel
      → (e' : CacheEntry F) × (c' : LiquidCache F P) × (squeeze_loop squeeze hint fuel c id e
          ≡ done c')
        × Squeezed L c id e e' c'
  unfolding squeeze_loop
  squeeze_loop_lem zero c id e a h = absurd (omega arith)
  squeeze_loop_lem (suc fuel) c id e a h =
      let r = squeeze e (hint id) in
      let c1 = write_if_some c id r.0 r.1 in
      let w = write_if_some-Written c id r.0 r.1 in
      elim (try_insert-cases z c1 id r.0 (w.accounted a)) [
        | inr (c2, s, i, _) ↦
            (r.0, c2, rw (s, squeeze_loop) refl, Inserted-Squeezed c c1 c2 id e w i)
        | inl (full, over) ↦
            let positive = rank-of_full z c1 id r.0 (w.accounted a) full in
            let lower = Descends-lower e r (law.descends e (hint id)) in
            let (e', c2, ends, q) = squeeze_loop_lem fuel c1 id r.0 (w.accounted a) (omega arith) in
            (e', c2, rw (full, squeeze_loop) ends, later-Squeezed c c1 c2 id e e' w q)
      ]

  -- In an accounted cache, squeezing a victim that has an entry always ends, within its four rounds.
  -- The entry goes strictly down the formats unless it is on disk, and stands for the value that it
  -- stood for; every other entry and file stays, and the accounting stays exact.
  pub squeeze_victim_inner-Squeezed :
      (c : LiquidCache F P) (id : ℕ) (e : CacheEntry F)
      → IsAccounted c
      → lookup id c.index.art ≡ some e
      → (e' : CacheEntry F) × (c' : LiquidCache F P) × (squeeze_victim_inner squeeze hint c id
          ≡ done c')
        × Squeezed L c id e e' c'
  unfolding squeeze_victim_inner Index.get trace
  squeeze_victim_inner-Squeezed c id e a found =
      let c0 : LiquidCache F P = trace c (squeeze_victim id) in
      let a0 : IsAccounted c0 = record { within = a.within; exact = a.exact } in
      let (e', c', ends, q) = squeeze_loop_lem 4 c0 id e a0 (omega (arith, rank-le e)) in
      (
        e',
        c',
        rw (found, squeeze_victim_inner) ends,
        record {
          accounted = q.accounted;
          lower = q.lower;
          found = q.found;
          other_files = q.other_files;
          same_limit = q.same_limit;
          value = q.value;
          notified = q.notified;
        },
      )
