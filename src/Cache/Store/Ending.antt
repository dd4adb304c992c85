-- ===== src/Cache/Store/Ending.antt =====
-- `squeeze_victims` and the loop of `insert_inner`, with a policy whose victims are used up.
pub mod Rounds
use liquid_cache.Prelude.{
  ℕ, zero, suc, ◌+◌, ◌-◌, ◌≤◌, ◌<◌, ◌≡◌, refl, ◌∙◌, sym, ◌⊎◌, inl, inr, Option, none, some, List,
  [], ◌∷◌, Bool, true, false, ◌==◌, if◌then◌else◌, arith, lookup, length, Option-cases, Bool-cases,
}
use liquid_cache.Cache.Entry.{Formats, IsSized, CacheEntry, batch_type, rank}
use liquid_cache.Cache.Entry.Meaning.{Lossless, Stored}
use liquid_cache.Cache.Index
use liquid_cache.Cache.Squeeze.{SqueezePolicy}
use liquid_cache.Cache.Squeeze.Laws.{IsSqueezePolicy}
use liquid_cache.Cache.Policy.{CachePolicy}
use liquid_cache.Cache.Policy.Draining.{Draining, excess}
use liquid_cache.Cache.Store.{LiquidCache, Run, done, squeeze_victim_inner, squeeze_each}
use liquid_cache.Cache.Store.Accounts.{IsAccounted}
use liquid_cache.Cache.Store.Values.{Holds}
use liquid_cache.Cache.Store.Squeezing.{Squeezed, squeeze_victim_inner-Squeezed}

-- How many times the entry of an identifier can be squeezed.
abbrev pub rank_of : {F : Formats} → Option (CacheEntry F) → ℕ
rank_of none = 0
rank_of (some e) = rank (batch_type e)

module _ {F : Formats} {P : CachePolicy} where
  abbrev pub rank_at : LiquidCache F P → ℕ → ℕ
  rank_at c a = rank_of (lookup a c.index.art)

  -- The cache is accounted, and its policy tracks at least the rank of each entry that it tracks.
  pub record IsGood (d : Draining P) (c : LiquidCache F P) : Type 0 where
    pub accounted : IsAccounted c
    pub inv : d.Inv c.cache_policy
    pub tracks : (a l : ℕ) → d.tracked c.cache_policy a ≡ some l → rank_at c a ≤ l

  -- Every identifier but those that `f` marks holds what it held.
  pub record Kept (L : Lossless F) (f : ℕ → Bool) (c c' : LiquidCache F P) : Type 0 where
    pub same_limit : c'.budget.max_memory_bytes ≡ c.budget.max_memory_bytes
    pub holds : (j : ℕ) (v : L.Value) → f j ≡ false → Holds L c j v → Holds L c' j v

  pub Kept-trans :
      {L : Lossless F} {f : ℕ → Bool} {c c1 c2 : LiquidCache F P}
      → Kept L f c c1
      → Kept L f c1 c2
      → Kept L f c c2
  Kept-trans k l = record {
    same_limit = l.same_limit ∙ k.same_limit;
    holds = λ j v n h. l.holds j v n (k.holds j v n h);
  }

excess_mono : (r q : ℕ → ℕ) (vs : List ℕ) → ((a : ℕ) → r a ≤ q a) → excess r vs ≤ excess q vs
excess_mono r q [] h = omega arith
excess_mono r q (v ∷ vs) h = omega (arith, h v, excess_mono r q vs h)

module _ {F : Formats} {P : CachePolicy} (z : IsSized F) (L : Lossless F)
    {squeeze : SqueezePolicy F} (law : IsSqueezePolicy L squeeze) (hint : ℕ → Option F.Hint)
    (d : Draining P) where
  Squeezed-Holds :
      (c c1 : LiquidCache F P) (v j : ℕ) (e e' : CacheEntry F) (x : L.Value)
      → lookup v c.index.art ≡ some e
      → Squeezed L c v e e' c1
      → Holds L c j x
      → Holds L c1 j x
  Squeezed-Holds c c1 v j e e' x found q (e0, f, s) = elim (Bool-cases (v == j)) [
    | inl same ↦
        let at_j : v ≡ j = ground (arith, same) in
        let old : e0 ≡ e = cc (f, found, at_j) in
        let stored : Stored L x e (lookup v c.files) = rw at_j (rw (← old) s) in
        (e', ground (arith, q.found j, same), rw (← at_j) (q.value x stored))
    | inr other ↦ (e0, ground (arith, q.found j, other, f), rw (q.other_files j other) s)
  ]

  -- Squeezing a victim that has an entry.
  Squeezed-IsGood :
      (c c1 : LiquidCache F P) (v : ℕ) (e e' : CacheEntry F)
      → IsGood d c
      → lookup v c.index.art ≡ some e
      → Squeezed L c v e e' c1
      → IsGood d c1
        × Kept L (λ j. false) c c1
        × (d.weight c1.cache_policy ≤ d.weight c.cache_policy + (rank_at c v - 1))
        × ((a : ℕ) → rank_at c1 a ≤ rank_at c a)
  Squeezed-IsGood c c1 v e e' g found q = (
    record {
      accounted = q.accounted;
      inv = rw q.notified (d.insert_inv v (batch_type e') c.cache_policy g.inv);
      tracks = λ a l t.
          let t' = rw q.notified at t in
          ground (
            arith,
            t',
            g.tracks a l,
            q.found a,
            d.insert_tracked v a (batch_type e') c.cache_policy g.inv,
          );
    },
    record {
      same_limit = q.same_limit;
      holds = λ j x n h. Squeezed-Holds c c1 v j e e' x found q h;
    },
    rw (q.notified, found)
        (omega (arith, q.lower, d.insert_weight v (batch_type e') c.cache_policy g.inv)),
    λ a. elim (Bool-cases (v == a)) [
      | inl same ↦
          let at_a : v ≡ a = ground (arith, same) in
          ground (arith, q.found a, same, q.lower, at_a, found)
      | inr other ↦ ground (arith, q.found a, other)
    ],
  )

  -- Squeezing victims one after the other always ends. Each victim's entry gets smaller, so the
  -- policy is told of less than the victims' ranks, and every identifier holds what it held.
  pub squeeze_each_lem :
      (vs : List ℕ) (c : LiquidCache F P)
      → IsGood d c
      → (c1 : LiquidCache F P) × (squeeze_each squeeze hint vs c ≡ done c1)
        × IsGood d c1
        × Kept L (λ j. false) c c1
        × (d.weight c1.cache_policy ≤ d.weight c.cache_policy + excess (rank_at c) vs)
  unfolding squeeze_each squeeze_victim_inner Index.get
  squeeze_each_lem [] c g =
      (c, refl, g, record { same_limit = refl; holds = λ j v n h. h }, omega arith)
  squeeze_each_lem (v ∷ vs) c g = elim (Option-cases (lookup v c.index.art)) [
    | inl e ↦
        let (c1, ends, g1, k, w) = squeeze_each_lem vs c g in
        (c1, rw (e, squeeze_victim_inner) ends, g1, k, omega (arith, w))
    | inr (e, found) ↦
        let (e', c1, once, q) =
          squeeze_victim_inner-Squeezed z L law hint c v e g.accounted found in
        let (g1, k1, w1, m) = Squeezed-IsGood c c1 v e e' g found q in
        let (c2, ends, g2, k2, w2) = squeeze_each_lem vs c1 g1 in
        (
          c2,
          rw once ends,
          g2,
          Kept-trans k1 k2,
          omega (arith, w1, w2, excess_mono (rank_at c1) (rank_at c) vs m),
        )
  ]
