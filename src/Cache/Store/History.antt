-- ===== src/Cache/Store/History.antt =====
-- A cache with `LiquidPolicy` under any sequence of insertions, from `LiquidCache::new`.
use liquid_cache.Prelude.{
  ℕ, ◌+◌, ◌*◌, ◌≤◌, ◌<◌, ◌≡◌, refl, ◌∙◌, inl, inr, Option, none, some, List, [], ◌∷◌, false, ◌==◌,
  if◌then◌else◌, arith, lookup, length, isize_limit, Option-cases,
}
use liquid_cache.Cache.Entry.{Formats, IsSized, memory_arrow, batch_type, rank}
use liquid_cache.Cache.Entry.Meaning.{Lossless}
use liquid_cache.Cache.Budget
use liquid_cache.Cache.Index
use liquid_cache.Cache.Squeeze.{SqueezePolicy}
use liquid_cache.Cache.Squeeze.Laws.{IsSqueezePolicy}
use liquid_cache.Cache.Policy.{CachePolicy}
use liquid_cache.Cache.Policy.ThreeQueue
use liquid_cache.Cache.Policy.ThreeQueue.Places.{new-IsPlaced}
use liquid_cache.Cache.Policy.ThreeQueue.Drains.{liquid_policy, liquid_policy-Draining}
use liquid_cache.Cache.Store
use liquid_cache.Cache.Store.{LiquidCache, Run, done, ◌>>=◌, insert_inner}
use liquid_cache.Cache.Store.Accounts.{total}
use liquid_cache.Cache.Store.Values.{Holds}
use liquid_cache.Cache.Store.Ending.{IsGood}
use liquid_cache.Cache.Store.Ending.Rounds.{insert_inner_lem}

-- The specification: a map of the arrays that were inserted last.
abbrev pub latest {ℓ} : {A : Type ℓ} → ℕ → List (ℕ × A) → Option A
latest j [] = none
latest j ((k, a) ∷ items) = elim (latest j items) [
  | some b ↦ some b
  | none ↦ if k == j then some a else none
]

module _ {A : Type 0} where
  abbrev shadowed : ℕ → ℕ → A → Option A → Option A
  shadowed j k a o = elim o [ some b ↦ some b | none ↦ if k == j then some a else none ]

  latest_first :
      (j k : ℕ) (a b : A) (o : Option A) → o ≡ none → shadowed j k a o ≡ some b → (k ≡ j) × (a ≡ b)
  latest_first j k a b none e h = (ground (arith, h), ground (arith, h))
  latest_first j k a b (some c) e h = absurd (ground (arith, e))

  latest_later :
      (j k : ℕ) (a b c : A) (o : Option A) → o ≡ some c → shadowed j k a o ≡ some b → o ≡ some b
  latest_later j k a b c none e h = absurd (ground (arith, e))
  latest_later j k a b c (some d) e h = h

  latest_none :
      (j k : ℕ) (a : A) (o : Option A) → shadowed j k a o ≡ none → (o ≡ none) × ((k == j) ≡ false)
  latest_none j k a none h = (refl, ground (arith, h))
  latest_none j k a (some b) h = absurd (ground (arith, h))

-- Each insertion is awaited before the next.
unfoldable pub insert_all :
    {F : Formats} {P : CachePolicy}
    → SqueezePolicy F
    → (ℕ → Option F.Hint)
    → ℕ
    → List (ℕ × F.Arrow)
    → LiquidCache F P
    → Run (LiquidCache F P)
insert_all squeeze hint fuel [] c = done c
insert_all squeeze hint fuel ((id, a) ∷ items) c =
    insert_inner squeeze hint fuel id (memory_arrow a) c >>= λ c1.
    insert_all squeeze hint fuel items c1

module _ {F : Formats} where
  abbrev new_cache : ℕ → LiquidCache F liquid_policy
  new_cache limit = Store.new F liquid_policy limit ThreeQueue.new

  new-IsGood : (limit : ℕ) → limit < isize_limit → IsGood liquid_policy-Draining (new_cache limit)
  unfolding Store.new Budget.new Index.new ThreeQueue.new lookup
  new-IsGood limit h = record {
    accounted = record { within = record { limit = h; used = omega arith }; exact = refl };
    inv = new-IsPlaced;
    tracks = λ a l t. omega arith;
  }

new-limit :
    (F : Formats) (limit : ℕ)
    → ((new_cache {F = F} limit).budget.max_memory_bytes ≡ limit)
      × (liquid_policy-Draining.weight (new_cache {F = F} limit).cache_policy ≡ 0)
unfolding Store.new Budget.new ThreeQueue.new
new-limit F limit = (refl, refl)

module _ {F : Formats} (z : IsSized F) (L : Lossless F) {squeeze : SqueezePolicy F}
    (law : IsSqueezePolicy L squeeze) (hint : ℕ → Option F.Hint) where
  insert_all-Holds :
      (fuel : ℕ) (items : List (ℕ × F.Arrow)) (c : LiquidCache F liquid_policy)
      → IsGood liquid_policy-Draining c
      → liquid_policy-Draining.weight c.cache_policy + 3 * length items < fuel
      → (c1 : LiquidCache F liquid_policy) × (insert_all squeeze hint fuel items c ≡ done c1)
        × IsGood liquid_policy-Draining c1
        × (c1.budget.max_memory_bytes ≡ c.budget.max_memory_bytes)
        × ((j : ℕ) (a : F.Arrow) → latest j items ≡ some a → Holds L c1 j (L.arrow_value a))
        × ((j : ℕ) (v : L.Value) → latest j items ≡ none → Holds L c j v → Holds L c1 j v)
  unfolding insert_all batch_type rank
  insert_all-Holds fuel [] c g h =
      (c, refl, g, refl, λ j a e. absurd (ground (arith, e)), λ j v e x. x)
  insert_all-Holds fuel ((id, a) ∷ items) c g h =
      let (c1, once, g1, held, k, w) =
        insert_inner_lem z L law hint liquid_policy-Draining fuel id (memory_arrow a) c
          (L.arrow_value a) g (refl, inl (omega arith)) (omega arith) in
      let (c2, ends, g2, m, new, old) = insert_all-Holds fuel items c1 g1 (omega (arith, w)) in
      (
        c2,
        rw once ends,
        g2,
        m ∙ k.same_limit,
        λ j b e. elim (Option-cases (latest j items)) [
          | inl absent ↦
              let (same, is_a) = latest_first j id a b (latest j items) absent e in
              old j (L.arrow_value b) absent (rw (← same, ← is_a) held)
          | inr (b1, found) ↦ new j b (latest_later j id a b b1 (latest j items) found e)
        ],
        λ j v e x.
            let (absent, other) = latest_none j id a (latest j items) e in
            old j v absent (k.holds j v other x),
      )

  -- A cache with `LiquidPolicy`, of any limit and under any of the squeeze policies, behaves as a
  -- map. After any insertions every identifier holds the array that was inserted under it last, in
  -- whatever format, and the used memory is that of the entries and within the limit. No insertion
  -- panics, and each ends within 3 rounds for each of the insertions and one more. The conversions
  -- lose nothing, and the limit is a possible allocation.
  pub insert_all_lem :
      (limit : ℕ) (items : List (ℕ × F.Arrow)) (fuel : ℕ)
      → limit < isize_limit
      → 3 * length items < fuel
      → (c1 : LiquidCache F liquid_policy) × (insert_all squeeze hint fuel items (new_cache limit)
          ≡ done c1)
        × (c1.budget.used_memory_bytes ≡ total c1.index.art)
        × (total c1.index.art ≤ limit)
        × ((j : ℕ) (a : F.Arrow) → latest j items ≡ some a → Holds L c1 j (L.arrow_value a))
  insert_all_lem limit items fuel h f =
      let (m0, w0) = new-limit F limit in
      let (c1, ends, g, m, new, _) =
        insert_all-Holds fuel items (new_cache limit) (new-IsGood limit h) (omega (arith, w0)) in
      (
        c1,
        ends,
        g.accounted.exact,
        omega (arith, g.accounted.within, g.accounted.exact, m, m0),
        new,
      )
