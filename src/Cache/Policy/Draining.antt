-- ===== src/Cache/Policy/Draining.antt =====
-- What makes the cache's insertion loop end: a policy whose victims are used up.
use liquid_cache.Prelude.{
  ℕ, suc, ◌+◌, ◌-◌, ◌≤◌, ◌≡◌, Option, some, List, [], ◌∷◌, ◌==◌, if◌then◌else◌, length,
}
use liquid_cache.Cache.Entry.{CachedBatchType, rank}
use liquid_cache.Cache.Policy.{CachePolicy}

-- What squeezing each victim once can leave: its rank less one.
abbrev pub excess : (ℕ → ℕ) → List ℕ → ℕ
excess r [] = 0
excess r (v ∷ vs) = (r v - 1) + excess r vs

-- The policy keeps a number for each identifier that it may choose, at most the rank that it was
-- last told, and its weight bounds their sum. Choosing victims takes their numbers away.
pub record Draining (P : CachePolicy) : Type 1 where
  pub Inv : P.State → Type 0
  pub weight : P.State → ℕ
  pub tracked : P.State → ℕ → Option ℕ
  pub insert_inv :
      (id : ℕ) (t : CachedBatchType) (s : P.State) → Inv s → Inv (P.notify_insert id t s)
  pub insert_weight :
      (id : ℕ) (t : CachedBatchType) (s : P.State)
      → Inv s
      → weight (P.notify_insert id t s) ≤ weight s + rank t
  pub insert_tracked :
      (id a : ℕ) (t : CachedBatchType) (s : P.State)
      → Inv s
      → tracked (P.notify_insert id t s) a ≡ (if id == a then some (rank t) else tracked s a)
  pub victims :
      (cnt : ℕ) (s : P.State)
      → Inv s
      → (vs : List ℕ) × (t : P.State) × (P.find_victim (suc cnt) s ≡ some (vs, t))
        × Inv t
        × ((r : ℕ → ℕ)
            → ((a l : ℕ) → tracked s a ≡ some l → r a ≤ l)
            → weight t + (excess r vs + length vs) ≤ weight s)
        × ((a l : ℕ) → tracked t a ≡ some l → tracked s a ≡ some l)
        × (vs ≡ [] → weight t ≡ 0)
