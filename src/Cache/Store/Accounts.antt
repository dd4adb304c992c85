-- ===== src/Cache/Store/Accounts.antt =====
-- The memory accounting of the cache: the counter is the memory of the entries in the index.
use liquid_cache.Prelude.{
  ℕ, ◌+◌, ◌-◌, ◌≤◌, ◌<◌, ◌≡◌, refl, ◌⊎◌, inl, inr, Option, none, some, List, [], ◌∷◌, ◌==◌, ltb,
  if◌then◌else◌, arith, lookup, insert, lookup-insert, isize_limit, entries, entries-insert_self,
  entries-insert_ne, Bool-cases, Option-cases,
}
use liquid_cache.Cache.Entry.{
  Formats, IsSized, CacheEntry, memory_arrow, memory_liquid, memory_squeezed_liquid, disk_liquid,
  disk_arrow, memory_usage_bytes, batch_type,
}
use liquid_cache.Cache.Budget.{BudgetAccounting}
use liquid_cache.Cache.Budget.Laws.{IsWithin, try_reserve_memory_lem, try_update_memory_usage_lem}
use liquid_cache.Cache.Index
use liquid_cache.Cache.Policy.{CachePolicy}
use liquid_cache.Cache.Store.{LiquidCache, reserve, commit_insert, try_insert}

module _ {F : Formats} where
  abbrev pub size_of : Option (CacheEntry F) → ℕ
  size_of none = 0
  size_of (some e) = memory_usage_bytes e

  abbrev pub total : List (ℕ × CacheEntry F) → ℕ
  total [] = 0
  total ((k, e) ∷ m) = memory_usage_bytes e + total m

  total-insert :
      (k : ℕ) (e : CacheEntry F) (m : List (ℕ × CacheEntry F))
      → total (insert k e m) + size_of (lookup k m) ≡ total m + memory_usage_bytes e
  unfolding insert lookup
  total-insert k e [] = omega arith
  total-insert k e ((j, x) ∷ m) = ground (arith, total-insert k e m)

  pub entries-absent : (k : ℕ) (m : List (ℕ × CacheEntry F)) → entries k m ≡ 0 → lookup k m ≡ none
  unfolding entries lookup
  entries-absent k [] h = refl
  entries-absent k ((j, e) ∷ m) h = ground (arith, entries-absent k m)

  size_of-le : (k : ℕ) (m : List (ℕ × CacheEntry F)) → size_of (lookup k m) ≤ total m
  unfolding lookup
  size_of-le k [] = omega arith
  size_of-le k ((j, x) ∷ m) = ground (arith, size_of-le k m)

  memory_usage_bytes-lt : IsSized F → (e : CacheEntry F) → memory_usage_bytes e < isize_limit
  unfolding memory_usage_bytes
  memory_usage_bytes-lt z (memory_arrow a) = z.arrow_fits a
  memory_usage_bytes-lt z (memory_liquid l) = z.liquid_fits l
  memory_usage_bytes-lt z (memory_squeezed_liquid s) = z.squeezed_fits s
  memory_usage_bytes-lt z (disk_liquid t) = omega arith
  memory_usage_bytes-lt z (disk_arrow t) = omega arith

  -- Each identifier has at most one entry.
  abbrev pub IsUnique : List (ℕ × CacheEntry F) → Type 0
  IsUnique m = (k : ℕ) → entries k m ≤ 1

  insert-IsUnique :
      (k : ℕ) (e : CacheEntry F) (m : List (ℕ × CacheEntry F))
      → IsUnique m
      → IsUnique (insert k e m)
  insert-IsUnique k e m u j = elim (Bool-cases (k == j)) [
    | inl same ↦
        let at_j : k ≡ j = ground (arith, same) in
        rw (← at_j) (omega (arith, entries-insert_self k e m (u k)))
    | inr other ↦ omega (arith, entries-insert_ne k j e m (ground (arith, other)), u j)
  ]

  -- If what is found takes no memory, then the map takes none.
  pub total-zero :
      (m : List (ℕ × CacheEntry F))
      → IsUnique m
      → ((k : ℕ) → size_of (lookup k m) ≡ 0)
      → total m ≡ 0
  unfolding lookup entries
  total-zero [] u h = refl
  total-zero ((j, e) ∷ m) u h =
      let rest : total m ≡ 0 =
        total-zero m (λ k. omega (arith, u k))
          λ k. elim (Bool-cases (j == k)) [
            | inl same ↦ ground (arith, same, u k, entries-absent k m)
            | inr other ↦ ground (arith, other, h k)
          ] in
      ground (arith, rest, h j)

module _ {F : Formats} {P : CachePolicy} where
  -- The used memory is within the limit, and it is the memory of the entries.
  pub record IsAccounted (c : LiquidCache F P) : Type 0 where
    pub within : IsWithin c.budget
    pub exact : c.budget.used_memory_bytes ≡ total c.index.art

  -- What an insertion of `e` under `id` that succeeds makes of `c`.
  pub record Inserted (c : LiquidCache F P) (id : ℕ) (e : CacheEntry F) (c' : LiquidCache F P)
      : Type 0 where
    pub accounted : IsAccounted c'
    pub found : (j : ℕ) → lookup j c'.index.art ≡ (if id == j then some e else lookup j c.index.art)
    pub unique : IsUnique c.index.art → IsUnique c'.index.art
    pub same_files : c'.files ≡ c.files
    pub same_limit : c'.budget.max_memory_bytes ≡ c.budget.max_memory_bytes
    pub notified : c'.cache_policy ≡ P.notify_insert id (batch_type e) c.cache_policy

  -- The memory after the insertion.
  abbrev pub needed : LiquidCache F P → ℕ → CacheEntry F → ℕ
  needed c id e = total c.index.art - size_of (lookup id c.index.art) + memory_usage_bytes e

  reserve_lem :
      IsSized F
      → (c : LiquidCache F P) (id : ℕ) (e : CacheEntry F) → IsAccounted c
      → reserve c id e ≡ (
          if ltb c.budget.max_memory_bytes (needed c id e)
          then none
          else some (record (c.budget) { used_memory_bytes = needed c id e }))
  unfolding reserve Index.get
  reserve_lem z c id e a = elim (Option-cases (lookup id c.index.art)) [
    | inl n ↦ ground (
      arith,
      n,
      a.exact,
      a.within,
      try_reserve_memory_lem c.budget (memory_usage_bytes e) a.within (memory_usage_bytes-lt z e),
    )
    | inr (old, n) ↦ ground (
      arith,
      n,
      a.exact,
      a.within,
      size_of-le id c.index.art,
      try_update_memory_usage_lem c.budget (memory_usage_bytes old) (memory_usage_bytes e) a.within,
      memory_usage_bytes-lt z e,
    )
  ]

  -- In an accounted cache the insertion fails exactly when the memory of all entries after it would
  -- exceed the limit, and leaves the cache alone. Otherwise the entry is found, the other entries are as before,
  -- the policy is told, and the counter is again the memory of the entries, within the limit.
  pub try_insert-cases :
      IsSized F
      → (c : LiquidCache F P) (id : ℕ) (e : CacheEntry F) → IsAccounted c
      → ((try_insert c id e ≡ none) × (c.budget.max_memory_bytes < needed c id e))
        ⊎ ((c' : LiquidCache F P) × (try_insert c id e ≡ some c')
            × Inserted c id e c'
            × (needed c id e ≤ c.budget.max_memory_bytes))
  unfolding try_insert commit_insert Index.insert
  try_insert-cases z c id e a = elim (Bool-cases (ltb c.budget.max_memory_bytes (needed c id e))) [
    | inl full ↦ inl (rw (reserve_lem z c id e a, full, try_insert) refl, ground arith)
    | inr fits ↦
        let b : BudgetAccounting = record (c.budget) { used_memory_bytes = needed c id e } in
        inr (
          commit_insert c id e b,
          rw (reserve_lem z c id e a, fits, try_insert) refl,
          record {
            accounted = record {
              within = ground (arith, a.within);
              exact = omega (arith, total-insert id e c.index.art, size_of-le id c.index.art);
            };
            found = λ j. lookup-insert id j e c.index.art;
            unique = λ u j. insert-IsUnique id e c.index.art u j;
            same_files = refl;
            same_limit = refl;
            notified = refl;
          },
          ground arith,
        )
  ]

  -- An entry that takes no memory is always inserted.
  pub try_insert_free :
      IsSized F
      → (c : LiquidCache F P) (id : ℕ) (e : CacheEntry F) → IsAccounted c
      → memory_usage_bytes e ≡ 0
      → (c' : LiquidCache F P) × (try_insert c id e ≡ some c') × Inserted c id e c'
  try_insert_free z c id e a free = elim (try_insert-cases z c id e a) [
    | inl (no_room, over) ↦ absurd (omega (arith, a.within, a.exact))
    | inr (c', s, i, fits) ↦ (c', s, i)
  ]
