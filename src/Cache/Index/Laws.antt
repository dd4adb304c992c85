-- ===== src/Cache/Index/Laws.antt =====
-- The index as a map, and its counter.
use liquid_cache.Prelude.{
  ℕ, ◌≡◌, refl, none, some, List, [], ◌∷◌, ◌==◌, if◌then◌else◌, arith, lookup, length, keys, delete,
  lookup-insert, length-insert, count, entries, entries-delete, count-keys,
}
use liquid_cache.Cache.Index.{ArtIndex, get, insert, remove_keys, reset}

-- The counter is the number of entries.
abbrev pub IsCounted : {V : Type 0} → ArtIndex V → Type 0
IsCounted i = i.entry_count ≡ length i.art

module _ {V : Type 0} where
  -- An insertion changes what is found under its key, and nothing else, and the counter stays
  -- the number of entries.
  pub insert_lem :
      (i : ArtIndex V) (k : ℕ) (v : V)
      → IsCounted i
      → ((j : ℕ) → get (insert i k v) j ≡ (if k == j then some v else get i j))
        × IsCounted (insert i k v)
  unfolding insert get
  insert_lem i k v h = (λ j. lookup-insert k j v i.art, ground (arith, length-insert k v i.art))

  remove_keys-nil :
      (ks : List ℕ) (m : List (ℕ × V))
      → ((j : ℕ) → count j ks ≡ 0 → entries j m ≡ 0)
      → remove_keys ks m ≡ []
  unfolding remove_keys entries
  remove_keys-nil [] [] h = refl
  remove_keys-nil [] ((k, v) ∷ m) h = absurd (ground (arith, h k))
  remove_keys-nil (k ∷ ks) m h =
      remove_keys-nil ks (delete k m) λ j e. ground (arith, entries-delete k j m, h j)

  -- A reset removes every entry, and the counter agrees.
  pub reset_lem : (i : ArtIndex V) → ((j : ℕ) → get (reset i) j ≡ none) × IsCounted (reset i)
  unfolding reset get lookup
  reset_lem i =
      let empty : remove_keys (keys i.art) i.art ≡ [] =
        remove_keys-nil (keys i.art) i.art (λ j e. ground (arith, count-keys j i.art)) in
      (λ j. rw empty, rw empty)
