-- ===== src/Cache/Index.antt =====
-- src/storage/src/cache/index.rs: the index of the cache's entries. The concurrent tree of the
-- `congee` crate is a map from identifiers, whose operations run one at a time.
pub mod Laws
use liquid_cache.Prelude.{
  ℕ, suc, Bool, Option, List, [], ◌∷◌, if◌then◌else◌, lookup, insert as art_insert, delete, keys,
  is_some,
}

pub record ArtIndex (V : Type 0) : Type 0 where
  pub art : List (ℕ × V)
  pub entry_count : ℕ

module _ {V : Type 0} where
  unfoldable pub get : ArtIndex V → ℕ → Option V
  get i entry_id = lookup entry_id i.art

  unfoldable pub is_cached : ArtIndex V → ℕ → Bool
  unfolding is_some
  is_cached i entry_id = is_some (lookup entry_id i.art)

  -- The count grows if the tree had no such key.
  unfoldable pub insert : ArtIndex V → ℕ → V → ArtIndex V
  unfolding is_some
  insert i entry_id batch = record {
    art = art_insert entry_id batch i.art;
    entry_count = if is_some (lookup entry_id i.art) then i.entry_count else suc i.entry_count;
  }

  -- The loop of `reset` over the keys.
  unfoldable pub remove_keys : List ℕ → List (ℕ × V) → List (ℕ × V)
  remove_keys [] m = m
  remove_keys (k ∷ ks) m = remove_keys ks (delete k m)

  unfoldable pub reset : ArtIndex V → ArtIndex V
  unfolding remove_keys
  reset i = record { art = remove_keys (keys i.art) i.art; entry_count = 0 }

unfoldable pub new : (V : Type 0) → ArtIndex V
new V = record { art = []; entry_count = 0 }
