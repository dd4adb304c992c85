-- ===== src/Prelude/Maps.antt =====
-- Maps from native numbers, as association lists: `get`, `insert` and `remove` of a hash map.
use Prim.Native.Nat.{ℕ, suc, ◌+◌, ◌≤◌}
use mathlib.Core.Bool.{Bool, true, false}
use mathlib.Core.Path.{◌≡◌, refl}
use mathlib.Core.Logic.{◌≢◌}
use mathlib.Core.List.{List, [], ◌∷◌}
use mathlib.Core.Option.{Option, none, some}
use native.Mathlib.Omega.{arith}
use liquid_cache.Prelude.Lists.{length, count}
use liquid_cache.Prelude.Tests.{◌==◌, if◌then◌else◌}

module _ {ℓ} {V : Type ℓ} where
  unfoldable pub lookup : ℕ → List (ℕ × V) → Option V
  lookup key [] = none
  lookup key ((other, found) ∷ rest) = if other == key then some found else lookup key rest

  unfoldable pub insert : ℕ → V → List (ℕ × V) → List (ℕ × V)
  insert key new [] = (key, new) ∷ []
  insert key new ((other, old) ∷ rest) =
      if other == key then (key, new) ∷ rest else (other, old) ∷ insert key new rest

  unfoldable pub delete : ℕ → List (ℕ × V) → List (ℕ × V)
  delete k [] = []
  delete k ((j, w) ∷ m) = if j == k then delete k m else (j, w) ∷ delete k m

  unfoldable pub is_some : Option V → Bool
  is_some none = false
  is_some (some v) = true

  pub lookup-insert :
      (set at : ℕ) (new : V) (map : List (ℕ × V))
      → lookup at (insert set new map) ≡ (if set == at then some new else lookup at map)
  unfolding lookup insert
  lookup-insert set at new [] = refl
  lookup-insert set at new ((other, old) ∷ rest) = ground (arith, lookup-insert set at new rest)

  pub lookup-delete :
      (k j : ℕ) (m : List (ℕ × V)) → lookup j (delete k m) ≡ (if k == j then none else lookup j m)
  unfolding lookup delete
  lookup-delete k j [] = ground arith
  lookup-delete k j ((i, w) ∷ m) = ground (arith, lookup-delete k j m)

  -- The number of entries with a key.
  unfoldable pub entries : ℕ → List (ℕ × V) → ℕ
  entries k [] = 0
  entries k ((j, w) ∷ m) = (if j == k then 1 else 0) + entries k m

  pub entries-insert_self :
      (k : ℕ) (v : V) (m : List (ℕ × V)) → entries k m ≤ 1 → entries k (insert k v m) ≡ 1
  unfolding entries insert
  entries-insert_self k v [] h = ground arith
  entries-insert_self k v ((i, w) ∷ m) h = ground (arith, entries-insert_self k v m)

  pub entries-insert_ne :
      (k j : ℕ) (v : V) (m : List (ℕ × V)) → k ≢ j → entries j (insert k v m) ≡ entries j m
  unfolding entries insert
  entries-insert_ne k j v [] h = ground arith
  entries-insert_ne k j v ((i, w) ∷ m) h = ground (arith, entries-insert_ne k j v m h)

module _ {ℓ} {V : Type ℓ} where
  abbrev pub keys : List (ℕ × V) → List ℕ
  keys [] = []
  keys ((k, v) ∷ m) = k ∷ keys m

  pub length-insert :
      (k : ℕ) (v : V) (m : List (ℕ × V))
      → length (insert k v m) ≡ (if is_some (lookup k m) then length m else suc (length m))
  unfolding insert lookup is_some
  length-insert k v [] = refl
  length-insert k v ((j, w) ∷ m) = ground (arith, length-insert k v m)

  pub length-delete-le : (k : ℕ) (m : List (ℕ × V)) → length (delete k m) ≤ length m
  unfolding delete
  length-delete-le k [] = omega arith
  length-delete-le k ((j, w) ∷ m) = ground (arith, length-delete-le k m)

  pub entries-delete :
      (k j : ℕ) (m : List (ℕ × V)) → entries j (delete k m) ≡ (if k == j then 0 else entries j m)
  unfolding entries delete
  entries-delete k j [] = ground arith
  entries-delete k j ((i, w) ∷ m) = ground (arith, entries-delete k j m)

  pub count-keys : (j : ℕ) (m : List (ℕ × V)) → count j (keys m) ≡ entries j m
  unfolding entries
  count-keys j [] = refl
  count-keys j ((i, w) ∷ m) = ground (arith, count-keys j m)
