-- ===== src/Cache/Policy/Lru.antt =====
-- src/storage/src/cache/policies/cache/lru.rs: `LruPolicy`. The intrusive list is the list of the
-- identifiers in its nodes, head first, and the map is the list of its keys: the pointer under a
-- key is to the node with that identifier. A panic by `expect` is `none`.
pub mod Recency
use liquid_cache.Prelude.{
  ℕ, zero, suc, Bool, true, false, Option, none, some, List, [], ◌∷◌, ◌++◌, ◌||◌, ◌==◌,
  if◌then◌else◌, remove,
}
use liquid_cache.Cache.Entry.{CachedBatchType}
use liquid_cache.Cache.Policy.{CachePolicy}

pub record HashList : Type 0 where
  pub map : List ℕ
  pub list : List ℕ

unfoldable pub new : HashList
new = record { map = []; list = [] }

unfoldable pub contains_key : ℕ → List ℕ → Bool
contains_key id [] = false
contains_key id (k ∷ ks) = (k == id) || contains_key id ks

unfoldable pub tail : List ℕ → Option ℕ
tail [] = none
tail (x ∷ []) = some x
tail (x ∷ y ∷ xs) = tail (y ∷ xs)

unfoldable pub move_to_front : ℕ → HashList → HashList
move_to_front id s = record s { list = id ∷ remove id s.list }

unfoldable pub push_front : ℕ → HashList → HashList
push_front id s = record s { list = id ∷ s.list }

unfoldable pub remove_and_release : ℕ → HashList → HashList
remove_and_release id s = record s { list = remove id s.list }

unfoldable pub find_victim : ℕ → HashList → Option (List ℕ × HashList)
unfolding tail remove_and_release contains_key
find_victim zero s = some ([], s)
find_victim (suc cnt) s = elim (tail s.list) [
  | none ↦ some ([], s)
  | some id ↦
      let rest = find_victim cnt (remove_and_release id (record s { map = remove id s.map })) in
      if contains_key id s.map
      then elim rest [ some (ids, t) ↦ some (id ∷ ids, t) | none ↦ none ]
      else none
]

unfoldable pub notify_access : ℕ → CachedBatchType → HashList → HashList
unfolding move_to_front contains_key
notify_access id batch_type s = if contains_key id s.map then move_to_front id s else s

unfoldable pub notify_insert : ℕ → CachedBatchType → HashList → HashList
unfolding move_to_front push_front contains_key
notify_insert id batch_type s =
    if contains_key id s.map
    then move_to_front id s
    else push_front id (record s { map = id ∷ s.map })

abbrev pub lru_policy : CachePolicy
lru_policy = record {
  State = HashList;
  find_victim = find_victim;
  notify_insert = notify_insert;
  notify_access = notify_access;
}
