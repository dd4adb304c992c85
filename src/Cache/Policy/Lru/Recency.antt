-- ===== src/Cache/Policy/Lru/Recency.antt =====
-- The order of `LruPolicy`.
use liquid_cache.Prelude.{
  ℕ, zero, suc, ◌≤◌, ◌≡◌, refl, ap, sym, ◌∙◌, ◌⊎◌, inl, inr, true, false, none, some, List, [], ◌∷◌,
  ◌++◌, ◌==◌, if◌then◌else◌, arith, append_assoc, append_nil, count, remove, count-remove,
  count-append, remove_absent, length, min, length-append,
}
use liquid_cache.Cache.Entry.{CachedBatchType}
use liquid_cache.Cache.Policy.Lru.{
  HashList, new, contains_key, tail, move_to_front, push_front, remove_and_release, find_victim,
  notify_access, notify_insert,
}

-- The map has exactly the identifiers of the list, each once.
pub record IsLinked (s : HashList) : Type 0 where
  pub once : (id : ℕ) → count id s.list ≤ 1
  pub keys : (id : ℕ) → count id s.map ≡ count id s.list

contains_key-count :
    (id : ℕ) (ks : List ℕ) → contains_key id ks ≡ (if count id ks == 0 then false else true)
unfolding contains_key
contains_key-count id [] = refl
contains_key-count id (k ∷ ks) = ground (arith, contains_key-count id ks)

pub new-IsLinked : IsLinked new
unfolding new
new-IsLinked = record { once = λ id. omega arith; keys = λ id. refl }

-- On a consistent state, an insertion puts the identifier at the front, where it stands once, and
-- leaves the order of the others. The state stays consistent.
pub notify_insert_lem :
    (id : ℕ) (t : CachedBatchType) (s : HashList)
    → IsLinked s
    → IsLinked (notify_insert id t s) × ((notify_insert id t s).list ≡ id ∷ remove id s.list)
unfolding notify_insert move_to_front push_front
notify_insert_lem id t s h = (
  record {
    once = λ a. ground (
      arith,
      contains_key-count id s.map,
      h.once a,
      h.keys a,
      h.once id,
      h.keys id,
      count-remove id a s.list,
    );
    keys = λ a. ground (
      arith,
      contains_key-count id s.map,
      h.once a,
      h.keys a,
      h.once id,
      h.keys id,
      count-remove id a s.list,
    );
  },
  ground (arith, contains_key-count id s.map, h.keys id, remove_absent id s.list),
)

-- On a consistent state, an access brings a tracked identifier to the front, leaves the order of the
-- others, and does nothing for an identifier that is not tracked. The state stays consistent.
pub notify_access_lem :
    (id : ℕ) (t : CachedBatchType) (s : HashList)
    → IsLinked s
    → IsLinked (notify_access id t s)
      × ((notify_access id t s).list
          ≡ (if count id s.list == 0 then s.list else id ∷ remove id s.list))
unfolding notify_access move_to_front
notify_access_lem id t s h = (
  record {
    once = λ a. ground (
      arith,
      contains_key-count id s.map,
      h.once a,
      h.keys a,
      h.once id,
      h.keys id,
      count-remove id a s.list,
    );
    keys = λ a. ground (
      arith,
      contains_key-count id s.map,
      h.once a,
      h.keys a,
      h.once id,
      h.keys id,
      count-remove id a s.list,
    );
  },
  ground (arith, contains_key-count id s.map, h.keys id),
)

tail-cases :
    (xs : List ℕ)
    → ((xs ≡ []) × (tail xs ≡ none))
      ⊎ ((ys : List ℕ) × (y : ℕ) × (xs ≡ ys ++ y ∷ []) × (tail xs ≡ some y))
unfolding tail
tail-cases [] = inl (refl, refl)
tail-cases (x ∷ []) = inr ([], x, refl, refl)
tail-cases (x ∷ y ∷ xs) = elim (tail-cases (y ∷ xs)) [
  | inl (e, _) ↦ absurd (ground (arith, e))
  | inr (ys, z, e, t) ↦ inr (x ∷ ys, z, ap (λ l. x ∷ l) e, t)
]

remove-append : (a : ℕ) (xs ys : List ℕ) → remove a (xs ++ ys) ≡ remove a xs ++ remove a ys
remove-append a [] ys = refl
remove-append a (x ∷ xs) ys = ground (arith, remove-append a xs ys)

remove_last : (a : ℕ) (xs : List ℕ) → count a (xs ++ a ∷ []) ≤ 1 → remove a (xs ++ a ∷ []) ≡ xs
remove_last a xs h =
    let absent : count a xs ≡ 0 = ground (arith, h, count-append a xs (a ∷ [])) in
    let last : remove a (a ∷ []) ≡ [] = ground arith in
    remove-append a xs (a ∷ [])
    ∙ ap (λ l. l ++ remove a (a ∷ [])) (remove_absent a xs absent)
    ∙ ap (λ l. xs ++ l) last
    ∙ append_nil xs

abbrev pub reverse : List ℕ → List ℕ
reverse [] = []
reverse (x ∷ xs) = reverse xs ++ x ∷ []

count_self : (a : ℕ) → count a (a ∷ []) ≡ 1
count_self a = ground arith

-- `find_victim` takes the identifiers at the end of the list, the last one first, as many as asked
-- for or as there are. It never panics, and the state stays consistent.
pub find_victim_lem :
    (cnt : ℕ) (s : HashList)
    → IsLinked s
    → (ids : List ℕ) × (t : HashList) × (find_victim cnt s ≡ some (ids, t))
      × IsLinked t
      × (s.list ≡ t.list ++ reverse ids)
      × (length ids ≡ min cnt (length s.list))
unfolding find_victim remove_and_release
find_victim_lem zero s h = ([], s, refl, h, sym (append_nil s.list), ground arith)
find_victim_lem (suc cnt) s h = elim (tail-cases s.list) [
  | inl (e, t) ↦ ([], s, rw (t, find_victim) refl, h, sym (append_nil s.list), rw e (ground arith))
  | inr (ys, id, e, t) ↦
      let once : count id s.list ≤ 1 = h.once id in
      let without : remove id s.list ≡ ys = rw e (remove_last id ys (rw (← e) once)) in
      let u : HashList = remove_and_release id (record s { map = remove id s.map }) in
      let h1 : IsLinked u = record {
        once = λ a. ground (arith, h.once a, count-remove id a s.list);
        keys = λ a. ground (arith, h.keys a, count-remove id a s.list, count-remove id a s.map);
      } in
      let (ids, v, found, h2, split, len) = find_victim_lem cnt u h1 in
      let here : 1 ≤ count id s.list =
        rw e (omega (arith, count-append id ys (id ∷ []), count_self id)) in
      let known : contains_key id s.map ≡ true =
        ground (arith, contains_key-count id s.map, h.keys id, here) in
      let size : length s.list ≡ suc (length ys) =
        ap length e ∙ ground (arith, length-append ys (id ∷ [])) in
      (
        id ∷ ids,
        v,
        rw (t, find_victim) (rw (found, known) refl),
        h2,
        e
            ∙ ap (λ l. l ++ id ∷ []) (sym without ∙ split)
            ∙ append_assoc v.list (reverse ids) (id ∷ []),
        ground (arith, len, size, ap length without),
      )
]
