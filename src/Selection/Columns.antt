-- ===== src/Selection/Columns.antt =====
-- `get_root_column_ids` of src/parquet/src/reader/runtime/utils.rs. The schema and the projection
-- are of the `parquet` crate: the number of root fields and of leaf columns, the root of a leaf,
-- and whether a leaf is in the projection.
use liquid_cache.Prelude.{
  ℕ, zero, suc, ◌+◌, ◌≤◌, ◌<◌, ◌≡◌, refl, ap, ◌∙◌, inl, inr, Bool, true, false, ◌&&◌, ◌||◌, Option,
  none, some, List, [], ◌∷◌, arith, ◌==◌, if◌then◌else◌, Bool-cases, length, replicate, count,
  length-replicate,
}

-- `root_mask[root_idx] = true`; an index out of range panics.
unfoldable pub set_root : ℕ → List Bool → Option (List Bool)
set_root i [] = none
set_root zero (x ∷ mask) = some (true ∷ mask)
set_root (suc i) (x ∷ mask) = elim (set_root i mask) [ none ↦ none | some m ↦ some (x ∷ m) ]

-- The loop over `leaf_idx` in `0..num_columns`: `n` leaves are left.
unfoldable pub mark_roots : (ℕ → Bool) → (ℕ → ℕ) → ℕ → ℕ → List Bool → Option (List Bool)
unfolding set_root
mark_roots leaf_included root_idx leaf_idx zero root_mask = some root_mask
mark_roots leaf_included root_idx leaf_idx (suc n) root_mask =
    let skipped = mark_roots leaf_included root_idx (suc leaf_idx) n root_mask in
    if leaf_included leaf_idx
    then elim (set_root (root_idx leaf_idx) root_mask) [
      | none ↦ none
      | some mask ↦ mark_roots leaf_included root_idx (suc leaf_idx) n mask
    ]
    else skipped

-- `enumerate` and `filter_map`, from the position `idx`.
unfoldable pub included_ids : ℕ → List Bool → List ℕ
included_ids idx [] = []
included_ids idx (true ∷ mask) = idx ∷ included_ids (suc idx) mask
included_ids idx (false ∷ mask) = included_ids (suc idx) mask

unfoldable pub get_root_column_ids : ℕ → ℕ → (ℕ → Bool) → (ℕ → ℕ) → Option (List ℕ)
unfolding mark_roots included_ids
get_root_column_ids root_fields num_columns leaf_included root_idx =
    elim (mark_roots leaf_included root_idx 0 num_columns (replicate root_fields false)) [
      | none ↦ none
      | some root_mask ↦ some (included_ids 0 root_mask)
    ]

abbrev bit : ℕ → List Bool → Bool
bit j [] = false
bit zero (x ∷ mask) = x
bit (suc j) (x ∷ mask) = bit j mask

set_root_zero :
    (x : Bool) (mask : List Bool) (j : ℕ)
    → bit j (true ∷ mask) ≡ (if 0 == j then true else bit j (x ∷ mask))
set_root_zero x mask zero = refl
set_root_zero x mask (suc j) = ground arith

set_root_suc :
    (i : ℕ) (x : Bool) (m mask : List Bool)
    → ((j : ℕ) → bit j m ≡ (if i == j then true else bit j mask))
    → (j : ℕ) → bit j (x ∷ m) ≡ (if suc i == j then true else bit j (x ∷ mask))
set_root_suc i x m mask g zero = ground arith
set_root_suc i x m mask g (suc j) = ground (arith, g j)

set_root_lem :
    (i : ℕ) (mask : List Bool)
    → i < length mask
    → (m : List Bool) × (set_root i mask ≡ some m)
      × (length m ≡ length mask)
      × ((j : ℕ) → bit j m ≡ (if i == j then true else bit j mask))
unfolding set_root
set_root_lem i [] h = absurd (omega arith)
set_root_lem zero (x ∷ mask) h = (true ∷ mask, refl, refl, set_root_zero x mask)
set_root_lem (suc i) (x ∷ mask) h =
    let (m, e, l, g) = set_root_lem i mask (omega arith) in
    (x ∷ m, rw (e, set_root) refl, ap suc l, set_root_suc i x m mask g)

-- One of the leaves from `leaf_idx` on, `n` of them, is included and has the root.
abbrev pub has_leaf : (ℕ → Bool) → (ℕ → ℕ) → ℕ → ℕ → ℕ → Bool
has_leaf leaf_included root_idx root leaf_idx zero = false
has_leaf leaf_included root_idx root leaf_idx (suc n) =
    (leaf_included leaf_idx && (root_idx leaf_idx == root))
    || has_leaf leaf_included root_idx root (suc leaf_idx) n

mark_roots_lem :
    (leaf_included : ℕ → Bool) (root_idx : ℕ → ℕ) (leaf_idx n : ℕ) (mask : List Bool)
    → ((leaf : ℕ) → root_idx leaf < length mask)
    → (m : List Bool) × (mark_roots leaf_included root_idx leaf_idx n mask ≡ some m)
      × (length m ≡ length mask)
      × ((j : ℕ) → bit j m ≡ (has_leaf leaf_included root_idx j leaf_idx n || bit j mask))
unfolding mark_roots
mark_roots_lem leaf_included root_idx leaf_idx zero mask h = (mask, refl, refl, λ j. refl)
mark_roots_lem leaf_included root_idx leaf_idx (suc n) mask h =
    elim (Bool-cases (leaf_included leaf_idx)) [
      | inl included ↦
          let (m1, e1, l1, g1) = set_root_lem (root_idx leaf_idx) mask (h leaf_idx) in
          let (m2, e2, l2, g2) =
            mark_roots_lem leaf_included root_idx (suc leaf_idx) n m1 (λ leaf. rw l1 (h leaf)) in
          (
            m2,
            rw included (rw (e1, mark_roots) e2),
            l2 ∙ l1,
            λ j. ground (arith, g2 j, g1 j, included),
          )
      | inr not_included ↦
          let (m2, e2, l2, g2) = mark_roots_lem leaf_included root_idx (suc leaf_idx) n mask h in
          (m2, rw not_included e2, l2, λ j. ground (arith, g2 j, not_included))
    ]

-- The numbers go upwards, from `b` on.
abbrev pub IsAscending : ℕ → List ℕ → Type 0
IsAscending b [] = zero ≡ zero
IsAscending b (x ∷ xs) = (b ≤ x) × IsAscending (suc x) xs

IsAscending-le : (b c : ℕ) (xs : List ℕ) → b ≤ c → IsAscending c xs → IsAscending b xs
IsAscending-le b c [] h a = refl
IsAscending-le b c (x ∷ xs) h (l, a) = (omega (arith, l), a)

included_ids-IsAscending : (idx : ℕ) (mask : List Bool) → IsAscending idx (included_ids idx mask)
unfolding included_ids
included_ids-IsAscending idx [] = refl
included_ids-IsAscending idx (true ∷ mask) = (omega arith, included_ids-IsAscending (suc idx) mask)
included_ids-IsAscending idx (false ∷ mask) =
    IsAscending-le idx (suc idx) (included_ids (suc idx) mask) (omega arith)
      (included_ids-IsAscending (suc idx) mask)

count-included_ids-below :
    (j idx : ℕ) (mask : List Bool) → j < idx → count j (included_ids idx mask) ≡ 0
unfolding included_ids
count-included_ids-below j idx [] h = refl
count-included_ids-below j idx (true ∷ mask) h =
    ground (arith, count-included_ids-below j (suc idx) mask)
count-included_ids-below j idx (false ∷ mask) h =
    count-included_ids-below j (suc idx) mask (omega arith)

count-included_ids :
    (j idx k : ℕ) (mask : List Bool)
    → k ≡ idx + j
    → count k (included_ids idx mask) ≡ (if bit j mask then 1 else 0)
unfolding included_ids
count-included_ids j idx k [] e = ground arith
count-included_ids zero idx k (true ∷ mask) e =
    ground (arith, count-included_ids-below k (suc idx) mask)
count-included_ids zero idx k (false ∷ mask) e =
    count-included_ids-below k (suc idx) mask (omega arith)
count-included_ids (suc j) idx k (true ∷ mask) e =
    ground (arith, count-included_ids j (suc idx) k mask)
count-included_ids (suc j) idx k (false ∷ mask) e =
    count-included_ids j (suc idx) k mask (omega arith)

bit-unset : (n j : ℕ) → bit j (replicate n false) ≡ false
bit-unset zero j = ground arith
bit-unset (suc n) zero = refl
bit-unset (suc n) (suc j) = bit-unset n j

-- The root columns are those with a leaf in the projection, each once and in the order of the
-- schema. The root of every leaf is one of the schema's fields.
pub get_root_column_ids_lem :
    (root_fields num_columns : ℕ) (leaf_included : ℕ → Bool) (root_idx : ℕ → ℕ)
    → ((leaf : ℕ) → root_idx leaf < root_fields)
    → (ids : List ℕ) × (get_root_column_ids root_fields num_columns leaf_included root_idx
        ≡ some ids)
      × IsAscending 0 ids
      × ((root : ℕ)
          → count root ids ≡ (if has_leaf leaf_included root_idx root 0 num_columns then 1 else 0))
unfolding get_root_column_ids
get_root_column_ids_lem root_fields num_columns leaf_included root_idx h =
    let (mask, e, l, g) =
      mark_roots_lem leaf_included root_idx 0 num_columns (replicate root_fields false)
        (λ leaf. rw (length-replicate root_fields false) (h leaf)) in
    (
      included_ids 0 mask,
      rw (e, get_root_column_ids) refl,
      included_ids-IsAscending 0 mask,
      λ root.
          ground (arith, g root, bit-unset root_fields root, count-included_ids root 0 root mask),
    )
