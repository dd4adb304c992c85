-- ===== src/Selection/Offsets.antt =====
-- `offset_row_selection` and `limit_row_selection`, against their specifications.
use liquid_cache.Prelude.{
  ℕ, zero, suc, ◌+◌, ◌-◌, ◌≤◌, ◌<◌, ◌≡◌, refl, ap, sym, ◌∙◌, inl, inr, Bool, true, false, Option,
  none, some, List, [], ◌∷◌, ◌++◌, arith, append_nil, ◌==◌, ◌||◌, ltb, leb, if◌then◌else◌,
  replicate, Bool-cases, Option-cases,
}
use liquid_cache.Selection.{
  RowSelector, skip_rows, select_rows, row_selector_to_boolean_buffer, find_split, limit_selectors,
  offset_row_selection, limit_row_selection,
}
use liquid_cache.Selection.Rows.{
  selected, skip_first, up_to, skip_first_zero, skip_first-skipped, skip_first-selected,
  skip_first-within, up_to-skipped, up_to-selected, up_to-within, selected-skipped,
  selected-selected, replicate-add,
}

abbrev bits : List RowSelector → List Bool
bits = row_selector_to_boolean_buffer

-- What the search finds: nothing if the offset takes all the selected rows, and else the split.
Split : ℕ → ℕ → ℕ → List RowSelector → Option (ℕ × ℕ × List RowSelector) → Type 0
Split offset sel skp xs none = sel + selected (bits xs) ≤ offset
Split offset sel skp xs (some (s, k, rest)) =
    (offset < sel + selected (bits xs))
    × (offset ≤ s)
    × (replicate (k + offset) false ++ (replicate (s - offset) true ++ bits rest)
        ≡ replicate (skp + sel) false ++ skip_first (offset - sel) (bits xs))

rejoin :
    (a b c : ℕ) (x : Bool) (l : List Bool)
    → a ≡ b + c
    → replicate a x ++ l ≡ replicate b x ++ (replicate c x ++ l)
rejoin a b c x l e = rw e (replicate-add b c x l)

module _ (offset sel skp n : ℕ) (xs : List RowSelector) where
  skipping-Split :
      (r : Option (ℕ × ℕ × List RowSelector))
      → Split offset sel (skp + n) xs r
      → Split offset sel skp (skip_rows n ∷ xs) r
  unfolding Split row_selector_to_boolean_buffer skip_rows
  skipping-Split none h = omega (arith, h, selected-skipped n (bits xs))
  skipping-Split (some (s, k, rest)) (h1, h2, h3) = (
    omega (arith, h1, selected-skipped n (bits xs)),
    h2,
    h3
        ∙ rejoin (skp + n + sel) (skp + sel) n false (skip_first (offset - sel) (bits xs))
            (omega arith)
        ∙ ap (λ l. replicate (skp + sel) false ++ l)
            (sym (skip_first-skipped (offset - sel) n (bits xs))),
  )

  selecting-Split :
      (r : Option (ℕ × ℕ × List RowSelector))
      → sel + n ≤ offset
      → Split offset (sel + n) skp xs r
      → Split offset sel skp (select_rows n ∷ xs) r
  unfolding Split row_selector_to_boolean_buffer select_rows
  selecting-Split none le h = omega (arith, h, selected-selected n (bits xs))
  selecting-Split (some (s, k, rest)) le (h1, h2, h3) =
      let d : offset - sel ≡ n + (offset - (sel + n)) = omega arith in
      (
        omega (arith, h1, selected-selected n (bits xs)),
        h2,
        h3
            ∙ rejoin (skp + (sel + n)) (skp + sel) n false
                (skip_first (offset - (sel + n)) (bits xs)) (omega arith)
            ∙ ap (λ l. replicate (skp + sel) false ++ l)
                (sym (
                  ap (λ x. skip_first x (replicate n true ++ bits xs)) d
                  ∙ skip_first-selected (offset - (sel + n)) n (bits xs))),
      )

  stopping-Split :
      sel ≤ offset
      → offset < sel + n
      → Split offset sel skp (select_rows n ∷ xs) (some (sel + n, skp, xs))
  unfolding Split row_selector_to_boolean_buffer select_rows
  stopping-Split le lt =
      let d : n ≡ (offset - sel) + (sel + n - offset) = omega arith in
      (
        omega (arith, selected-selected n (bits xs)),
        omega arith,
        rejoin (skp + offset) (skp + sel) (offset - sel) false
              (replicate (sel + n - offset) true ++ bits xs) (omega arith)
            ∙ ap (λ l. replicate (skp + sel) false ++ l)
                (sym (
                  ap (λ x. skip_first (offset - sel) (replicate x true ++ bits xs)) d
                  ∙ skip_first-within (offset - sel) (sel + n - offset) (bits xs))),
      )

find_split-step :
    (offset sel skp n : ℕ) (skip : Bool) (xs : List RowSelector)
    → sel ≤ offset
    → Split offset sel (skp + n) xs (find_split offset sel (skp + n) xs)
    → (sel + n ≤ offset → Split offset (sel + n) skp xs (find_split offset (sel + n) skp xs))
    → Split offset sel skp
        (record { row_count = n; skip = skip } ∷ xs)
        (find_split offset sel skp (record { row_count = n; skip = skip } ∷ xs))
unfolding find_split skip_rows select_rows
find_split-step offset sel skp n true xs le skipping selecting =
    skipping-Split offset sel skp n xs (find_split offset sel (skp + n) xs) skipping
find_split-step offset sel skp n false xs le skipping selecting =
    elim (Bool-cases (ltb offset (sel + n))) [
      | inl lt ↦ rw lt (stopping-Split offset sel skp n xs le (ground arith))
      | inr ge ↦ rw ge (
          selecting-Split offset sel skp n xs (find_split offset (sel + n) skp xs) (ground arith)
            (selecting (ground arith)))
    ]

find_split-Split :
    (offset sel skp : ℕ) (xs : List RowSelector)
    → sel ≤ offset
    → Split offset sel skp xs (find_split offset sel skp xs)
unfolding Split find_split row_selector_to_boolean_buffer
find_split-Split offset sel skp [] le = omega arith
find_split-Split offset sel skp (s ∷ xs) le =
    find_split-step offset sel skp s.row_count s.skip xs le
      (find_split-Split offset sel (skp + s.row_count) xs le)
      (λ h. find_split-Split offset (sel + s.row_count) skp xs h)

limit_selectors-step :
    (limit n : ℕ) (skip : Bool) (xs : List RowSelector)
    → 1 ≤ limit
    → bits (limit_selectors limit xs) ≡ up_to limit (bits xs)
    → (n < limit → bits (limit_selectors (limit - n) xs) ≡ up_to (limit - n) (bits xs))
    → bits (limit_selectors limit (record { row_count = n; skip = skip } ∷ xs))
      ≡ up_to limit (bits (record { row_count = n; skip = skip } ∷ xs))
unfolding limit_selectors row_selector_to_boolean_buffer
limit_selectors-step zero n skip xs h skipping selecting = absurd (omega arith)
limit_selectors-step (suc m) n true xs h skipping selecting =
    ap (λ l. replicate n false ++ l) skipping ∙ sym (up_to-skipped m n (bits xs))
limit_selectors-step (suc m) n false xs h skipping selecting = elim (Bool-cases (leb (suc m) n)) [
  | inl le ↦
      let d : n ≡ suc m + (n - suc m) = ground arith in
      rw le (
        append_nil (replicate (suc m) true)
        ∙ sym (
            ap (λ x. up_to (suc m) (replicate x true ++ bits xs)) d
            ∙ up_to-within (suc m) (n - suc m) (bits xs)))
  | inr gt ↦
      let d : suc m ≡ n + (suc m - n) = ground arith in
      rw gt (
        ap (λ l. replicate n true ++ l) (selecting (ground arith))
        ∙ sym (
            ap (λ x. up_to x (replicate n true ++ bits xs)) d
            ∙ up_to-selected (suc m - n) n (bits xs)))
]

limit_selectors-up_to :
    (limit : ℕ) (xs : List RowSelector)
    → 1 ≤ limit
    → bits (limit_selectors limit xs) ≡ up_to limit (bits xs)
unfolding limit_selectors row_selector_to_boolean_buffer
limit_selectors-up_to zero [] h = absurd (omega arith)
limit_selectors-up_to (suc n) [] h = refl
limit_selectors-up_to limit (s ∷ xs) h =
    limit_selectors-step limit s.row_count s.skip xs h (limit_selectors-up_to limit xs h)
      (λ lt. limit_selectors-up_to (limit - s.row_count) xs (omega arith))

-- `RowSelection::from` of the `parquet` crate joins neighbours and drops empty selectors: it keeps
-- the rows and whether they are selected.
abbrev pub KeepsRows : (List RowSelector → List RowSelector) → Type 0
KeepsRows from =
    (xs : List RowSelector)
    → row_selector_to_boolean_buffer (from xs) ≡ row_selector_to_boolean_buffer xs

module _ (from : List RowSelector → List RowSelector) (law : KeepsRows from) where
  -- An offset unselects exactly the first `offset` selected rows. If it takes all of them and is
  -- not 0, the selection that is left has no row at all.
  pub offset_row_selection_lem :
      (xs : List RowSelector) (offset : ℕ)
      → bits (offset_row_selection from xs offset) ≡ (
          if (offset == 0) || ltb offset (selected (bits xs))
          then skip_first offset (bits xs)
          else [])
  unfolding offset_row_selection row_selector_to_boolean_buffer skip_rows select_rows Split
  offset_row_selection_lem xs zero = sym (skip_first_zero (bits xs))
  offset_row_selection_lem xs (suc n) =
      let found = find_split-Split (suc n) 0 0 xs (omega arith) in
      elim (Option-cases (find_split (suc n) 0 0 xs)) [
        | inl e ↦
            let all : 0 + selected (bits xs) ≤ suc n = rw e at found in
            rw (e, offset_row_selection) (law [] ∙ ground (arith, all))
        | inr ((s, k, rest), e) ↦
            let (h1, h2, h3) = rw e at found in
            rw (e, offset_row_selection) (law _ ∙ h3 ∙ ground (arith, h1))
      ]

  -- A limit keeps the rows up to the `limit`th selected row, unchanged, and drops the rows after it.
  pub limit_row_selection_lem :
      (xs : List RowSelector) (limit : ℕ)
      → bits (limit_row_selection from xs limit) ≡ up_to limit (bits xs)
  unfolding limit_row_selection row_selector_to_boolean_buffer
  limit_row_selection_lem xs zero = law []
  limit_row_selection_lem xs (suc n) =
      law (limit_selectors (suc n) xs) ∙ limit_selectors-up_to (suc n) xs (omega arith)
