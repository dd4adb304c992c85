-- ===== src/Selection/Tests.antt =====
-- The theorems on selections, at concrete ones.
use liquid_cache.Prelude.{
  ℕ, ◌<◌, ◌≡◌, refl, Bool, true, false, ◌||◌, some, List, [], ◌∷◌, ◌==◌, ltb, if◌then◌else◌, arith,
  length, get_elem?, count,
}
use liquid_cache.Selection.{
  RowSelector, row_selector_to_boolean_buffer, offset_row_selection, limit_row_selection,
  take_next_batch,
}
use liquid_cache.Selection.Rows.{selected, skip_first, up_to}
use liquid_cache.Selection.Offsets.{KeepsRows, offset_row_selection_lem, limit_row_selection_lem}
use liquid_cache.Selection.Batches.{NextBatch, take_next_batch_lem}
use liquid_cache.Selection.Columns.{
  get_root_column_ids, IsAscending, has_leaf, get_root_column_ids_lem,
}
use liquid_cache.Selection.Boolean.{
  BooleanSelection, BooleanBuffer, selection_of, row_count, len, and_then,
  boolean_buffer_and_then_fallback, from_consecutive_ranges,
}
use liquid_cache.Selection.Boolean.Laws.{combine, and_then_lem, and_then_assoc}
use liquid_cache.Selection.Boolean.Ranges.{covered, from_consecutive_ranges_lem}

-- Two rows skipped, three selected.
abbrev rows : List RowSelector
rows = record { row_count = 2; skip = true } ∷ record { row_count = 3; skip = false } ∷ []

abbrev as_is : List RowSelector → List RowSelector
as_is xs = xs

as_is-KeepsRows : KeepsRows as_is
as_is-KeepsRows xs = refl

offset_row_selection_lem_example :
    row_selector_to_boolean_buffer (offset_row_selection as_is rows 1) ≡ (
      if (1 == 0) || ltb 1 (selected (row_selector_to_boolean_buffer rows))
      then skip_first 1 (row_selector_to_boolean_buffer rows)
      else [])
offset_row_selection_lem_example = offset_row_selection_lem as_is as_is-KeepsRows rows 1

limit_row_selection_lem_example :
    row_selector_to_boolean_buffer (limit_row_selection as_is rows 2)
    ≡ up_to 2 (row_selector_to_boolean_buffer rows)
limit_row_selection_lem_example = limit_row_selection_lem as_is as_is-KeepsRows rows 2

take_next_batch_lem_example : NextBatch 4 rows (take_next_batch rows 4)
take_next_batch_lem_example = take_next_batch_lem rows 4

-- Leaf columns 0 and 1 are below root 0, the others below root 1; only leaf 2 is projected.
abbrev third_leaf : ℕ → Bool
third_leaf leaf = leaf == 2

abbrev root_of : ℕ → ℕ
root_of leaf = if ltb leaf 2 then 0 else 1

get_root_column_ids_lem_example :
    (ids : List ℕ) × (get_root_column_ids 2 4 third_leaf root_of ≡ some ids)
    × IsAscending 0 ids
    × ((root : ℕ) → count root ids ≡ (if has_leaf third_leaf root_of root 0 4 then 1 else 0))
get_root_column_ids_lem_example =
    get_root_column_ids_lem 2 4 third_leaf root_of (λ leaf. ground arith)

abbrev four_rows : BooleanSelection
four_rows = selection_of (true ∷ false ∷ true ∷ true ∷ [])

abbrev three_rows : BooleanSelection
three_rows = selection_of (true ∷ false ∷ true ∷ [])

abbrev two_rows : BooleanSelection
two_rows = selection_of (false ∷ true ∷ [])

four_three : row_count four_rows ≡ len three_rows
unfolding row_count len
four_three = refl

three_two : row_count three_rows ≡ len two_rows
unfolding row_count len
three_two = refl

and_then_lem_example :
    ((r : BooleanSelection) × (and_then four_rows three_rows ≡ some r)
      × (r.selectors.before ≡ [])
      × (r.selectors.bits ≡ combine four_rows.selectors.bits three_rows.selectors.bits))
    × ((b : BooleanBuffer) × (boolean_buffer_and_then_fallback four_rows.selectors
            three_rows.selectors
          ≡ some b)
        × (b.bits ≡ combine four_rows.selectors.bits three_rows.selectors.bits))
and_then_lem_example = and_then_lem four_rows three_rows refl four_three

-- The last two of three rows, the second of which is selected: refined by a predicate that it
-- passes, the selection is that of the first two rows.
abbrev sliced : BooleanSelection
sliced = record { selectors = record { before = true ∷ []; bits = false ∷ true ∷ []; after = [] } }

sliced_refined :
    and_then sliced (selection_of (true ∷ []))
    ≡ some
        record { selectors = record { before = []; bits = true ∷ false ∷ []; after = true ∷ [] } }
unfolding and_then
sliced_refined = refl

and_then_assoc_example :
    (so r op q : BooleanSelection) × (and_then four_rows three_rows ≡ some so)
    × (and_then so two_rows ≡ some r)
    × (and_then three_rows two_rows ≡ some op)
    × (and_then four_rows op ≡ some q)
    × (r.selectors.bits ≡ q.selectors.bits)
    × (row_count r ≡ row_count two_rows)
    × (len r ≡ len four_rows)
and_then_assoc_example = and_then_assoc four_rows three_rows two_rows refl refl four_three three_two

abbrev two_ranges : List (ℕ × ℕ)
two_ranges = (1, 3) ∷ (4, 5) ∷ []

from_consecutive_ranges_lem_example :
    (s : BooleanSelection) × (from_consecutive_ranges two_ranges 6 ≡ some s)
    × (length s.selectors.bits ≡ 6)
    × ((i : ℕ) → i < 6 → get_elem? s.selectors.bits i ≡ some (covered i two_ranges))
from_consecutive_ranges_lem_example =
    from_consecutive_ranges_lem two_ranges 6
      (omega arith, omega arith, (omega arith, omega arith, omega arith))
