-- ===== src/Selection.antt =====
-- src/parquet/src/reader/runtime/utils.rs: the arithmetic on row selections. `RowSelection` is of
-- the `parquet` crate: it holds a vector of selectors, and `from` makes one of a vector.
pub mod Rows
pub mod Offsets
pub mod Batches
pub mod Columns
pub mod Boolean
mod Tests
use liquid_cache.Prelude.{
  ℕ, zero, suc, ◌+◌, ◌-◌, ◌==◌, Bool, true, false, Option, none, some, List, [], ◌∷◌, ◌++◌, ltb,
  leb, if◌then◌else◌, replicate,
}

pub record RowSelector : Type 0 where
  pub row_count : ℕ
  pub skip : Bool

unfoldable pub skip_rows : ℕ → RowSelector
skip_rows n = record { row_count = n; skip = true }

unfoldable pub select_rows : ℕ → RowSelector
select_rows n = record { row_count = n; skip = false }

-- `row_selector_to_boolean_buffer` of src/parquet/src/utils.rs: the loop that appends to the buffer.
unfoldable pub row_selector_to_boolean_buffer : List RowSelector → List Bool
row_selector_to_boolean_buffer [] = []
row_selector_to_boolean_buffer (s ∷ selection) =
    (if s.skip then replicate s.row_count false else replicate s.row_count true)
    ++ row_selector_to_boolean_buffer selection

-- The `position` of `offset_row_selection`, with the two counts of its closure: the counts, and
-- the selectors after the one that it stops at.
unfoldable pub find_split : ℕ → ℕ → ℕ → List RowSelector → Option (ℕ × ℕ × List RowSelector)
find_split offset selected_count skipped_count [] = none
find_split offset selected_count skipped_count (s ∷ selectors) =
    let skipping = find_split offset selected_count (skipped_count + s.row_count) selectors in
    let selecting = find_split offset (selected_count + s.row_count) skipped_count selectors in
    if s.skip
    then skipping
    else if ltb offset (selected_count + s.row_count)
    then some (selected_count + s.row_count, skipped_count, selectors)
    else selecting

-- The loop of `limit_row_selection`.
unfoldable pub limit_selectors : ℕ → List RowSelector → List RowSelector
limit_selectors limit [] = []
limit_selectors limit (s ∷ selectors) =
    let skipping = limit_selectors limit selectors in
    let selecting = limit_selectors (limit - s.row_count) selectors in
    if s.skip
    then s ∷ skipping
    else if leb limit s.row_count
    then record s { row_count = limit } ∷ []
    else s ∷ selecting

module _ (from : List RowSelector → List RowSelector) where
  unfoldable pub offset_row_selection : List RowSelector → ℕ → List RowSelector
  unfolding find_split skip_rows select_rows
  offset_row_selection selection zero = selection
  offset_row_selection selection (suc n) = elim (find_split (suc n) 0 0 selection) [
    | none ↦ from []
    | some (selected_count, skipped_count, rest) ↦
        from (skip_rows (skipped_count + suc n) ∷ select_rows (selected_count - suc n) ∷ rest)
  ]

  unfoldable pub limit_row_selection : List RowSelector → ℕ → List RowSelector
  unfolding limit_selectors
  limit_row_selection selection zero = from []
  limit_row_selection selection (suc n) = from (limit_selectors (suc n) selection)

-- The loop of `take_next_batch`: the batch, what is left of the queue, and the rows taken.
unfoldable pub take_rows : ℕ → ℕ → List RowSelector → List RowSelector × List RowSelector × ℕ
take_rows batch_size current_selected [] = ([], [], current_selected)
take_rows batch_size current_selected (front ∷ selection) =
    let (rt, left, total) = take_rows batch_size (current_selected + front.row_count) selection in
    let to_select = batch_size - current_selected in
    if ltb batch_size (front.row_count + current_selected)
    then (
      (if ltb 0 to_select then record front { row_count = to_select } ∷ [] else []),
      record front { row_count = front.row_count - to_select } ∷ selection,
      current_selected + to_select,
    )
    else (front ∷ rt, left, total)

-- The batch, and the queue afterwards.
unfoldable pub take_next_batch : List RowSelector → ℕ → Option (List RowSelector) × List RowSelector
unfolding take_rows
take_next_batch selection batch_size =
    let (rt, left, total) = take_rows batch_size 0 selection in
    ((if total == 0 then none else some rt), left)
