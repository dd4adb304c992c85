-- ===== src/Selection/Boolean.antt =====
-- src/parquet/src/reader/utils/boolean_selection.rs: `BooleanSelection`, and the fallback of
-- `boolean_buffer_and_then` in src/parquet/src/utils.rs. A `BooleanBuffer` of arrow is a window of a
-- buffer of bits; those that fill the last byte of a new one are left out. A panic
-- is `none`: of an `expect`, of an arrow operation on buffers of different lengths, and of a
-- subtraction below 0.
pub mod Laws
pub mod Ranges
use liquid_cache.Prelude.{
  ℕ, zero, suc, ◌-◌, ◌==◌, Bool, true, false, not, ◌&&◌, ◌||◌, Option, none, some, List, [], ◌∷◌,
  ◌++◌, ltb, if◌then◌else◌, replicate, length, take, drop, map,
}
use liquid_cache.Selection.{RowSelector, row_selector_to_boolean_buffer}
use liquid_cache.Selection.Rows.{selected}

-- The bits of the window, and those of the buffer before its offset and after its end.
pub record BooleanBuffer : Type 0 where
  pub before : List Bool
  pub bits : List Bool
  pub after : List Bool

-- `values()`: the bits of the whole buffer, from its first one and not from the offset.
abbrev pub values : BooleanBuffer → List Bool
values b = b.before ++ (b.bits ++ b.after)

-- A buffer of its own, as arrow's operators and builders make it.
abbrev pub fresh : List Bool → BooleanBuffer
fresh bits = record { before = []; bits = bits; after = [] }

pub record BooleanSelection : Type 0 where
  pub selectors : BooleanBuffer

abbrev pub selection_of : List Bool → BooleanSelection
selection_of bits = record { selectors = fresh bits }

unfoldable pub new_unselected : ℕ → BooleanSelection
new_unselected row_count = selection_of (replicate row_count false)

unfoldable pub new_selected : ℕ → BooleanSelection
new_selected row_count = selection_of (replicate row_count true)

unfoldable pub as_inverted : BooleanSelection → BooleanSelection
as_inverted s = selection_of (map not s.selectors.bits)

unfoldable pub len : BooleanSelection → ℕ
len s = length s.selectors.bits

unfoldable pub row_count : BooleanSelection → ℕ
row_count s = selected s.selectors.bits

-- The loop of `from_consecutive_ranges`, from `last_end`.
unfoldable pub append_ranges : ℕ → List (ℕ × ℕ) → ℕ → Option (List Bool)
append_ranges last_end [] total_rows =
    if last_end == total_rows
    then some []
    else if ltb total_rows last_end
    then none
    else some (replicate (total_rows - last_end) false)
append_ranges last_end ((start, end) ∷ ranges) total_rows =
    let skipped = append_ranges last_end ranges total_rows in
    let rest = append_ranges end ranges total_rows in
    if ltb end start then none else if end - start == 0 then skipped else elim rest [
      | none ↦ none
      | some bits ↦ some (
          (if ltb last_end start then replicate (start - last_end) false else [])
          ++ (replicate (end - start) true ++ bits))
    ]

unfoldable pub from_consecutive_ranges : List (ℕ × ℕ) → ℕ → Option BooleanSelection
unfolding append_ranges
from_consecutive_ranges ranges total_rows = elim (append_ranges 0 ranges total_rows) [
  | none ↦ none
  | some bits ↦ some (selection_of bits)
]

-- The bitwise operators of arrow's buffers.
unfoldable pub bitwise : (Bool → Bool → Bool) → List Bool → List Bool → Option (List Bool)
bitwise f [] [] = some []
bitwise f [] (y ∷ ys) = none
bitwise f (x ∷ xs) [] = none
bitwise f (x ∷ xs) (y ∷ ys) = elim (bitwise f xs ys) [ none ↦ none | some zs ↦ some (f x y ∷ zs) ]

unfoldable pub of_bits : Option (List Bool) → Option BooleanSelection
of_bits none = none
of_bits (some bits) = some (selection_of bits)

unfoldable pub union : BooleanSelection → BooleanSelection → Option BooleanSelection
unfolding bitwise of_bits
union s other = of_bits (bitwise (λ x y. x || y) s.selectors.bits other.selectors.bits)

unfoldable pub intersection : BooleanSelection → BooleanSelection → Option BooleanSelection
unfolding bitwise of_bits
intersection s other = of_bits (bitwise (λ x y. x && y) s.selectors.bits other.selectors.bits)

-- `set_indices`, from the position `i`.
unfoldable pub positive_iter : ℕ → List Bool → List ℕ
positive_iter i [] = []
positive_iter i (true ∷ bits) = i ∷ positive_iter (suc i) bits
positive_iter i (false ∷ bits) = positive_iter (suc i) bits

unfoldable pub set_bit : ℕ → Bool → List Bool → List Bool
set_bit i b [] = []
set_bit zero b (x ∷ xs) = b ∷ xs
set_bit (suc i) b (x ∷ xs) = x ∷ set_bit i b xs

-- The loop of `and_then`, over the set bits of the one and the bits of the other.
unfoldable pub clear_bits : List ℕ → List Bool → List Bool → Option (List Bool)
unfolding set_bit
clear_bits [] other_bits builder = some builder
clear_bits (bit_idx ∷ indices) [] builder = none
clear_bits (bit_idx ∷ indices) (predicate ∷ other_bits) builder =
    clear_bits indices other_bits (if predicate then builder else set_bit bit_idx false builder)

-- `BooleanBufferBuilder::finish`, of a builder for `count` bits over a whole buffer
abbrev pub finish : ℕ → Option (List Bool) → Option BooleanBuffer
finish count none = none
finish count (some builder) =
    some record { before = []; bits = take count builder; after = drop count builder }

-- The path of both functions where the lengths differ: the builder starts with a copy of the whole
-- buffer, and the positions are those in the window.
unfoldable pub refine : BooleanBuffer → BooleanBuffer → Option BooleanBuffer
unfolding positive_iter clear_bits
refine left right =
    finish (length left.bits) (clear_bits (positive_iter 0 left.bits) right.bits (values left))

abbrev pub select : Option BooleanBuffer → Option BooleanSelection
select none = none
select (some buffer) = some record { selectors = buffer }

unfoldable pub and_then : BooleanSelection → BooleanSelection → Option BooleanSelection
unfolding intersection refine len
and_then s other =
    if len s == len other then intersection s other else select (refine s.selectors other.selectors)

unfoldable pub boolean_buffer_and_then_fallback :
    BooleanBuffer → BooleanBuffer → Option BooleanBuffer
unfolding refine
boolean_buffer_and_then_fallback left right =
    if length left.bits == length right.bits then some right else refine left right

unfoldable pub selects_any : BooleanSelection → Bool
unfolding row_count
selects_any s = ltb 0 (row_count s)

-- `From<RowSelection>`.
unfoldable pub from_row_selection : List RowSelector → BooleanSelection
from_row_selection selection = selection_of (row_selector_to_boolean_buffer selection)
