-- ===== src/Liquid/Hybrid/Access.antt =====
-- Filters, conversions and predicates of the squeezed integer arrays of
-- src/storage/src/liquid_array/hybrid_primitive_array.rs, with the array that is read back from disk
-- (`hydrate_full_arrow`) as an argument. Arrow's filter and comparison are the parameter `Compute`.
-- A panic is `none`.
use liquid_cache.Prelude.{
  ℕ, suc, ◌≤◌, ◌≡◌, Bool, true, false, not, ◌&&◌, Option, none, some, List, [], ◌∷◌, ◌==◌,
  if◌then◌else◌, length,
}
use liquid_cache.Prelude.Int.{ℤ}
use liquid_cache.Liquid.{PrimitiveType, value, add_wrapping, Slot, Operator, compare}
use liquid_cache.Liquid.BitPack.{BitPacking, from_primitive, to_primitive}
use liquid_cache.Liquid.Primitive.{map_values, logical}
use liquid_cache.Liquid.Hybrid.{
  Hybrid, clamped, bucketed, LiquidPrimitiveClampedArray, sentinel_of, ScalarValue, integer,
  FromPrimitive, ok, needs_backing, try_eval_predicate_inner,
}

-- The elements that a selection keeps.
abbrev pub keep {ℓ} : {A : Type ℓ} → List Bool → List A → List A
keep selection [] = []
keep [] (x ∷ xs) = []
keep (true ∷ selection) (x ∷ xs) = x ∷ keep selection xs
keep (false ∷ selection) (x ∷ xs) = keep selection xs

-- what a Boolean array holds
abbrev pub logical_mask : List (Bool × Bool) → List (Option Bool)
logical_mask [] = []
logical_mask ((true, b) ∷ mask) = some b ∷ logical_mask mask
logical_mask ((false, b) ∷ mask) = none ∷ logical_mask mask

-- The comparison of an array with an integer: null where the value is null.
abbrev pub compare_all : PrimitiveType → Operator → ℤ → List (Option ℕ) → List (Option Bool)
compare_all t op z [] = []
compare_all t op z (none ∷ values) = none ∷ compare_all t op z values
compare_all t op z (some v ∷ values) = some (compare op (value t v) z) ∷ compare_all t op z values

-- `arrow::compute::filter` and datafusion's `apply_cmp`
pub record Compute : Type 0 where
  pub filter : List Bool → List Slot → List Slot
  pub apply_cmp : Operator → ScalarValue → List Slot → Option (List (Bool × Bool))

pub record Computes (t : PrimitiveType) (k : Compute) : Type 0 where
  pub filter-eq-keep :
      (selection : List Bool) (xs : List Slot)
      → length selection ≤ length xs
      → k.filter selection xs ≡ keep selection xs
  pub apply_cmp-eq_some :
      (op : Operator) (s : PrimitiveType) (z : ℤ) (xs : List Slot) (mask : List (Bool × Bool))
      → k.apply_cmp op (integer s (some z)) xs ≡ some mask
      → logical_mask mask ≡ compare_all t op z (logical xs)

-- The scan of `to_arrow_known_only`: a value that is not null and equals the sentinel is unknown.
unfoldable pub is_known : ℕ → List Slot → Bool
is_known sentinel [] = true
is_known sentinel ((true, v) ∷ slots) = not (v == sentinel) && is_known sentinel slots
is_known sentinel ((false, v) ∷ slots) = is_known sentinel slots

-- `LiquidPrimitiveClampedArray::to_arrow_known_only`
unfoldable pub to_arrow_known_only :
    PrimitiveType → BitPacking → LiquidPrimitiveClampedArray → Option (List Slot)
unfolding is_known sentinel_of
to_arrow_known_only t f a = elim a.squeezed.bit_width [
  | none ↦ none
  | some bw ↦
      let values = to_primitive t f a.squeezed in
      if is_known (sentinel_of t bw) values
      then some (map_values (λ u. add_wrapping t u a.reference_value) values)
      else none
]

-- `count_set_bits`
unfoldable pub count_set_bits : List Bool → ℕ
count_set_bits [] = 0
count_set_bits (true ∷ bits) = suc (count_set_bits bits)
count_set_bits (false ∷ bits) = count_set_bits bits

module _ (t : PrimitiveType) (f : BitPacking) (k : Compute) where
  -- `filter_inner` and `new_from_filtered` of either array
  unfoldable pub filter_inner : Hybrid → List Bool → Option Hybrid
  filter_inner (clamped a) selection = elim a.squeezed.bit_width [
    | none ↦ none
    | some bw ↦ some (
        clamped (record a {
          squeezed = from_primitive t f (k.filter selection (to_primitive t f a.squeezed)) bw;
        }))
  ]
  filter_inner (bucketed a) selection = elim a.quantized.bit_width [
    | none ↦ none
    | some bw ↦ some (
        bucketed (record a {
          quantized = from_primitive t f (k.filter selection (to_primitive t f a.quantized)) bw;
        }))
  ]

  -- The values without the backing bytes, which only a clamped array may have.
  unfoldable pub known_values : Hybrid → Option (List Slot)
  unfolding to_arrow_known_only
  known_values (clamped a) = to_arrow_known_only t f a
  known_values (bucketed a) = none

  -- `filter` of a clamped array: what is known in memory, or else the array that is read back
  unfoldable pub filter_known : Hybrid → List Slot → List Bool → Option (List Slot)
  unfolding filter_inner known_values count_set_bits
  filter_known h full selection =
      if count_set_bits selection == 0 then some [] else elim (filter_inner h selection) [
        | none ↦ none
        | some filtered ↦ elim (known_values filtered) [
          | none ↦ some (k.filter selection full)
          | some arrow ↦ some arrow
        ]
      ]

  -- `filter` of either array: a quantized one has the trait's, which always reads the array back.
  unfoldable pub filter : Hybrid → List Slot → List Bool → Option (List Slot)
  unfolding filter_known
  filter (clamped a) full selection = filter_known (clamped a) full selection
  filter (bucketed a) full selection = some (k.filter selection full)

  -- `try_eval_predicate` on a comparison of the column with a literal
  unfoldable pub try_eval_predicate :
      FromPrimitive
      → Hybrid
      → List Slot
      → Operator
      → ScalarValue
      → List Bool
      → Option (Option (List (Bool × Bool)))
  unfolding filter_inner
  try_eval_predicate n h full op literal selection = elim (filter_inner h selection) [
    | none ↦ none
    | some filtered ↦ elim (try_eval_predicate_inner t f n filtered op literal) [
      | ok mask ↦ some mask
      | needs_backing ↦ some (k.apply_cmp op literal (k.filter selection full))
    ]
  ]
