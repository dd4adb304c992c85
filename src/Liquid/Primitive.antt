-- ===== src/Liquid/Primitive.antt =====
-- `LiquidPrimitiveArray` of src/storage/src/liquid_array/primitive_array.rs: the values of an Arrow
-- array as offsets from their minimum, at the bit width of the largest one. The aggregates `min`
-- and `max` are arrow's, the parameter `Aggregates`; an `unwrap` that fails is `none`.
pub mod Offsets
pub mod RoundTrip
use liquid_cache.Prelude.{
  ℕ, ◌+◌, ◌-◌, ◌*◌, ◌<◌, ◌≤◌, ◌≡◌, Bool, true, false, Option, none, some, List, [], ◌∷◌, ◌==◌, ◌⊎◌,
  if◌then◌else◌, length,
}
use liquid_cache.Prelude.Int.{ℤ, ◌≤ℤ◌}
use liquid_cache.Liquid.{PrimitiveType, modulus, value, add_wrapping, sub_wrapping, Slot}
use liquid_cache.Liquid.BitPack.{
  BitPacking, BitPackedArray, new_null_array, from_primitive, to_primitive, get_bit_width,
}

-- `arrow::compute::kernels::aggregate`
pub record Aggregates : Type 0 where
  pub min : List Slot → Option ℕ
  pub max : List Slot → Option ℕ

-- A property of the values that are not null.
abbrev pub Valids : (ℕ → Type 0) → List Slot → Type 0
Valids P [] = Unit
Valids P ((true, v) ∷ slots) = P v × Valids P slots
Valids P ((false, v) ∷ slots) = Valids P slots

-- A property of all stored values.
abbrev pub All : (ℕ → Type 0) → List Slot → Type 0
All P [] = Unit
All P ((valid, v) ∷ slots) = P v × All P slots

-- A value that is not null.
abbrev pub HasValid : ℕ → List Slot → Type 0
HasValid a [] = ⊥
HasValid a ((true, v) ∷ slots) = (a ≡ v) ⊎ HasValid a slots
HasValid a ((false, v) ∷ slots) = HasValid a slots

-- The aggregates skip nulls, and have no result where all values are null.
pub record Aggregating (t : PrimitiveType) (k : Aggregates) : Type 0 where
  pub min_none : (xs : List Slot) → k.min xs ≡ none → Valids (λ v. ⊥) xs
  pub min_some :
      (xs : List Slot) (m : ℕ)
      → k.min xs ≡ some m
      → HasValid m xs × Valids (λ v. value t m ≤ℤ value t v) xs
  pub max_none : (xs : List Slot) → k.max xs ≡ none → Valids (λ v. ⊥) xs
  pub max_some :
      (xs : List Slot) (m : ℕ)
      → k.max xs ≡ some m
      → HasValid m xs × Valids (λ v. value t v ≤ℤ value t m) xs

pub data IntegerSqueezePolicy : Type 0 where
  clamp quantize : IntegerSqueezePolicy

-- `IntegerSqueezePolicy::default()`
abbrev pub default_policy : IntegerSqueezePolicy
default_policy = quantize

pub record LiquidPrimitiveArray : Type 0 where
  pub bit_packed : BitPackedArray
  pub reference_value : ℕ
  pub squeeze_policy : IntegerSqueezePolicy

abbrev pub map_values : (ℕ → ℕ) → List Slot → List Slot
map_values f [] = []
map_values f ((valid, v) ∷ slots) = (valid, f v) ∷ map_values f slots

module _ (t : PrimitiveType) (f : BitPacking) where
  unfoldable pub from_arrow_array : Aggregates → List Slot → Option LiquidPrimitiveArray
  from_arrow_array k array = elim (k.min array) [
    | none ↦ some record {
      bit_packed = new_null_array (length array);
      reference_value = 0;
      squeeze_policy = default_policy;
    }
    | some low ↦ elim (k.max array) [
      | none ↦ none
      | some high ↦
          let bit_width = get_bit_width (sub_wrapping t high low) in
          let values = if low == 0 then array else map_values (λ v. sub_wrapping t v low) array in
          some record {
            bit_packed = from_primitive t f values bit_width;
            reference_value = low;
            squeeze_policy = default_policy;
          }
    ]
  ]

  unfoldable pub to_arrow_array : LiquidPrimitiveArray → List Slot
  to_arrow_array a =
      let values = to_primitive t f a.bit_packed in
      if a.reference_value == 0
      then values
      else map_values (λ v. add_wrapping t v a.reference_value) values

unfoldable pub set_squeeze_policy :
    LiquidPrimitiveArray → IntegerSqueezePolicy → LiquidPrimitiveArray
set_squeeze_policy a policy = record a { squeeze_policy = policy }

-- What an array holds, whatever is stored for its nulls.
abbrev pub logical : List Slot → List (Option ℕ)
logical [] = []
logical ((true, v) ∷ slots) = some v ∷ logical slots
logical ((false, v) ∷ slots) = none ∷ logical slots

-- The native values of an array are bit patterns of its type, those of nulls included.
abbrev pub InRange : PrimitiveType → List Slot → Type 0
InRange t slots = All (λ v. v < modulus t) slots
