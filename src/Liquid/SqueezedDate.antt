-- ===== src/Liquid/SqueezedDate.antt =====
-- `SqueezedDate32Array` of src/storage/src/liquid_array/squeezed_date32_array.rs: one component of each
-- date, as bit-packed offsets from the smallest. The two constructors, for dates and timestamps, are
-- the same code after the day of a value, and are one here. An `i32` is an integer; casts to and from
-- it wrap.
pub mod Components
pub mod Small
pub mod Contents
pub mod OfDays
pub mod Ends
use liquid_cache.Prelude.{
  ℕ, ◌+◌, ◌-◌, ◌*◌, ◌/◌, ◌%◌, ◌^◌, Bool, true, false, Option, none, some, List, [], ◌∷◌, length,
  ltb, leb, if◌then◌else◌,
}
use liquid_cache.Prelude.Int.{ℤ, pos, negsuc, pos_part, ◌+ℤ◌, ◌-ℤ◌, ltb_ℤ}
use liquid_cache.Liquid.{PrimitiveType, date32, int32, value, Slot}
use liquid_cache.Liquid.BitPack.{
  BitPacking, BitPackedArray, new_null_array, from_primitive, to_primitive, get_bit_width,
}
use liquid_cache.Liquid.Primitive.{LiquidPrimitiveArray, to_arrow_array}
use liquid_cache.Liquid.Dates.{
  Date32Field, component_from_days, lossy_days, as_i32, i32_max, i32_min, saturating_add,
}

pub data TimeUnit : Type 0 where
  second millisecond microsecond nanosecond : TimeUnit

-- `timestamp_unit`
unfoldable pub timestamp_unit : PrimitiveType → Option TimeUnit
timestamp_unit PrimitiveType.timestamp_second = some second
timestamp_unit PrimitiveType.timestamp_millisecond = some millisecond
timestamp_unit PrimitiveType.timestamp_microsecond = some microsecond
timestamp_unit PrimitiveType.timestamp_nanosecond = some nanosecond
timestamp_unit _ = none

unfoldable pub ticks_per_day : TimeUnit → ℕ
ticks_per_day second = 86400
ticks_per_day millisecond = 86400000
ticks_per_day microsecond = 86400000000
ticks_per_day nanosecond = 86400000000000

unfoldable pub div_euclid : ℤ → ℕ → ℤ
div_euclid (pos n) c = pos (n / c)
div_euclid (negsuc n) c = negsuc (n / c)

unfoldable pub timestamp_to_days_since_epoch : ℤ → TimeUnit → ℤ
unfolding div_euclid as_i32 ticks_per_day
timestamp_to_days_since_epoch v unit = as_i32 (div_euclid v (ticks_per_day unit))

pub record SqueezedDate32Array : Type 0 where
  pub field : Date32Field
  pub bit_packed : BitPackedArray
  pub reference_value : ℤ
  pub original_data_type : PrimitiveType

-- The loop for `has_value`, `min_component` and `max_component`, with the component of a value.
unfoldable pub min_max : (ℕ → ℤ) → Bool × ℤ × ℤ → List Slot → Bool × ℤ × ℤ
min_max component found [] = found
min_max component found ((false, v) ∷ slots) = min_max component found slots
min_max component (has_value, low, high) ((true, v) ∷ slots) =
    let comp = component v in
    min_max component
      (true, if ltb_ℤ comp low then comp else low, if ltb_ℤ high comp then comp else high) slots

-- `(comp - min_component) as u32`, and 0 for a null
unfoldable pub component_offsets : (ℕ → ℤ) → ℤ → List Slot → List Slot
component_offsets component low [] = []
component_offsets component low ((false, v) ∷ slots) =
    (false, 0) ∷ component_offsets component low slots
component_offsets component low ((true, v) ∷ slots) =
    (true, pos_part (component v -ℤ low) % 2 ^ 32) ∷ component_offsets component low slots

-- The component of a value, by the type of the array: `none` is the `expect` on the unit.
unfoldable pub component_of : PrimitiveType → Date32Field → Option (ℕ → ℤ)
component_of date32 field = some (λ v. component_from_days field (value date32 v))
component_of t field = elim (timestamp_unit t) [
  | none ↦ none
  | some unit ↦
      some (λ v. component_from_days field (timestamp_to_days_since_epoch (value t v) unit))
]

unfoldable pub add_components : ℤ → List Slot → List (Bool × ℤ)
unfolding saturating_add
add_components reference [] = []
add_components reference ((valid, v) ∷ slots) =
    (valid, saturating_add (value int32 v) reference) ∷ add_components reference slots

unfoldable pub lossy_slots : Date32Field → ℤ → List Slot → List (Bool × ℤ)
lossy_slots field reference [] = []
lossy_slots field reference ((false, v) ∷ slots) =
    (false, pos 0) ∷ lossy_slots field reference slots
lossy_slots field reference ((true, v) ∷ slots) =
    (true, lossy_days field (as_i32 (reference +ℤ value int32 v)))
    ∷ lossy_slots field reference slots

module _ (f : BitPacking) where
  -- The body of both constructors. The type of the offsets is `UInt32Type`.
  unfoldable pub squeeze_components :
      PrimitiveType → Date32Field → (ℕ → ℤ) → List Slot → SqueezedDate32Array
  unfolding min_max component_offsets
  squeeze_components t field component array =
      let (has_value, low, high) = min_max component (false, i32_max, i32_min) array in
      if has_value
      then record {
        field = field;
        bit_packed =
            from_primitive PrimitiveType.uint32 f (component_offsets component low array)
              (get_bit_width (pos_part (high -ℤ low)));
        reference_value = low;
        original_data_type = t;
      }
      else record {
        field = field;
        bit_packed = new_null_array (length array);
        reference_value = pos 0;
        original_data_type = t;
      }

  -- `from_liquid_date32` and `from_liquid_timestamp`, by the type
  unfoldable pub from_liquid :
      PrimitiveType → BitPacking → LiquidPrimitiveArray → Date32Field → Option SqueezedDate32Array
  unfolding squeeze_components component_of
  from_liquid t packing a field = elim (component_of t field) [
    | none ↦ none
    | some component ↦ some (squeeze_components t field component (to_arrow_array t packing a))
  ]

  unfoldable pub to_component_date32 : SqueezedDate32Array → List (Bool × ℤ)
  unfolding add_components
  to_component_date32 a =
      add_components a.reference_value (to_primitive PrimitiveType.uint32 f a.bit_packed)

  unfoldable pub to_arrow_date32_lossy : SqueezedDate32Array → List (Bool × ℤ)
  unfolding lossy_slots
  to_arrow_date32_lossy a =
      lossy_slots a.field a.reference_value (to_primitive PrimitiveType.uint32 f a.bit_packed)
