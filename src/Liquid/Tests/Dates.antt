-- ===== src/Liquid/Tests/Dates.antt =====
-- The theorems on dates at concrete ones.
use liquid_cache.Prelude.{ℕ, ◌≡◌, refl, true, false, some, List, [], ◌∷◌, arith}
use liquid_cache.Prelude.Int.{ℤ, negsuc, ◌+ℤ◌, ◌-ℤ◌}
use liquid_cache.Liquid.{date32, uint32, modulus, bits, is_unsigned, value, Slot, sub_wrapping}
use liquid_cache.Liquid.BitPack.{from_primitive, get_bit_width, leading_zeros}
use liquid_cache.Liquid.Primitive.{
  LiquidPrimitiveArray, IntegerSqueezePolicy, from_arrow_array, InRange, Valids,
}
use liquid_cache.Liquid.Dates.{
  year, day_of_week, component_from_days, ymd_from_epoch_days, ymd_to_epoch_days, civil_days,
  lossy_days,
}
use liquid_cache.Liquid.Dates.Calendar.{IsI32, ymd_to_epoch_days-ymd_from_epoch_days}
use liquid_cache.Liquid.Dates.Lossy.{component_from_days-lossy_days}
use liquid_cache.Liquid.SqueezedDate.{SqueezedDate32Array, from_liquid, to_component_date32}
use liquid_cache.Liquid.SqueezedDate.Components.{logical_ints}
use liquid_cache.Liquid.SqueezedDate.OfDays.{IsDay, AreComponents}
use liquid_cache.Liquid.SqueezedDate.Ends.{to_component_date32-from_liquid}
use liquid_cache.Liquid.Dates.OnDay.{ComponentFits}
use liquid_cache.Liquid.Tests.Packing.{digits_packing, digits_packing-PacksLosslessly}
use liquid_cache.Liquid.Tests.Kernels.{aggregates, aggregates-Aggregating, best}

-- the day before the epoch
abbrev eve : ℤ
eve = negsuc 0

ymd_to_epoch_days-ymd_from_epoch_days_example :
    ymd_to_epoch_days
      (ymd_from_epoch_days eve).0
      (ymd_from_epoch_days eve).1
      (ymd_from_epoch_days eve).2
    ≡ eve
ymd_to_epoch_days-ymd_from_epoch_days_example =
    ymd_to_epoch_days-ymd_from_epoch_days eve (omega arith)

january_1969 : IsI32 (civil_days (component_from_days year eve) 1 1)
unfolding component_from_days ymd_from_epoch_days civil_days ◌+ℤ◌ ◌-ℤ◌
january_1969 = omega arith

component_from_days-lossy_days_example :
    component_from_days year (lossy_days year (component_from_days year eve))
    ≡ component_from_days year eve
component_from_days-lossy_days_example =
    component_from_days-lossy_days year eve (omega arith) january_1969

-- The last day of 1969, a null, and the first of February 1970.
abbrev days : List Slot
days = (true, 4294967295) ∷ (false, 9) ∷ (true, 31) ∷ []

days-InRange : InRange date32 days
unfolding modulus bits
days-InRange = omega arith

abbrev encoded : LiquidPrimitiveArray
encoded = record {
  bit_packed =
      from_primitive date32 (digits_packing date32) ((true, 0) ∷ (false, 10) ∷ (true, 32) ∷ []) 6;
  reference_value = 4294967295;
  squeeze_policy = IntegerSqueezePolicy.quantize;
}

days-encoded :
    from_arrow_array date32 (digits_packing date32) (aggregates date32) days ≡ some encoded
unfolding from_arrow_array best get_bit_width leading_zeros sub_wrapping modulus bits value
    is_unsigned
days-encoded = refl

abbrev day_of : ℕ → ℤ
day_of v = value date32 v

days_known :
    Valids
      (λ v. IsDay date32 v (day_of v) × IsI32 (day_of v) × ComponentFits day_of_week (day_of v))
      days
unfolding value modulus bits is_unsigned ◌+ℤ◌
days_known = ((refl, omega arith, omega arith), ((refl, omega arith, omega arith), tt))

to_component_date32-from_liquid_example :
    (a : LiquidPrimitiveArray) × (s : SqueezedDate32Array) × (from_arrow_array date32
        (digits_packing date32)
        (aggregates date32)
        days
      ≡ some a)
    × (from_liquid (digits_packing uint32) date32 (digits_packing date32) a day_of_week ≡ some s)
    × AreComponents day_of_week day_of days
        (logical_ints (to_component_date32 (digits_packing uint32) s))
to_component_date32-from_liquid_example =
    to_component_date32-from_liquid date32 (digits_packing date32) (digits_packing uint32)
      (digits_packing-PacksLosslessly date32) (digits_packing-PacksLosslessly uint32)
      (aggregates date32) (aggregates-Aggregating date32) tt days day_of_week day_of days-InRange
      days_known
