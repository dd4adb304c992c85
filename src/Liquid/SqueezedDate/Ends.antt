-- ===== src/Liquid/SqueezedDate/Ends.antt =====
-- Arrow arrays of dates and timestamps from their encoding to the components of their squeezed form.
use mathlib.Core.Path.{subst}
use liquid_cache.Prelude.{ℕ, ◌≡◌, refl, sym, some, List}
use liquid_cache.Prelude.Int.{ℤ}
use liquid_cache.Liquid.{PrimitiveType, uint32, Slot}
use liquid_cache.Liquid.BitPack.{BitPacking, PacksLosslessly}
use liquid_cache.Liquid.Primitive.{
  Aggregates, Aggregating, LiquidPrimitiveArray, from_arrow_array, to_arrow_array, Valids, InRange,
}
use liquid_cache.Liquid.Primitive.RoundTrip.{to_arrow_array-from_arrow_array}
use liquid_cache.Liquid.Dates.{Date32Field}
use liquid_cache.Liquid.Dates.Calendar.{IsI32}
use liquid_cache.Liquid.Dates.OnDay.{ComponentFits}
use liquid_cache.Liquid.SqueezedDate.{
  SqueezedDate32Array, from_liquid, squeeze_components, to_component_date32,
}
use liquid_cache.Liquid.SqueezedDate.Components.{logical_ints}
use liquid_cache.Liquid.SqueezedDate.Contents.{squeezed_components}
use liquid_cache.Liquid.SqueezedDate.OfDays.{
  IsDay, HasDays, AreComponents, component_of-Follows, components-AreComponents,
}

-- An Arrow array of dates or of timestamps is encoded and squeezed to one component without a panic.
-- The squeezed array is null where the array is, and gives for every other value the component that
-- the calendar has for its day: that of the date that comes so many days after the first of January
-- 1970, or before it. The packings are lossless and the aggregates behave as documented. The day of
-- every value is a number of 32 bits, and for the weekday not one of the last four.
pub to_component_date32-from_liquid :
    (t : PrimitiveType) (f g : BitPacking)
    → PacksLosslessly t f
    → PacksLosslessly uint32 g
    → (k : Aggregates) → Aggregating t k
    → HasDays t
    → (array : List Slot) (field : Date32Field) (days : ℕ → ℤ) → InRange t array
    → Valids (λ v. IsDay t v (days v) × IsI32 (days v) × ComponentFits field (days v)) array
    → (a : LiquidPrimitiveArray) × (s : SqueezedDate32Array) × (from_arrow_array t f k array
        ≡ some a)
      × (from_liquid g t f a field ≡ some s)
      × AreComponents field days array (logical_ints (to_component_date32 g s))
unfolding from_liquid
to_component_date32-from_liquid t f g laws laws' k agg has array field days r h =
    let (a, e, same) = to_arrow_array-from_arrow_array t f laws k agg array r in
    let (component, c, follows) = component_of-Follows t field has in
    (
      a,
      squeeze_components g t field component (to_arrow_array t f a),
      e,
      rw (c, from_liquid) refl,
      subst (AreComponents field days array)
          (sym (squeezed_components t f g laws' array a field component r same c))
          (components-AreComponents t field component days follows array h),
    )
