-- ===== src/Liquid/Primitive/RoundTrip.antt =====
-- `LiquidPrimitiveArray::to_arrow_array` after `from_arrow_array`.
use liquid_cache.Prelude.{
  ℕ, ◌<◌, ◌≡◌, some, List, ◌==◌, ◌⊎◌, inl, inr, length, Option-cases, if◌then◌else◌,
}
use liquid_cache.Prelude.Int.{◌≤ℤ◌}
use liquid_cache.Liquid.{PrimitiveType, modulus, value, sub_wrapping, Slot}
use liquid_cache.Liquid.BitPack.{
  BitPacking, PacksLosslessly, new_null_array, from_primitive, to_primitive, get_bit_width,
}
use liquid_cache.Liquid.BitPack.RoundTrip.{low_slots, to_primitive-from_primitive}
use liquid_cache.Liquid.Primitive.{
  Aggregates, Aggregating, Valids, LiquidPrimitiveArray, default_policy, map_values,
  from_arrow_array, to_arrow_array, logical, InRange,
}
use liquid_cache.Liquid.Primitive.Offsets.{
  HasValid-lt, HasValid-holds, all_null, offsets_values, restored_values, low_slots-InRange, width,
  width_lem, logical_offsets,
}

abbrev pub null_encoded : List Slot → LiquidPrimitiveArray
null_encoded array = record {
  bit_packed = new_null_array (length array);
  reference_value = 0;
  squeeze_policy = default_policy;
}

abbrev pub encoded : PrimitiveType → BitPacking → ℕ → ℕ → List Slot → LiquidPrimitiveArray
encoded t f low high array = record {
  bit_packed =
      from_primitive t f (if low == 0 then array else map_values (λ v. sub_wrapping t v low) array)
        (get_bit_width (sub_wrapping t high low));
  reference_value = low;
  squeeze_policy = default_policy;
}

null_decoded :
    (t : PrimitiveType) (f : BitPacking) (array : List Slot)
    → Valids (λ v. ⊥) array
    → logical (to_arrow_array t f (null_encoded array)) ≡ logical array
unfolding to_arrow_array to_primitive new_null_array
null_decoded t f array h = all_null array h

module _ (t : PrimitiveType) (f : BitPacking) (laws : PacksLosslessly t f) (k : Aggregates)
    (agg : Aggregating t k) where
  decoded :
      (low high : ℕ) (array : List Slot)
      → low < modulus t
      → high < modulus t
      → InRange t array
      → Valids (λ v. value t low ≤ℤ value t v) array
      → Valids (λ v. value t v ≤ℤ value t high) array
      → logical (to_arrow_array t f (encoded t f low high array)) ≡ logical array
  unfolding to_arrow_array
  decoded low high array hl hh r a b =
      let w = width_lem t low high hl hh in
      rw
        (
          offsets_values t low array r,
          to_primitive-from_primitive t f laws (width t low high hl hh) w.0 w.2
              (map_values (λ v. sub_wrapping t v low) array),
          restored_values t low
              (low_slots (width t low high hl hh) (map_values (λ v. sub_wrapping t v low) array))
              (low_slots-InRange t (width t low high hl hh)
                (map_values (λ v. sub_wrapping t v low) array) w.2),
        )
        (logical_offsets t low high hl hh array r a b)

  -- The two ways in which an array is encoded: as nulls, or with its bounds.
  pub from_arrow_array-cases :
      (array : List Slot)
      → InRange t array
      → ((from_arrow_array t f k array ≡ some (null_encoded array)) × Valids (λ v. ⊥) array)
        ⊎ ((low : ℕ) × (high : ℕ) × (from_arrow_array t f k array
              ≡ some (encoded t f low high array))
            × (low < modulus t)
            × (high < modulus t)
            × Valids (λ v. value t low ≤ℤ value t v) array
            × Valids (λ v. value t v ≤ℤ value t high) array)
  unfolding from_arrow_array new_null_array
  from_arrow_array-cases array r = elim (Option-cases (k.min array)) [
    | inl e ↦ inl (rw (e, from_arrow_array), agg.min_none array e)
    | inr (low, e) ↦ elim (Option-cases (k.max array)) [
      | inl e' ↦
          absurd
            (HasValid-holds (λ v. ⊥) low array (agg.max_none array e') (agg.min_some array low e).0)
      | inr (high, e') ↦
          let l = agg.min_some array low e in
          let h = agg.max_some array high e' in
          inr (
            low,
            high,
            rw (e, e', from_arrow_array),
            HasValid-lt t low array r l.0,
            HasValid-lt t high array r h.0,
            l.1,
            h.1,
          )
    ]
  ]

  -- An Arrow array of any length and any integer, date or timestamp type is encoded without a
  -- panic, also where differences of its values leave the range of the type. Decoding it gives
  -- the same nulls and the same values.
  pub to_arrow_array-from_arrow_array :
      (array : List Slot)
      → InRange t array
      → (a : LiquidPrimitiveArray) × (from_arrow_array t f k array ≡ some a)
        × (logical (to_arrow_array t f a) ≡ logical array)
  to_arrow_array-from_arrow_array array r = elim (from_arrow_array-cases array r) [
    | inl (e, nulls) ↦ (null_encoded array, e, null_decoded t f array nulls)
    | inr (low, high, e, hl, hh, a, b) ↦
        (encoded t f low high array, e, decoded low high array hl hh r a b)
  ]
