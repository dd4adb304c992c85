-- ===== src/Liquid/Hybrid/Rows.antt =====
-- The rows of a squeezed array that a selection keeps: `filter_inner` and `new_from_filtered` of
-- src/storage/src/liquid_array/hybrid_primitive_array.rs.
use liquid_cache.Prelude.{ℕ, ◌-◌, ◌^◌, ◌≤◌, ◌<◌, ◌≡◌, ◌∙◌, Bool, some, List, arith, length}
use liquid_cache.Liquid.{PrimitiveType, bits, Slot, Operator}
use liquid_cache.Liquid.BitPack.{BitPacking, PacksLosslessly, from_primitive, to_primitive}
use liquid_cache.Liquid.BitPack.RoundTrip.{to_primitive-from_primitive, low_slots}
use liquid_cache.Liquid.Primitive.{LiquidPrimitiveArray, map_values}
use liquid_cache.Liquid.Hybrid.{
  max_offset, eval_slots, decide_clamped, decide_quantized, Hybrid, clamped, bucketed,
  clamp_offsets, quantize_offsets, eval_native, eval_clamped, eval_quantized, FromPrimitive,
  ConvertsExactly, clamp_to,
}
use liquid_cache.Liquid.Hybrid.Predicates.{IsExact, buckets, bucket, bucket_width}
use liquid_cache.Liquid.Hybrid.Access.{Compute, Computes, filter_inner, known_values, keep}
use liquid_cache.Liquid.Hybrid.Keeps.{keep-All, keep-map_values}
use liquid_cache.Liquid.Hybrid.Widths.{
  All-unit, low_slots-map_values, sentinel_of-eq, clamp_to-lt, max_offset-All,
}
use liquid_cache.Liquid.Hybrid.Squeeze.{length-map_values}

module _ (t : PrimitiveType) (f : BitPacking) (laws : PacksLosslessly t f) (n : FromPrimitive)
    (conv : ConvertsExactly t n) (c : Compute) (computes : Computes t c) (a : LiquidPrimitiveArray)
    (exact : IsExact t f a) (range : ℕ × ℕ) (w : ℕ) (p : 1 ≤ w) (q : w ≤ bits t)
    (selection : List Bool)
    (covers : length selection ≤ length (to_primitive t f a.bit_packed)) where
  abbrev offsets : List Slot
  offsets = to_primitive t f a.bit_packed

  -- Squeezed rows that are filtered and packed again are the squeezed form of the rows.
  filtered_rows :
      (g : ℕ → ℕ)
      → low_slots w (map_values g offsets) ≡ map_values g offsets
      → c.filter selection (to_primitive t f (from_primitive t f (map_values g offsets) w))
        ≡ map_values g (keep selection offsets)
  filtered_rows g fits =
      let len : length selection ≤ length (map_values g offsets) =
        omega (arith, length-map_values g offsets) in
      rw (to_primitive-from_primitive t f laws w p q (map_values g offsets), fits)
        (computes.filter-eq-keep selection (map_values g offsets) len
          ∙ keep-map_values g selection offsets)

  abbrev clamp : ℕ → ℕ
  clamp = clamp_to (2 ^ w - 1)

  unfoldable pub clamped_rows : Hybrid
  clamped_rows = clamped record {
    squeezed = from_primitive t f (map_values clamp (keep selection offsets)) w;
    reference_value = a.reference_value;
    disk_range = range;
  }

  pub filter_clamped :
      filter_inner t f c (clamped (clamp_offsets t f a range w)) selection ≡ some clamped_rows
  unfolding filter_inner clamp_offsets clamped_rows from_primitive
  filter_clamped =
      let fits =
        low_slots-map_values w clamp (λ v. Unit) (λ v u. clamp_to-lt w v) offsets
          (All-unit offsets) in
      rw (sentinel_of-eq t w q, filtered_rows clamp fits)

  pub clamped_unpacked :
      to_primitive t f (from_primitive t f (map_values clamp (keep selection offsets)) w)
      ≡ map_values clamp (keep selection offsets)
  clamped_unpacked =
      let kept = keep selection offsets in
      to_primitive-from_primitive t f laws w p q (map_values clamp kept)
      ∙ low_slots-map_values w clamp (λ v. Unit) (λ v u. clamp_to-lt w v) kept (All-unit kept)

  pub eval_clamped_rows :
      (op : Operator) (k : ℕ)
      → eval_native t f clamped_rows op k
        ≡ eval_slots
            (decide_clamped t op a.reference_value (2 ^ w - 1) k)
            (map_values clamp (keep selection offsets))
  unfolding eval_native eval_clamped clamped_rows from_primitive
  eval_clamped_rows op k = rw (sentinel_of-eq t w q, clamped_unpacked)

  abbrev into_bucket : ℕ → ℕ
  into_bucket = bucket t f laws n conv a exact w

  unfoldable pub bucketed_rows : Hybrid
  bucketed_rows = bucketed record {
    quantized = from_primitive t f (map_values into_bucket (keep selection offsets)) w;
    reference_value = a.reference_value;
    bucket_width = bucket_width t f laws n conv a exact w;
    disk_range = range;
  }

  small_bucket : (v : ℕ) → v ≤ max_offset offsets → into_bucket v < 2 ^ w
  small_bucket v h = (buckets t f laws n conv a exact w v p q h).2

  pub filter_bucketed :
      filter_inner t f c (bucketed (quantize_offsets t f a range w)) selection ≡ some bucketed_rows
  unfolding filter_inner quantize_offsets bucketed_rows from_primitive
  filter_bucketed =
      let fits =
        low_slots-map_values w into_bucket (λ v. v ≤ max_offset offsets) small_bucket offsets
          (max_offset-All offsets) in
      rw (filtered_rows into_bucket fits)

  pub eval_bucketed_rows :
      (op : Operator) (k : ℕ)
      → eval_native t f bucketed_rows op k
        ≡ eval_slots
            (decide_quantized t op a.reference_value (bucket_width t f laws n conv a exact w) k)
            (map_values into_bucket (keep selection offsets))
  unfolding eval_native eval_quantized bucketed_rows
  eval_bucketed_rows op k =
      let kept = keep selection offsets in
      rw (
        to_primitive-from_primitive t f laws w p q (map_values into_bucket kept),
        low_slots-map_values w into_bucket (λ v. v ≤ max_offset offsets) small_bucket kept
            (keep-All (λ v. v ≤ max_offset offsets) selection offsets (max_offset-All offsets)),
      )

  -- A quantized array has no values without its backing bytes.
  pub no_bucketed : (arrow : List Slot) → ¬ (known_values t f c bucketed_rows ≡ some arrow)
  unfolding known_values bucketed_rows
  no_bucketed arrow e = cc
