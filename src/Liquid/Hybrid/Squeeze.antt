-- ===== src/Liquid/Hybrid/Squeeze.antt =====
-- The way of an Arrow array through `from_arrow_array`, `squeeze` and the evaluation of a predicate
-- or the conversion to Arrow without the backing bytes.
use mathlib.Core.Path.{subst}
use liquid_cache.Prelude.{
  ℕ, zero, suc, ◌/◌, ◌≤◌, ◌<◌, ◌≡◌, refl, ap, true, false, Option, none, some, List, [], ◌∷◌, ltb,
  max, arith, Bool-cases, inl, inr, ◌⊎◌, length, replicate,
}
use liquid_cache.Prelude.Int.{◌≤ℤ◌}
use liquid_cache.Liquid.{PrimitiveType, modulus, value, sub_wrapping, Slot}
use liquid_cache.Liquid.Natives.{
  modulus-half, add_wrapping-sub_wrapping, value-sub_wrapping, sub_wrapping-lt,
}
use liquid_cache.Liquid.BitPack.{
  BitPacking, PacksLosslessly, from_primitive, to_primitive, new_null_array,
}
use liquid_cache.Liquid.BitPack.RoundTrip.{to_primitive-from_primitive, low_slots}
use liquid_cache.Liquid.Primitive.{
  LiquidPrimitiveArray, IntegerSqueezePolicy, from_arrow_array, to_arrow_array, map_values, logical,
  Valids, InRange, Aggregates, Aggregating,
}
use liquid_cache.Liquid.Primitive.RoundTrip.{
  null_encoded, encoded, from_arrow_array-cases, to_arrow_array-from_arrow_array,
}
use liquid_cache.Liquid.Primitive.Offsets.{
  offsets_values, width, width_lem, offset_fits, low_slots-InRange,
}
use liquid_cache.Liquid.Hybrid.{
  Hybrid, clamped, bucketed, squeeze_at, clamp_offsets, quantize_offsets,
}
use liquid_cache.Liquid.Hybrid.Slots.{IsOffset}
use liquid_cache.Liquid.Hybrid.Predicates.{IsExact}

module _ (t : PrimitiveType) (low high : ℕ) (hl : low < modulus t) (hh : high < modulus t) where
  offsets_exact :
      (array : List Slot)
      → InRange t array
      → Valids (λ v. value t low ≤ℤ value t v) array
      → Valids (λ v. value t v ≤ℤ value t high) array
      → Valids
          (IsOffset t low)
          (low_slots (width t low high hl hh) (map_values (λ v. sub_wrapping t v low) array))
  offsets_exact [] r a b = tt
  offsets_exact ((true, v) ∷ slots) r a b =
      let e = add_wrapping-sub_wrapping t v low r.0 hl in
      let x = value-sub_wrapping t v low r.0 hl a.0 in
      let fact : IsOffset t low (sub_wrapping t v low) = record {
        in_range = sub_wrapping-lt t v low r.0 hl;
        exact = rw e (omega arith);
        sum_in_range = rw e r.0;
      } in
      rw (offset_fits t low high hl hh v r.0 a.0 b.0) (fact, offsets_exact slots r.1 a.1 b.1)
  offsets_exact ((false, v) ∷ slots) r a b = offsets_exact slots r.1 a b

nulls-InRange : (t : PrimitiveType) (n : ℕ) → InRange t (replicate n (false, 0))
nulls-InRange t zero = tt
nulls-InRange t (suc n) = (omega (arith, modulus-half t), nulls-InRange t n)

nulls_valid : (P : ℕ → Type 0) (n : ℕ) → Valids P (replicate n (false, 0))
nulls_valid P zero = tt
nulls_valid P (suc n) = nulls_valid P n

module _ (t : PrimitiveType) (f : BitPacking) (laws : PacksLosslessly t f) (k : Aggregates)
    (agg : Aggregating t k) where
  null_encoded-IsExact : (array : List Slot) → IsExact t f (null_encoded array)
  unfolding to_primitive new_null_array
  null_encoded-IsExact array = record {
    reference_in_range = omega (arith, modulus-half t);
    offsets_in_range = nulls-InRange t (length array);
    offsets = nulls_valid (IsOffset t 0) (length array);
    width_in_range = λ w e. absurd (cc);
  }

  encoded-IsExact :
      (low high : ℕ) (array : List Slot)
      → low < modulus t
      → high < modulus t
      → InRange t array
      → Valids (λ v. value t low ≤ℤ value t v) array
      → Valids (λ v. value t v ≤ℤ value t high) array
      → IsExact t f (encoded t f low high array)
  unfolding from_primitive
  encoded-IsExact low high array hl hh r a b =
      let w = width_lem t low high hl hh in
      let offs = map_values (λ v. sub_wrapping t v low) array in
      let e : to_primitive t f (encoded t f low high array).bit_packed
          ≡ low_slots (width t low high hl hh) offs =
        rw (offsets_values t low array r)
          (to_primitive-from_primitive t f laws (width t low high hl hh) w.0 w.2 offs) in
      record {
        reference_in_range = hl;
        offsets_in_range = rw e (low_slots-InRange t (width t low high hl hh) offs w.2);
        offsets = rw e (offsets_exact t low high hl hh array r a b);
        width_in_range = λ w' e'. let same : width t low high hl hh ≡ w' = cc in rw (← same) w.2;
      }

  -- Every encoded array keeps its offsets exactly.
  pub from_arrow_array-IsExact :
      (array : List Slot) (a : LiquidPrimitiveArray)
      → InRange t array
      → from_arrow_array t f k array ≡ some a
      → IsExact t f a × (logical (to_arrow_array t f a) ≡ logical array)
  from_arrow_array-IsExact array a r e =
      let (a', e', same) = to_arrow_array-from_arrow_array t f laws k agg array r in
      let eq : a' ≡ a = cc in
      elim (from_arrow_array-cases t f laws k agg array r) [
        | inl (n, nulls) ↦
            let eq' : null_encoded array ≡ a = cc in
            (subst (IsExact t f) eq' (null_encoded-IsExact array), rw (← eq) same)
        | inr (low, high, n, hl, hh, lo, hi) ↦
            let eq' : encoded t f low high array ≡ a = cc in
            (subst (IsExact t f) eq' (encoded-IsExact low high array hl hh r lo hi), rw (← eq) same)
      ]

pub length-map_values : (g : ℕ → ℕ) (slots : List Slot) → length (map_values g slots) ≡ length slots
length-map_values g [] = refl
length-map_values g ((valid, v) ∷ slots) = ap suc (length-map_values g slots)

at_policy :
    (t : PrimitiveType) (f : BitPacking) (a : LiquidPrimitiveArray) (range : ℕ × ℕ) (bw : ℕ)
    (policy : IntegerSqueezePolicy) (h : Hybrid)
    → elim policy [
      | IntegerSqueezePolicy.clamp ↦ some (clamped (clamp_offsets t f a range bw))
      | IntegerSqueezePolicy.quantize ↦ some (bucketed (quantize_offsets t f a range bw))
    ]
      ≡ some h
    → (h ≡ clamped (clamp_offsets t f a range bw))
      ⊎ (h ≡ bucketed (quantize_offsets t f a range bw))
at_policy t f a range bw IntegerSqueezePolicy.clamp h e = inl cc
at_policy t f a range bw IntegerSqueezePolicy.quantize h e = inr cc

-- A squeezed array is that of its policy, at half the bit width.
pub squeeze_at-eq_some :
    (t : PrimitiveType) (f : BitPacking) (a : LiquidPrimitiveArray) (range : ℕ × ℕ) (bw : Option ℕ)
    (policy : IntegerSqueezePolicy) (h : Hybrid)
    → squeeze_at t f a range bw policy ≡ some h
    → (w : ℕ) × (bw ≡ some w)
      × (8 ≤ w)
      × ((h ≡ clamped (clamp_offsets t f a range (max (w / 2) 1)))
          ⊎ (h ≡ bucketed (quantize_offsets t f a range (max (w / 2) 1))))
unfolding squeeze_at
squeeze_at-eq_some t f a range none policy h sq = cc
squeeze_at-eq_some t f a range (some w) policy h sq = elim (Bool-cases (ltb w 8)) [
  | inl small ↦ let sq' : none ≡ some h = rw small at sq in cc
  | inr large ↦
      (w, refl, ground arith, at_policy t f a range (max (w / 2) 1) policy h (rw large at sq))
]
