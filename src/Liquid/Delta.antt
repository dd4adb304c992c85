-- ===== src/Liquid/Delta.antt =====
-- `LiquidPrimitiveDeltaArray` of src/storage/src/liquid_array/primitive_array.rs: the zigzag codes of
-- the differences of neighbouring values. The loops with and without a null buffer are one, and an
-- `unwrap` that fails is `none`.
pub mod Zigzag
pub mod RoundTrip
pub mod Unsigned
use liquid_cache.Prelude.{
  ℕ, ◌+◌, ◌-◌, ◌*◌, ◌/◌, ◌%◌, ◌^◌, Bool, true, false, ◌&&◌, Option, none, some, List, [], ◌∷◌, ◌==◌,
  if◌then◌else◌, ltb, leb, length, max,
}
use liquid_cache.Prelude.Int.{ℤ, pos, negsuc}
use liquid_cache.Liquid.{
  PrimitiveType, modulus, is_unsigned, value, add_wrapping, sub_wrapping, Slot,
}
use liquid_cache.Liquid.BitPack.{
  BitPacking, BitPackedArray, new_null_array, from_primitive, to_primitive, get_bit_width,
}
use liquid_cache.Liquid.Hybrid.{FromPrimitive}

pub record LiquidPrimitiveDeltaArray : Type 0 where
  pub bit_packed : BitPackedArray
  pub reference_value : ℕ

-- `delta.as_()`, from the native type to `i64`
unfoldable pub as_i64 : PrimitiveType → ℕ → ℤ
as_i64 t p = if is_unsigned t && leb (2 ^ 63) p then negsuc (2 ^ 64 - 1 - p) else value t p

-- `((d << 1) ^ (d >> 63)) as u64`: the arithmetic shift gives all zeros or all ones.
unfoldable pub zigzag : ℤ → ℕ
zigzag (pos n) = 2 * n % 2 ^ 64
zigzag (negsuc n) = 2 ^ 64 - 1 - 2 * (2 ^ 64 - 1 - n) % 2 ^ 64

-- `(zigzag >> 1) as i64 ^ -((zigzag & 1) as i64)`
unfoldable pub unzigzag : ℕ → ℤ
unzigzag z = if z % 2 == 0 then pos (z / 2) else negsuc (z / 2)

-- `UnsignedNative::<T>::usize_as(zigzag as usize)`
unfoldable pub delta_of : PrimitiveType → ℕ → ℕ → ℕ
unfolding zigzag as_i64
delta_of t prev cur = zigzag (as_i64 t (sub_wrapping t cur prev)) % modulus t

-- The loop of `from_arrow_array` after the first value that is not null.
unfoldable pub push_deltas : PrimitiveType → ℕ → List Slot → List Slot
unfolding delta_of
push_deltas t prev [] = []
push_deltas t prev ((false, v) ∷ slots) = (false, 0) ∷ push_deltas t prev slots
push_deltas t prev ((true, cur) ∷ slots) = (true, delta_of t prev cur) ∷ push_deltas t cur slots

-- The loop from its start, with the anchor: the first value that is not null.
unfoldable pub push_anchor : PrimitiveType → List Slot → ℕ × List Slot
unfolding push_deltas
push_anchor t [] = (0, [])
push_anchor t ((false, v) ∷ slots) =
    let (anchor, out) = push_anchor t slots in (anchor, (false, 0) ∷ out)
push_anchor t ((true, cur) ∷ slots) = (cur, (true, 0) ∷ push_deltas t cur slots)

-- `arrow_array.null_count() == len`
unfoldable pub is_all_null : List Slot → Bool
is_all_null [] = true
is_all_null ((false, v) ∷ slots) = is_all_null slots
is_all_null ((true, v) ∷ slots) = false

-- `max_value`, which starts at zero: the largest code that was pushed
unfoldable pub max_value : List Slot → ℕ
max_value [] = 0
max_value ((valid, v) ∷ slots) = max v (max_value slots)

module _ (t : PrimitiveType) (f : BitPacking) where
  unfoldable pub from_arrow_array : List Slot → LiquidPrimitiveDeltaArray
  unfolding is_all_null push_anchor max_value
  from_arrow_array array =
      let (anchor, out) = push_anchor t array in
      if is_all_null array
      then record { bit_packed = new_null_array (length array); reference_value = 0 }
      else record {
        bit_packed = from_primitive t f out (get_bit_width (max_value out));
        reference_value = anchor;
      }

-- A value before the values that are reconstructed after it, unless they panic.
unfoldable pub push_value : Slot → Option (List Slot) → Option (List Slot)
push_value slot none = none
push_value slot (some out) = some (slot ∷ out)

module _ (t : PrimitiveType) (n : FromPrimitive) where
  -- The loop of `to_arrow_array` after the first value that is not null.
  unfoldable pub apply_deltas : ℕ → List Slot → Option (List Slot)
  unfolding unzigzag push_value
  apply_deltas current [] = some []
  apply_deltas current ((false, v) ∷ slots) = push_value (false, 0) (apply_deltas current slots)
  apply_deltas current ((true, v) ∷ slots) = elim (n.from_int (unzigzag v)) [
    | none ↦ none
    | some delta ↦
        let next = add_wrapping t current delta in push_value (true, next) (apply_deltas next slots)
  ]

  unfoldable pub reconstruct : ℕ → List Slot → Option (List Slot)
  unfolding apply_deltas
  reconstruct anchor [] = some []
  reconstruct anchor ((false, v) ∷ slots) = push_value (false, 0) (reconstruct anchor slots)
  reconstruct anchor ((true, v) ∷ slots) = push_value (true, anchor) (apply_deltas anchor slots)

  unfoldable pub to_arrow_array : BitPacking → LiquidPrimitiveDeltaArray → Option (List Slot)
  unfolding reconstruct
  to_arrow_array f a = reconstruct a.reference_value (to_primitive t f a.bit_packed)
