-- ===== src/Liquid/Tests/Integers.antt =====
-- The theorems on integer arrays at concrete ones.
use liquid_cache.Prelude.{
  ℕ, ◌<◌, ◌≤◌, ◌≡◌, ◌≢◌, refl, Bool, true, false, Option, some, List, [], ◌∷◌, arith, ◌^◌, ◌-◌,
}
use liquid_cache.Prelude.Int.{pos}
use liquid_cache.Liquid.{
  int8, uint8, uint16, modulus, bits, is_unsigned, value, Slot, lt, add_wrapping, sub_wrapping,
}
use liquid_cache.Liquid.Natives.{half, modulus-half}
use liquid_cache.Liquid.BitPack.{
  to_primitive, from_primitive, get_bit_width, leading_zeros, pack_values, unpack_values,
  for_each_chunk, last_chunk, packed_len,
}
use liquid_cache.Liquid.BitPack.RoundTrip.{low_slots, to_primitive-from_primitive}
use liquid_cache.Liquid.BitPack.Widths.{get_bit_width_lem}
use liquid_cache.Liquid.Primitive.{
  LiquidPrimitiveArray, IntegerSqueezePolicy, from_arrow_array, to_arrow_array, set_squeeze_policy,
  logical, InRange,
}
use liquid_cache.Liquid.Primitive.RoundTrip.{to_arrow_array-from_arrow_array}
use liquid_cache.Liquid.Hybrid.{
  Hybrid, bucketed, squeeze_integer, quantize_offsets, try_eval_predicate_inner, eval_native,
  eval_quantized, eval_slots, integer, literal_value, decide_quantized, max_offset, bucket_width_of,
  bucket_of, relative, less_side, greater_side, push,
}
use liquid_cache.Liquid.Hybrid.Answers.{filter_lem}
use liquid_cache.Liquid.Hybrid.Access.{keep, try_eval_predicate, filter, filter_inner}
use liquid_cache.Liquid.Delta
use liquid_cache.Liquid.Delta.RoundTrip.{to_arrow_array-from_arrow_array_signed}
use liquid_cache.Liquid.Delta.Unsigned.{to_arrow_array_falls}
use liquid_cache.Liquid.Tests.Packing.{
  digits_packing, digits_packing-PacksLosslessly, encode, decode,
}
use liquid_cache.Liquid.Tests.Kernels.{
  compute, compute-Computes, aggregates, aggregates-Aggregating, best, conversion,
  conversion-ConvertsExactly, convert,
}

get_bit_width_lem_example :
    (1 ≤ get_bit_width 700)
    × (700 < 2 ^ get_bit_width 700)
    × ((w : ℕ) → 1 ≤ w → 700 < 2 ^ w → get_bit_width 700 ≤ w)
get_bit_width_lem_example = get_bit_width_lem 700 (omega arith)

-- -6, a null and 5, as 8-bit patterns
abbrev bytes : List Slot
bytes = (true, 250) ∷ (false, 7) ∷ (true, 5) ∷ []

bytes-InRange : InRange int8 bytes
unfolding modulus bits
bytes-InRange = omega arith

int8_bits : 3 ≤ bits int8
unfolding bits
int8_bits = omega arith

int8_signed : is_unsigned int8 ≡ false
unfolding is_unsigned
int8_signed = refl

to_primitive-from_primitive_example :
    to_primitive int8 (digits_packing int8) (from_primitive int8 (digits_packing int8) bytes 3)
    ≡ low_slots 3 bytes
to_primitive-from_primitive_example =
    to_primitive-from_primitive int8 (digits_packing int8) (digits_packing-PacksLosslessly int8) 3
      (omega arith) int8_bits bytes

to_arrow_array-from_arrow_array_example :
    (a : LiquidPrimitiveArray) × (from_arrow_array int8
        (digits_packing int8)
        (aggregates int8)
        bytes
      ≡ some a)
    × (logical (to_arrow_array int8 (digits_packing int8) a) ≡ logical bytes)
to_arrow_array-from_arrow_array_example =
    to_arrow_array-from_arrow_array int8 (digits_packing int8) (digits_packing-PacksLosslessly int8)
      (aggregates int8) (aggregates-Aggregating int8) bytes bytes-InRange

to_arrow_array-from_arrow_array_signed_example :
    (out : List Slot) × (Delta.to_arrow_array int8
        (conversion int8)
        (digits_packing int8)
        (Delta.from_arrow_array int8 (digits_packing int8) bytes)
      ≡ some out)
    × (logical out ≡ logical bytes)
to_arrow_array-from_arrow_array_signed_example =
    to_arrow_array-from_arrow_array_signed int8 int8_signed (conversion int8)
      (conversion-ConvertsExactly int8) (digits_packing int8) (digits_packing-PacksLosslessly int8)
      bytes bytes-InRange

-- Offsets of 700, a null, 0 and 100 from 1000, of 10 bits.
abbrev words : List Slot
words = (true, 1700) ∷ (false, 7) ∷ (true, 1000) ∷ (true, 1010) ∷ []

words-InRange : InRange uint16 words
unfolding modulus bits
words-InRange = omega arith

abbrev encoded : LiquidPrimitiveArray
encoded = record {
  bit_packed =
      from_primitive uint16 (digits_packing uint16)
        ((true, 700) ∷ (false, 64543) ∷ (true, 0) ∷ (true, 10) ∷ []) 10;
  reference_value = 1000;
  squeeze_policy = IntegerSqueezePolicy.quantize;
}

words-encoded :
    from_arrow_array uint16 (digits_packing uint16) (aggregates uint16) words ≡ some encoded
unfolding from_arrow_array best get_bit_width leading_zeros sub_wrapping modulus bits value
    is_unsigned
words-encoded = refl

abbrev policy : IntegerSqueezePolicy
policy = IntegerSqueezePolicy.quantize

abbrev squeezed : Hybrid
squeezed =
    bucketed (
      quantize_offsets uint16 (digits_packing uint16) (set_squeeze_policy encoded policy) (0, 64) 5)

words_squeezed :
    squeeze_integer uint16 (digits_packing uint16) (set_squeeze_policy encoded policy) (0, 64)
    ≡ some squeezed
unfolding squeeze_integer set_squeeze_policy from_primitive
words_squeezed = refl

abbrev some_rows : List Bool
some_rows = true ∷ true ∷ false ∷ true ∷ []

abbrev answers : List (Bool × Bool)
answers = (true, false) ∷ (false, false) ∷ (true, true) ∷ []

abbrev ask : Option (Option (List (Bool × Bool)))
ask =
    try_eval_predicate uint16 (digits_packing uint16) (compute uint16) (conversion uint16) squeezed
      words lt (integer uint16 (some (pos 1350))) some_rows

-- Values below 1350: decided by the buckets alone.
words_answers : ask ≡ some (some answers)
unfolding try_eval_predicate filter_inner try_eval_predicate_inner eval_native eval_quantized
    eval_slots decide_quantized set_squeeze_policy quantize_offsets from_primitive to_primitive
    pack_values unpack_values encode decode for_each_chunk last_chunk packed_len bits modulus
    max_offset bucket_width_of bucket_of literal_value convert is_unsigned value relative less_side
    greater_side push
words_answers = refl

words_filtered :
    filter uint16 (digits_packing uint16) (compute uint16) squeezed words some_rows
    ≡ some ((true, 1700) ∷ (false, 7) ∷ (true, 1010) ∷ [])
unfolding filter
words_filtered = refl

filter_lem_example :
    (out : List Slot) × (filter uint16
        (digits_packing uint16)
        (compute uint16)
        squeezed
        words
        some_rows
      ≡ some out)
    × (logical out ≡ keep some_rows (logical words))
filter_lem_example =
    filter_lem uint16 (digits_packing uint16) (digits_packing-PacksLosslessly uint16)
      (aggregates uint16) (aggregates-Aggregating uint16) (conversion uint16)
      (conversion-ConvertsExactly uint16) (compute uint16) (compute-Computes uint16) words
      words-InRange encoded words-encoded policy (0, 64) squeezed words_squeezed words refl
      some_rows (omega arith)

-- 7 and then 5 come back as 7 and 133.
abbrev falling : List Slot
falling = (true, 7) ∷ (true, 5) ∷ []

abbrev decoded : List Slot
decoded = (true, 7) ∷ (true, 133) ∷ []

uint8_unsigned : is_unsigned uint8 ≡ true
unfolding is_unsigned
uint8_unsigned = refl

seven_in_range : 7 < modulus uint8
unfolding modulus bits
seven_in_range = omega arith

near : 7 - 5 ≤ half uint8
near = omega (arith, modulus-half uint8)

falling-decoded :
    Delta.to_arrow_array uint8
      (conversion uint8)
      (digits_packing uint8)
      (Delta.from_arrow_array uint8 (digits_packing uint8) falling)
    ≡ some decoded
unfolding Delta.to_arrow_array Delta.from_arrow_array Delta.reconstruct Delta.apply_deltas
    Delta.push_value Delta.unzigzag Delta.push_anchor Delta.push_deltas Delta.delta_of Delta.zigzag
    Delta.as_i64 Delta.max_value Delta.is_all_null from_primitive to_primitive pack_values
    unpack_values for_each_chunk last_chunk packed_len encode decode get_bit_width leading_zeros
    bits modulus is_unsigned value convert sub_wrapping add_wrapping
falling-decoded = refl

to_arrow_array_falls_example : logical decoded ≢ logical falling
to_arrow_array_falls_example =
    to_arrow_array_falls uint8 uint8_unsigned 7 5 seven_in_range (omega arith) near
      (digits_packing uint8) (digits_packing-PacksLosslessly uint8) (conversion uint8)
      (conversion-ConvertsExactly uint8) [] decoded falling-decoded
