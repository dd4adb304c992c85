-- ===== src/Liquid/Hybrid.antt =====
-- src/storage/src/liquid_array/hybrid_primitive_array.rs and the integer part of
-- `LiquidPrimitiveArray::squeeze` (primitive_array.rs): arrays squeezed to half their bit width, by
-- clamping the offsets or by putting them into buckets, and the evaluation of predicates on them.
-- `NeedsBacking` is a result: the squeezed values do not decide the predicate. Conversion of a
-- literal to the native type is the num_traits crate's, the parameter `FromPrimitive`.

pub mod Slots
pub mod Widths
pub mod Predicates
pub mod Squeeze
pub mod Rows
pub mod Access
pub mod Keeps
pub mod Total
pub mod Ends
pub mod Filters
pub mod Answers
use liquid_cache.Prelude.{
  ℕ, ◌+◌, ◌-◌, ◌*◌, ◌/◌, ◌%◌, ◌^◌, ◌<◌, ◌≡◌, Bool, true, false, not, ◌&&◌, Option, none, some, List,
  [], ◌∷◌, ◌==◌, if◌then◌else◌, ltb, leb, max, map,
}
use liquid_cache.Prelude.Int.{ℤ, pos, pos_part, ltb_ℤ, leb_ℤ, ◌+ℤ◌, ◌-ℤ◌}
use liquid_cache.Liquid.{
  PrimitiveType, modulus, is_unsigned, value, add_wrapping, Slot, Operator, eq, not_eq, lt, lt_eq,
  gt, gt_eq, compare,
}
use liquid_cache.Liquid.BitPack.{BitPacking, BitPackedArray, from_primitive, to_primitive}
use liquid_cache.Liquid.Primitive.{LiquidPrimitiveArray, IntegerSqueezePolicy, map_values, logical}

pub record LiquidPrimitiveClampedArray : Type 0 where
  pub squeezed : BitPackedArray
  pub reference_value : ℕ
  pub disk_range : ℕ × ℕ

pub record LiquidPrimitiveQuantizedArray : Type 0 where
  pub quantized : BitPackedArray
  pub reference_value : ℕ
  pub bucket_width : ℕ
  pub disk_range : ℕ × ℕ

pub data Hybrid : Type 0 where
  clamped : LiquidPrimitiveClampedArray → Hybrid
  bucketed : LiquidPrimitiveQuantizedArray → Hybrid

-- `values.iter().copied().max()`, or zero
unfoldable pub max_offset : List Slot → ℕ
max_offset [] = 0
max_offset ((valid, v) ∷ slots) = max v (max_offset slots)

-- `U::<T>::usize_as((1usize << bw) - 1)`
unfoldable pub sentinel_of : PrimitiveType → ℕ → ℕ
sentinel_of t bw = (2 ^ bw - 1) % modulus t

abbrev u64_mod : ℕ
u64_mod = 2 ^ 64

-- `(range_size.div_ceil(bucket_count_u64)).max(1)`, where `range_size` is `saturating_add(1)`
unfoldable pub bucket_width_of : ℕ → ℕ → ℕ
bucket_width_of max_off bucket_count =
    let range_size = if ltb (max_off + 1) u64_mod then max_off + 1 else u64_mod - 1 in
    max ((range_size + (bucket_count - 1)) / bucket_count) 1

unfoldable pub bucket_of : ℕ → ℕ → ℕ → ℕ
bucket_of bucket_width bucket_count v =
    let idx = v / bucket_width in if leb bucket_count idx then bucket_count - 1 else idx

abbrev pub clamp_to : ℕ → ℕ → ℕ
clamp_to sentinel v = if leb sentinel v then sentinel else v

module _ (t : PrimitiveType) (f : BitPacking) where
  -- the `Clamp` arm of `squeeze`, at the bit width `bw`
  unfoldable pub clamp_offsets : LiquidPrimitiveArray → ℕ × ℕ → ℕ → LiquidPrimitiveClampedArray
  unfolding sentinel_of
  clamp_offsets a disk_range bw = record {
    squeezed =
        from_primitive t f
          (map_values (clamp_to (sentinel_of t bw)) (to_primitive t f a.bit_packed)) bw;
    reference_value = a.reference_value;
    disk_range = disk_range;
  }

  -- the `Quantize` arm
  unfoldable pub quantize_offsets : LiquidPrimitiveArray → ℕ × ℕ → ℕ → LiquidPrimitiveQuantizedArray
  unfolding bucket_width_of bucket_of max_offset
  quantize_offsets a disk_range bw =
      let values = to_primitive t f a.bit_packed in
      let bucket_count = 2 ^ bw in
      let width = bucket_width_of (max_offset values) bucket_count in
      record {
        quantized =
            from_primitive t f (map_values (λ v. bucket_of width bucket_count v % modulus t) values)
              bw;
        reference_value = a.reference_value;
        bucket_width = width;
        disk_range = disk_range;
      }

  -- the test on the original bit width, and the choice by the policy
  unfoldable pub squeeze_at :
      LiquidPrimitiveArray → ℕ × ℕ → Option ℕ → IntegerSqueezePolicy → Option Hybrid
  squeeze_at a disk_range none policy = none
  squeeze_at a disk_range (some orig_bw) policy =
      let new_bw = max (orig_bw / 2) 1 in
      if ltb orig_bw 8 then none else elim policy [
        | IntegerSqueezePolicy.clamp ↦ some (clamped (clamp_offsets a disk_range new_bw))
        | IntegerSqueezePolicy.quantize ↦ some (bucketed (quantize_offsets a disk_range new_bw))
      ]

  -- The integer branch of `squeeze`, for an array whose serialized form is at `disk_range`.
  unfoldable pub squeeze_integer : LiquidPrimitiveArray → ℕ × ℕ → Option Hybrid
  unfolding squeeze_at clamp_offsets quantize_offsets
  squeeze_integer a disk_range = squeeze_at a disk_range a.bit_packed.bit_width a.squeeze_policy

-- A `ScalarValue` of an integer, date or timestamp type, null or not, or of another type.
pub data ScalarValue : Type 0 where
  integer : PrimitiveType → Option ℤ → ScalarValue
  other : ScalarValue

-- `FromPrimitive` of one native type: `none` for an integer that the type does not have.
pub record FromPrimitive : Type 0 where
  pub from_int : ℤ → Option ℕ

-- Exactly the integers that the type has are converted.
pub record ConvertsExactly (t : PrimitiveType) (n : FromPrimitive) : Type 0 where
  pub from_int-eq_some : (z : ℤ) (k : ℕ) → n.from_int z ≡ some k → (k < modulus t) × (value t k ≡ z)
  pub from_int-value : (k : ℕ) → k < modulus t → n.from_int (value t k) ≡ some k

unfoldable pub literal_value : FromPrimitive → ScalarValue → Option ℕ
literal_value n (integer s (some z)) = n.from_int z
literal_value n _ = none

-- `Result<Option<BooleanArray>, NeedsBacking>`; a Boolean array is a list of slots as well.
pub data SqueezeResult : Type 0 where
  ok : Option (List (Bool × Bool)) → SqueezeResult
  needs_backing : SqueezeResult

-- `out_vals.push(b)`, before the values that follow
unfoldable pub push : Bool × Bool → SqueezeResult → SqueezeResult
push slot (ok none) = ok none
push slot (ok (some mask)) = ok (some (slot ∷ mask))
push slot needs_backing = needs_backing

-- The loop over the values, with the decision on each of them.
unfoldable pub eval_slots : (ℕ → Option Bool) → List Slot → SqueezeResult
unfolding push
eval_slots decide [] = ok (some [])
eval_slots decide ((false, u) ∷ slots) = push (false, false) (eval_slots decide slots)
eval_slots decide ((true, u) ∷ slots) =
    let rest = eval_slots decide slots in
    elim (decide u) [ none ↦ needs_backing | some b ↦ push (true, b) rest ]

-- The sum of two `i64`, which wraps.
unfoldable pub add_i64 : ℤ → ℤ → ℤ
add_i64 a b =
    let z = a +ℤ b in
    if leb_ℤ (pos (2 ^ 63)) z
    then z -ℤ pos u64_mod
    else if ltb_ℤ z (pos 0 -ℤ pos (2 ^ 63))
    then z +ℤ pos u64_mod
    else z

-- `k < sent_abs` or `k <= sent_abs`, by the operator
unfoldable pub below_sentinel : Operator → ℤ → ℤ → Bool
below_sentinel lt k sent_abs = leb_ℤ k sent_abs
below_sentinel gt_eq k sent_abs = leb_ℤ k sent_abs
below_sentinel op k sent_abs = ltb_ℤ k sent_abs

unfoldable pub resolves_on_sentinel : PrimitiveType → Operator → ℕ → ℕ → ℕ → Bool
unfolding below_sentinel add_i64
resolves_on_sentinel t op ref sentinel k =
    if is_unsigned t
    then below_sentinel op (pos k) (pos ((ref + sentinel) % u64_mod))
    else below_sentinel op (value t k) (add_i64 (value t ref) (pos sentinel))

-- The answer for a value above the literal: also `push_const_for_below` and `greater_side`.
unfoldable pub greater_side : Operator → Bool
greater_side eq = false
greater_side not_eq = true
greater_side lt = false
greater_side lt_eq = false
greater_side gt = true
greater_side gt_eq = true

unfoldable pub less_side : Operator → Bool
less_side eq = false
less_side not_eq = true
less_side lt = true
less_side lt_eq = true
less_side gt = false
less_side gt_eq = false

unfoldable pub on_equal_bucket : Operator → ℕ → ℕ → Option Bool
on_equal_bucket eq r bw = none
on_equal_bucket not_eq r bw = none
on_equal_bucket lt r bw = if r == 0 then some false else none
on_equal_bucket lt_eq r bw = if r + 1 == bw then some true else none
on_equal_bucket gt r bw = if r + 1 == bw then some false else none
on_equal_bucket gt_eq r bw = if r == 0 then some true else none

-- The decision on one value of a clamped array.
unfoldable pub decide_clamped : PrimitiveType → Operator → ℕ → ℕ → ℕ → ℕ → Option Bool
unfolding resolves_on_sentinel greater_side
decide_clamped t op ref sentinel k u =
    if u == sentinel
    then (if resolves_on_sentinel t op ref sentinel k then some (greater_side op) else none)
    else some (compare op (value t (add_wrapping t u ref)) (value t k))

-- `rel_opt`: the offset of the literal from the reference, unless it is below.
unfoldable pub relative : PrimitiveType → ℕ → ℕ → Option ℕ
relative t ref k =
    if is_unsigned t
    then (if ltb k ref then none else some (k - ref))
    else if ltb_ℤ (value t k) (value t ref)
    then none
    else some (pos_part (value t k -ℤ value t ref))

-- The decision on one value of a quantized array.
unfoldable pub decide_quantized : PrimitiveType → Operator → ℕ → ℕ → ℕ → ℕ → Option Bool
unfolding relative less_side greater_side on_equal_bucket
decide_quantized t op ref bucket_width k b = elim (relative t ref k) [
  | none ↦ some (greater_side op)
  | some rel ↦
      let q = rel / bucket_width in
      if ltb b q
      then some (less_side op)
      else if ltb q b
      then some (greater_side op)
      else on_equal_bucket op (rel % bucket_width) bucket_width
]

module _ (t : PrimitiveType) (f : BitPacking) where
  -- The rest of `try_eval_predicate_inner`, with the native literal. A clamped array that is not
  -- squeezed has no bit width: an `expect` fails, and the model gives no mask.
  unfoldable pub eval_clamped : LiquidPrimitiveClampedArray → Operator → ℕ → SqueezeResult
  unfolding eval_slots decide_clamped sentinel_of
  eval_clamped a op k = elim a.squeezed.bit_width [
    | none ↦ needs_backing
    | some bw ↦
        eval_slots (decide_clamped t op a.reference_value (sentinel_of t bw) k)
          (to_primitive t f a.squeezed)
  ]

  unfoldable pub eval_quantized : LiquidPrimitiveQuantizedArray → Operator → ℕ → SqueezeResult
  unfolding eval_slots decide_quantized
  eval_quantized a op k =
      eval_slots (decide_quantized t op a.reference_value a.bucket_width k)
        (to_primitive t f a.quantized)

  unfoldable pub eval_native : Hybrid → Operator → ℕ → SqueezeResult
  unfolding eval_clamped eval_quantized
  eval_native (clamped a) op k = eval_clamped a op k
  eval_native (bucketed a) op k = eval_quantized a op k

  -- `try_eval_predicate_inner` of either array
  unfoldable pub try_eval_predicate_inner :
      FromPrimitive → Hybrid → Operator → ScalarValue → SqueezeResult
  unfolding eval_native literal_value
  try_eval_predicate_inner n h op literal = elim (literal_value n literal) [
    | none ↦ ok none
    | some k ↦ eval_native h op k
  ]
