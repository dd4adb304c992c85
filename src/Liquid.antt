-- ===== src/Liquid.antt =====
-- The integer types of src/storage/src/liquid_array/primitive_array.rs and mod.rs. A native value
-- is its bit pattern, a number below 2 ^ bits, so the cast to the unsigned type (`as_()`) leaves
-- it as it is; `value` is the integer that it stands for. An array is the list of its slots: a bit
-- that is false for a null, and the stored value, which a null has too. An array without a null
-- buffer is one whose bits are all true, for which the source writes the same loops without the
-- test. The comparison operators are those of `Operator` in mod.rs.
pub mod Natives
pub mod BitPack
pub mod Primitive
pub mod Hybrid
pub mod Delta
pub mod Dates
pub mod SqueezedDate
mod Tests
use liquid_cache.Prelude.{
  ℕ, ◌+◌, ◌-◌, ◌*◌, ◌%◌, ◌^◌, Bool, true, false, not, Option, none, some, List, ltb, ◌==◌,
  if◌then◌else◌,
}
use liquid_cache.Prelude.Int.{ℤ, pos, negsuc, ltb_ℤ, leb_ℤ, ◌==ℤ◌}

-- the types of `impl_has_unsigned_type!`
pub data PrimitiveType : Type 0 where
  int8 int16 int32 int64 uint8 uint16 uint32 uint64 date32 date64 : PrimitiveType
  timestamp_second timestamp_millisecond timestamp_microsecond timestamp_nanosecond : PrimitiveType

-- `size_of::<T::Native>() * 8`, which is that of the unsigned type too
unfoldable pub bits : PrimitiveType → ℕ
bits int8 = 8
bits int16 = 16
bits int32 = 32
bits uint8 = 8
bits uint16 = 16
bits uint32 = 32
bits date32 = 32
bits _ = 64

unfoldable pub modulus : PrimitiveType → ℕ
unfolding bits
modulus t = 2 ^ bits t

-- `PrimitiveKind::IS_UNSIGNED`
unfoldable pub is_unsigned : PrimitiveType → Bool
is_unsigned uint8 = true
is_unsigned uint16 = true
is_unsigned uint32 = true
is_unsigned uint64 = true
is_unsigned _ = false

-- The integer that a bit pattern stands for, in two's complement where the type is signed.
unfoldable pub value : PrimitiveType → ℕ → ℤ
value t p =
    if is_unsigned t
    then pos p
    else if ltb (2 * p) (modulus t)
    then pos p
    else negsuc (modulus t - 1 - p)

unfoldable pub add_wrapping : PrimitiveType → ℕ → ℕ → ℕ
add_wrapping t a b = (a + b) % modulus t

unfoldable pub sub_wrapping : PrimitiveType → ℕ → ℕ → ℕ
sub_wrapping t a b = (a + modulus t - b) % modulus t

abbrev pub Slot : Type 0
Slot = Bool × ℕ

pub data Operator : Type 0 where
  eq not_eq lt lt_eq gt gt_eq : Operator

-- The Rust comparison that an operator stands for, on integers.
unfoldable pub compare : Operator → ℤ → ℤ → Bool
compare eq a b = a ==ℤ b
compare not_eq a b = not (a ==ℤ b)
compare lt a b = ltb_ℤ a b
compare lt_eq a b = leb_ℤ a b
compare gt a b = ltb_ℤ b a
compare gt_eq a b = leb_ℤ b a
