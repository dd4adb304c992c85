-- ===== src/Liquid/Natives.antt =====
-- Wrapping arithmetic on the native values of Liquid.antt, and its meaning on integers.
use native.Mathlib.Nat.{mod-eq_of_lt, mod-eq-sub-mod}
use liquid_cache.Prelude.{
  ℕ, ◌+◌, ◌-◌, ◌*◌, ◌%◌, ◌^◌, ◌≤◌, ◌<◌, ◌≡◌, true, false, ltb, ◌==◌, arith, if◌then◌else◌,
}
use liquid_cache.Prelude.Int.{pos, pos_part, neg_part, ◌≤ℤ◌, ◌==ℤ◌}
use liquid_cache.Liquid.{
  PrimitiveType, modulus, bits, is_unsigned, value, add_wrapping, sub_wrapping,
}

-- half of the modulus
unfoldable pub half : PrimitiveType → ℕ
half PrimitiveType.int8 = 128
half PrimitiveType.int16 = 2 ^ 15
half PrimitiveType.int32 = 2 ^ 31
half PrimitiveType.uint8 = 128
half PrimitiveType.uint16 = 2 ^ 15
half PrimitiveType.uint32 = 2 ^ 31
half PrimitiveType.date32 = 2 ^ 31
half _ = 2 ^ 63

pub modulus-half :
    (t : PrimitiveType) → (modulus t ≡ 2 * half t) × (128 ≤ half t) × (half t ≤ 2 ^ 63)
unfolding modulus half
modulus-half PrimitiveType.int8 = omega arith
modulus-half t = omega arith

pub modulus_bound : (t : PrimitiveType) → (modulus t ≤ 2 ^ 64) × (1 ≤ bits t)
unfolding modulus bits
modulus_bound PrimitiveType.int8 = omega arith
modulus_bound t = omega arith

-- A sum or a difference below twice the modulus wraps once or not at all.
pub mod_once : (m x : ℕ) → x < 2 * m → x % m ≡ (if ltb x m then x else x - m)
mod_once m x h = ground (
  arith,
  mod-eq_of_lt {n = x} {m = m},
  mod-eq-sub-mod {n = x} {m = m},
  mod-eq_of_lt {n = x - m} {m = m},
)

pub sub_wrapping_cases :
    (t : PrimitiveType) (a b : ℕ)
    → a < modulus t
    → b < modulus t
    → sub_wrapping t a b ≡ (if ltb a b then a + modulus t - b else a - b)
unfolding sub_wrapping
sub_wrapping_cases t a b h k = ground (arith, mod_once (modulus t) (a + modulus t - b))

pub add_wrapping_cases :
    (t : PrimitiveType) (a b : ℕ)
    → a < modulus t
    → b < modulus t
    → add_wrapping t a b ≡ (if ltb (a + b) (modulus t) then a + b else a + b - modulus t)
unfolding add_wrapping
add_wrapping_cases t a b h k = ground (arith, mod_once (modulus t) (a + b))

-- The offset of a value from a smaller one, and back.
module _ (t : PrimitiveType) (v r : ℕ) (hv : v < modulus t) (hr : r < modulus t) where
  pub sub_wrapping-lt : sub_wrapping t v r < modulus t
  sub_wrapping-lt = ground (arith, sub_wrapping_cases t v r)

  pub add_wrapping-sub_wrapping : add_wrapping t (sub_wrapping t v r) r ≡ v
  add_wrapping-sub_wrapping = ground (
    arith,
    sub_wrapping_cases t v r,
    add_wrapping_cases t (sub_wrapping t v r) r,
    sub_wrapping-lt,
  )

  pub value-sub_wrapping :
      value t r ≤ℤ value t v
      → pos_part (value t r) + neg_part (value t v) + sub_wrapping t v r
        ≡ pos_part (value t v) + neg_part (value t r)
  unfolding value
  value-sub_wrapping h = ground (arith, sub_wrapping_cases t v r, modulus-half t)

pub value_inj :
    (t : PrimitiveType) (a b : ℕ)
    → a < modulus t
    → b < modulus t
    → (value t a ==ℤ value t b) ≡ (a == b)
unfolding value
value_inj t a b h k = ground (arith, modulus-half t)

-- The range of a signed type, and of an unsigned one.
pub value_signed :
    (t : PrimitiveType) (p : ℕ)
    → p < modulus t
    → is_unsigned t ≡ false
    → (pos_part (value t p) < half t) × (neg_part (value t p) ≤ half t)
unfolding value
value_signed t p h e = ground (arith, modulus-half t)

pub value_unsigned : (t : PrimitiveType) (p : ℕ) → is_unsigned t ≡ true → value t p ≡ pos p
unfolding value
value_unsigned t p e = rw e
