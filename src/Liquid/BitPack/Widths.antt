-- ===== src/Liquid/BitPack/Widths.antt =====
-- `get_bit_width` of src/storage/src/utils/mod.rs.
use native.Mathlib.Nat.{pow-le-pow_right}
use liquid_cache.Prelude.{
  ℕ, zero, suc, ◌+◌, ◌-◌, ◌^◌, ◌≤◌, ◌<◌, ◌≡◌, arith, ◌==◌, ltb, Bool-cases, inl, inr,
}
use liquid_cache.Liquid.BitPack.{leading_zeros, get_bit_width}

leading_zeros-le : (width x : ℕ) → leading_zeros width x ≤ width
unfolding leading_zeros
leading_zeros-le zero x = omega arith
leading_zeros-le (suc width) x = ground (arith, leading_zeros-le width x)

leading_zeros-fits : (width x : ℕ) → x < 2 ^ width → x < 2 ^ (width - leading_zeros width x)
unfolding leading_zeros
leading_zeros-fits zero x h = omega arith
leading_zeros-fits (suc width) x h = elim (Bool-cases (ltb x (2 ^ width))) [
  | inl small ↦ rw (small) (
      let e : suc width - (1 + leading_zeros width x) ≡ width - leading_zeros width x =
        omega arith in
      rw e (leading_zeros-fits width x (ground arith)))
  | inr large ↦ let e : suc width - 0 ≡ suc width = omega arith in rw (large, e) h
]

leading_zeros-least : (width x w : ℕ) → x < 2 ^ w → w ≤ width → width - leading_zeros width x ≤ w
unfolding leading_zeros
leading_zeros-least zero x w h k = omega arith
leading_zeros-least (suc width) x w h k = elim (Bool-cases (ltb x (2 ^ width))) [
  | inl small ↦ elim (Bool-cases (w == suc width)) [
    | inl e ↦ rw small (ground arith)
    | inr ne ↦ rw small (ground (arith, leading_zeros-least width x w h))
  ]
  | inr large ↦ elim (Bool-cases (w == suc width)) [
    | inl e ↦ rw large (ground arith)
    | inr ne ↦
        absurd (
          ground (arith, pow-le-pow_right {n = 2} (omega arith) {i = w} {j = width} (ground arith)))
  ]
]

-- Widths of 0 and below hold no number but 0.
nonzero_width : (x : ℕ) → 0 < x → x < 2 ^ 64 → 1 ≤ 64 - leading_zeros 64 x
nonzero_width x p h = elim (Bool-cases (64 - leading_zeros 64 x == 0)) [
  | inl z ↦
      let none_left : 64 - leading_zeros 64 x ≡ 0 = ground arith in
      let fits : x < 2 ^ (64 - leading_zeros 64 x) = leading_zeros-fits 64 x h in
      let small : x < 1 = rw none_left at fits in absurd (omega arith)
  | inr nz ↦ ground arith
]

-- The bit width of a 64-bit number is the least one, from 1 on, that holds it.
pub get_bit_width_lem :
    (x : ℕ)
    → x < 2 ^ 64
    → (1 ≤ get_bit_width x)
      × (x < 2 ^ get_bit_width x)
      × ((w : ℕ) → 1 ≤ w → x < 2 ^ w → get_bit_width x ≤ w)
unfolding get_bit_width
get_bit_width_lem x h = elim (Bool-cases (x == 0)) [
  | inl z ↦ rw z (omega arith, ground arith, λ w p l. p)
  | inr nz ↦
      let least : (w : ℕ) → x < 2 ^ w → w ≤ 64 → 64 - leading_zeros 64 x ≤ w =
        leading_zeros-least 64 x in
      rw nz (
        nonzero_width x (ground arith) h,
        leading_zeros-fits 64 x h,
        λ w p l. elim (Bool-cases (ltb 64 w)) [
          | inl big ↦ ground (arith, leading_zeros-le 64 x)
          | inr small ↦ least w l (ground arith)
        ],
      )
]
