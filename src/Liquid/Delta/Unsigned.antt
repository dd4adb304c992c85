-- ===== src/Liquid/Delta/Unsigned.antt =====
-- Delta arrays of unsigned types (Liquid/Delta.antt) where a value falls.
use liquid_cache.Prelude.{
  ℕ, ◌+◌, ◌-◌, ◌*◌, ◌%◌, ◌^◌, ◌≤◌, ◌<◌, ◌≡◌, ap, sym, ◌∙◌, ◌≢◌, ◌⊎◌, refl, true, false, leb, arith,
  inl, inr, none, some, List, ◌∷◌, Option-cases,
}
use liquid_cache.Prelude.Int.{pos, negsuc}
use liquid_cache.Liquid.{PrimitiveType, modulus, is_unsigned, sub_wrapping, add_wrapping, Slot}
use liquid_cache.Liquid.Natives.{
  modulus-half, half, value_unsigned, sub_wrapping_cases, mod_once, add_wrapping_cases,
}
use liquid_cache.Liquid.Hybrid.{FromPrimitive, ConvertsExactly}
use liquid_cache.Liquid.BitPack.{BitPacking, PacksLosslessly}
use liquid_cache.Liquid.Primitive.{logical}
use liquid_cache.Liquid.Delta.RoundTrip.{unpacked_anchor}
use liquid_cache.Liquid.Delta.{
  from_arrow_array, to_arrow_array, push_anchor, reconstruct, is_all_null, as_i64, zigzag, unzigzag,
  delta_of, apply_deltas, push_deltas, push_value,
}

-- The wrapped difference is the code's halved value where the type is narrower than 64 bits.
unsigned_widths :
    (t : PrimitiveType) → is_unsigned t ≡ true → (modulus t ≤ 2 ^ 32) ⊎ (modulus t ≡ 2 ^ 64)
unfolding is_unsigned modulus
unsigned_widths PrimitiveType.uint8 e = inl (omega arith)
unsigned_widths PrimitiveType.uint16 e = inl (omega arith)
unsigned_widths PrimitiveType.uint32 e = inl (omega arith)
unsigned_widths PrimitiveType.uint64 e = inr refl
unsigned_widths t e = absurd (cc)

module _ (t : PrimitiveType) (unsigned : is_unsigned t ≡ true) (x y : ℕ) (hx : x < modulus t)
    (falls : y < x) (near : x - y ≤ half t) where
  difference : sub_wrapping t y x ≡ y + modulus t - x
  difference = ground (arith, sub_wrapping_cases t y x)

  -- A narrow type loses the top bit of the code.
  narrow : modulus t ≤ 2 ^ 32 → unzigzag (delta_of t x y) ≡ pos (y + modulus t - x - half t)
  unfolding delta_of as_i64 zigzag unzigzag
  narrow h =
      let m = modulus-half t in
      let d = y + modulus t - x in
      let small : leb (2 ^ 63) d ≡ false = ground arith in
      let twice : 2 * d % 2 ^ 64 ≡ 2 * d = omega arith in
      let wrapped : 2 * d % modulus t ≡ 2 * d - modulus t =
        ground (arith, mod_once (modulus t) (2 * d)) in
      rw (difference, unsigned, small, value_unsigned t d unsigned, twice, wrapped) (ground arith)

  -- A wide one has a negative difference.
  wide : modulus t ≡ 2 ^ 64 → (m : ℕ) × (unzigzag (delta_of t x y) ≡ negsuc m)
  unfolding delta_of as_i64 zigzag unzigzag
  wide h =
      let m = modulus-half t in
      let d = y + 2 ^ 64 - x in
      let large : leb (2 ^ 63) d ≡ true = ground arith in
      (2 ^ 64 - 1 - d, rw (difference, unsigned, h, large) (ground arith))

  -- So whatever is decoded, it is not the value.
  wrong_value :
      (n : FromPrimitive)
      → ConvertsExactly t n
      → (k : ℕ) → n.from_int (unzigzag (delta_of t x y)) ≡ some k
      → add_wrapping t x k ≢ y
  wrong_value n conv k e same =
      let (hk, hv) = conv.from_int-eq_some (unzigzag (delta_of t x y)) k e in
      let v = value_unsigned t k unsigned in
      let m = modulus-half t in
      elim (unsigned_widths t unsigned) [
        | inl thin ↦
            let k_eq : pos k ≡ pos (y + modulus t - x - half t) = sym v ∙ hv ∙ narrow thin in
            ground (arith, add_wrapping_cases t x k)
        | inr full ↦ let (j, neg) = wide full in cc
      ]

  -- For an unsigned type, an array that starts with a value and a smaller one, at most half of the
  -- range below it, is not decoded to what was encoded: the decoding panics or gives other values.
  pub to_arrow_array_falls :
      (f : BitPacking)
      → PacksLosslessly t f
      → (n : FromPrimitive) → ConvertsExactly t n
      → (rest out : List Slot)
      → to_arrow_array t n f (from_arrow_array t f ((true, x) ∷ (true, y) ∷ rest)) ≡ some out
      → logical out ≢ logical ((true, x) ∷ (true, y) ∷ rest)
  unfolding push_anchor push_deltas reconstruct apply_deltas push_value is_all_null
  to_arrow_array_falls f laws n conv rest out e same =
      let e' : reconstruct t n x (push_anchor t ((true, x) ∷ (true, y) ∷ rest)).1 ≡ some out =
        sym (unpacked_anchor t f laws ((true, x) ∷ (true, y) ∷ rest) refl n) ∙ e in
      elim (Option-cases (n.from_int (unzigzag (delta_of t x y)))) [
        | inl stop ↦ let e'' : none ≡ some out = rw (stop, apply_deltas) at e' in cc
        | inr (k, go) ↦
            let next = add_wrapping t x k in
            let later = apply_deltas t n next (push_deltas t y rest) in
            let e'' : push_value (true, x) (push_value (true, next) later) ≡ some out =
              rw (go, apply_deltas) at e' in
            elim (Option-cases later) [
              | inl stop ↦ let e3 : none ≡ some out = rw (stop, push_value) at e'' in cc
              | inr (r, r_eq) ↦
                  let e3 : some ((true, x) ∷ (true, next) ∷ r) ≡ some out =
                    rw (r_eq, push_value) at e'' in
                  let out_eq : (true, x) ∷ (true, next) ∷ r ≡ out = cc in
                  let heads : some x ∷ some next ∷ logical r ≡ some x ∷ some y ∷ logical rest =
                    ap logical out_eq ∙ same in
                  wrong_value n conv k go cc
            ]
      ]
