-- ===== src/Liquid/Delta/Zigzag.antt =====
-- The zigzag codes of Liquid/Delta.antt: which differences they keep.
use native.Mathlib.Nat.{mod-eq_of_lt}
use liquid_cache.Prelude.{ℕ, ◌*◌, ◌%◌, ◌^◌, ◌≤◌, ◌<◌, ◌≡◌, false, arith}
use liquid_cache.Prelude.Int.{ℤ, pos, negsuc, pos_part, neg_part}
use liquid_cache.Liquid.{PrimitiveType, modulus, is_unsigned, value, sub_wrapping}
use liquid_cache.Liquid.Natives.{modulus-half, half, value_signed, sub_wrapping-lt}
use liquid_cache.Liquid.Delta.{as_i64, zigzag, unzigzag, delta_of}

-- An integer of 64 bits comes back from its code.
pub unzigzag-zigzag : (d : ℤ) → pos_part d < 2 ^ 63 → neg_part d ≤ 2 ^ 63 → unzigzag (zigzag d) ≡ d
unfolding unzigzag zigzag
unzigzag-zigzag (pos n) h k = ground arith
unzigzag-zigzag (negsuc n) h k = ground arith

zigzag_signed : (d : ℤ) (h : ℕ) → h ≤ 2 ^ 63 → pos_part d < h → neg_part d ≤ h → zigzag d < 2 * h
unfolding zigzag
zigzag_signed (pos n) h b p q = ground arith
zigzag_signed (negsuc n) h b p q = ground arith

-- A signed type keeps every difference, also one that wraps.
pub unzigzag-delta_of :
    (t : PrimitiveType) (prev cur : ℕ)
    → is_unsigned t ≡ false
    → prev < modulus t
    → cur < modulus t
    → (unzigzag (delta_of t prev cur) ≡ value t (sub_wrapping t cur prev))
      × (delta_of t prev cur < modulus t)
unfolding delta_of as_i64
unzigzag-delta_of t prev cur s h k =
    let d = value t (sub_wrapping t cur prev) in
    let r = value_signed t (sub_wrapping t cur prev) (sub_wrapping-lt t cur prev k h) s in
    let m = modulus-half t in
    let z : zigzag d < modulus t = omega (arith, zigzag_signed d (half t) m.2 r.0 r.1) in
    let e : zigzag d % modulus t ≡ zigzag d = mod-eq_of_lt z in
    rw (s, e) (unzigzag-zigzag d (omega arith) (omega arith), z)
