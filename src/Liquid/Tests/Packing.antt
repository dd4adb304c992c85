-- ===== src/Liquid/Tests/Packing.antt =====
-- A packing that puts a block into its first word, as the digits of one number.
use native.Mathlib.Nat.{
  mod-eq_of_lt, mod-lt, add-mul-mod_self_left, add-mul-div_left, div-eq_of_lt, pow-le-pow_right,
}
use liquid_cache.Prelude.{
  ℕ, zero, suc, ◌+◌, ◌-◌, ◌*◌, ◌/◌, ◌%◌, ◌^◌, ◌≤◌, ◌<◌, ◌≡◌, ◌∙◌, refl, ap, List, [], ◌∷◌, length,
  map, replicate, arith, length-replicate,
}
use liquid_cache.Liquid.{PrimitiveType, bits}
use liquid_cache.Liquid.BitPack.{BitPacking, PacksLosslessly, packed_len, chunk_len}

unfoldable pub encode : ℕ → List ℕ → ℕ
encode w [] = 0
encode w (x ∷ xs) = x % 2 ^ w + 2 ^ w * encode w xs

unfoldable pub decode : ℕ → ℕ → ℕ → List ℕ
decode w zero c = []
decode w (suc n) c = c % 2 ^ w ∷ decode w n (c / 2 ^ w)

decode-encode : (w : ℕ) (xs : List ℕ) → decode w (length xs) (encode w xs) ≡ map (λ x. x % 2 ^ w) xs
unfolding encode decode
decode-encode w [] = refl
decode-encode w (x ∷ xs) =
    let p : 0 < 2 ^ w =
      omega (arith, pow-le-pow_right {n = 2} (omega arith) {i = 0} {j = w} (omega arith)) in
    let lt : x % 2 ^ w < 2 ^ w = mod-lt x p in
    let low = add-mul-mod_self_left (x % 2 ^ w) (2 ^ w) (encode w xs) in
    let high = add-mul-div_left (x % 2 ^ w) (encode w xs) p in
    let digit : (x % 2 ^ w + 2 ^ w * encode w xs) % 2 ^ w ≡ x % 2 ^ w = low ∙ mod-eq_of_lt lt in
    let rest : (x % 2 ^ w + 2 ^ w * encode w xs) / 2 ^ w ≡ encode w xs =
      omega (arith, high, div-eq_of_lt lt) in
    rw (digit, rest) (ap (λ l. x % 2 ^ w ∷ l) (decode-encode w xs))

abbrev first_word : List ℕ → ℕ
first_word [] = 0
first_word (c ∷ words) = c

abbrev pub digits_packing : PrimitiveType → BitPacking
digits_packing t = record {
  unchecked_pack = λ w xs. encode w xs ∷ replicate (packed_len t w - 1) 0;
  unchecked_unpack = λ w words. decode w chunk_len (first_word words);
}

packed_len-pos : (t : PrimitiveType) (w : ℕ) → 1 ≤ w → 1 ≤ packed_len t w
unfolding packed_len bits
packed_len-pos PrimitiveType.int8 w h = omega arith
packed_len-pos t w h = omega arith

pub digits_packing-PacksLosslessly : (t : PrimitiveType) → PacksLosslessly t (digits_packing t)
digits_packing-PacksLosslessly t = record {
  length-pack = λ w xs p q e.
      omega (arith, packed_len-pos t w p, length-replicate {A = ℕ} (packed_len t w - 1) 0);
  unpack-pack = λ w xs p q e. rw (← e) (decode-encode w xs);
}
