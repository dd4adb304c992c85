-- ===== src/Liquid/Delta/RoundTrip.antt =====
-- `LiquidPrimitiveDeltaArray::to_arrow_array` after `from_arrow_array`.
use native.Mathlib.Nat.{mod-eq_of_lt, mod-lt}
use liquid_cache.Prelude.{
  ℕ, suc, ◌^◌, ◌≤◌, ◌<◌, ◌≡◌, refl, ap, Bool, true, false, max, arith, Bool-cases, inl, inr, Option,
  none, some, List, [], ◌∷◌, length, replicate,
}
use liquid_cache.Liquid.{
  PrimitiveType, modulus, bits, is_unsigned, value, add_wrapping, sub_wrapping, Slot,
}
use liquid_cache.Liquid.Natives.{
  modulus-half, modulus_bound, sub_wrapping-lt, sub_wrapping_cases, add_wrapping_cases,
}
use liquid_cache.Liquid.BitPack.{
  BitPacking, PacksLosslessly, new_null_array, from_primitive, to_primitive, get_bit_width,
}
use liquid_cache.Liquid.BitPack.RoundTrip.{low_slots, to_primitive-from_primitive}
use liquid_cache.Liquid.BitPack.Widths.{get_bit_width_lem}
use liquid_cache.Liquid.Primitive.{All, InRange, logical}
use liquid_cache.Liquid.Hybrid.{FromPrimitive, ConvertsExactly}
use liquid_cache.Liquid.Delta.{
  from_arrow_array, to_arrow_array, push_deltas, push_anchor, is_all_null, max_value, push_value,
  apply_deltas, reconstruct, delta_of, unzigzag,
}
use liquid_cache.Liquid.Delta.Zigzag.{unzigzag-delta_of}

low_slots-All : (w : ℕ) (slots : List Slot) → All (λ v. v < 2 ^ w) slots → low_slots w slots ≡ slots
low_slots-All w [] h = refl
low_slots-All w ((valid, v) ∷ slots) h = rw (mod-eq_of_lt h.0, low_slots-All w slots h.1)

All-mono : (m k : ℕ) → m ≤ k → (slots : List Slot) → All (λ v. v < m) slots → All (λ v. v < k) slots
All-mono m k h [] a = tt
All-mono m k h ((valid, v) ∷ slots) a = (omega arith, All-mono m k h slots a.1)

max_value-All : (slots : List Slot) → All (λ v. v < suc (max_value slots)) slots
unfolding max_value
max_value-All [] = tt
max_value-All ((valid, v) ∷ slots) = (
  omega arith,
  All-mono (suc (max_value slots)) (suc (max v (max_value slots))) (omega arith) slots
      (max_value-All slots),
)

max_value-lt : (m : ℕ) (slots : List Slot) → 0 < m → All (λ v. v < m) slots → max_value slots < m
unfolding max_value
max_value-lt m [] p h = omega arith
max_value-lt m ((valid, v) ∷ slots) p h = omega (arith, max_value-lt m slots p h.1)

width_fits : (t : PrimitiveType) (x : ℕ) → x < modulus t → get_bit_width x ≤ bits t
unfolding modulus
width_fits t x h = let b = modulus_bound t in (get_bit_width_lem x (omega arith)).2 (bits t) b.1 h

push_deltas-InRange :
    (t : PrimitiveType) (prev : ℕ) (slots : List Slot) → InRange t (push_deltas t prev slots)
unfolding push_deltas delta_of
push_deltas-InRange t prev [] = tt
push_deltas-InRange t prev ((false, v) ∷ slots) =
    (omega (arith, modulus-half t), push_deltas-InRange t prev slots)
push_deltas-InRange t prev ((true, cur) ∷ slots) =
    (mod-lt _ (omega (arith, modulus-half t)), push_deltas-InRange t cur slots)

push_anchor-InRange : (t : PrimitiveType) (slots : List Slot) → InRange t (push_anchor t slots).1
unfolding push_anchor
push_anchor-InRange t [] = tt
push_anchor-InRange t ((false, v) ∷ slots) =
    (omega (arith, modulus-half t), push_anchor-InRange t slots)
push_anchor-InRange t ((true, cur) ∷ slots) =
    (omega (arith, modulus-half t), push_deltas-InRange t cur slots)

-- The codes of an array fit the width of the largest one, so they are unpacked as they were.
pub unpacked :
    (t : PrimitiveType) (f : BitPacking)
    → PacksLosslessly t f
    → (codes : List Slot) → InRange t codes
    → to_primitive t f (from_primitive t f codes (get_bit_width (max_value codes))) ≡ codes
unpacked t f laws codes r =
    let high = max_value-lt (modulus t) codes (omega (arith, modulus-half t)) r in
    let w = get_bit_width_lem (max_value codes) (omega (arith, modulus_bound t)) in
    let width = get_bit_width (max_value codes) in
    let fits : width ≤ bits t = width_fits t (max_value codes) high in
    let small = All-mono (suc (max_value codes)) (2 ^ width) w.1 codes (max_value-All codes) in
    rw (to_primitive-from_primitive t f laws width w.0 fits codes) (low_slots-All width codes small)

pub unpacked_anchor :
    (t : PrimitiveType) (f : BitPacking)
    → PacksLosslessly t f
    → (array : List Slot) → is_all_null array ≡ false
    → (n : FromPrimitive)
    → to_arrow_array t n f (from_arrow_array t f array)
      ≡ reconstruct t n (push_anchor t array).0 (push_anchor t array).1
unfolding to_arrow_array from_arrow_array
unpacked_anchor t f laws array values n =
    rw (values, unpacked t f laws (push_anchor t array).1 (push_anchor-InRange t array))

-- What is reconstructed, when nothing panics.
abbrev Restores : Option (List Slot) → List Slot → Type 0
Restores r slots = (out : List Slot) × (r ≡ some out) × (logical out ≡ logical slots)

push_value-Restores :
    (valid : Bool) (v v' : ℕ) (r : Option (List Slot)) (slots : List Slot)
    → (valid ≡ true → v ≡ v')
    → Restores r slots
    → Restores (push_value (valid, v) r) ((valid, v') ∷ slots)
unfolding push_value
push_value-Restores true v v' r slots e (out, eq, same) =
    ((true, v) ∷ out, rw (eq, push_value), rw (e refl) (ap (λ l. some v' ∷ l) same))
push_value-Restores false v v' r slots e (out, eq, same) =
    ((false, v) ∷ out, rw (eq, push_value), ap (λ l. none ∷ l) same)

module _ (t : PrimitiveType) (signed : is_unsigned t ≡ false) (n : FromPrimitive)
    (conv : ConvertsExactly t n) where
  apply_deltas-push_deltas :
      (prev : ℕ) (slots : List Slot)
      → prev < modulus t
      → InRange t slots
      → Restores (apply_deltas t n prev (push_deltas t prev slots)) slots
  unfolding apply_deltas push_deltas
  apply_deltas-push_deltas prev [] h r = ([], refl, refl)
  apply_deltas-push_deltas prev ((false, v) ∷ slots) h r =
      push_value-Restores false 0 v (apply_deltas t n prev (push_deltas t prev slots)) slots
        (λ e. cc) (apply_deltas-push_deltas prev slots h r.1)
  apply_deltas-push_deltas prev ((true, cur) ∷ slots) h r =
      let d = sub_wrapping t cur prev in
      let code : unzigzag (delta_of t prev cur) ≡ value t d =
        (unzigzag-delta_of t prev cur signed h r.0).0 in
      let lt = sub_wrapping-lt t cur prev r.0 h in
      let back : add_wrapping t prev d ≡ cur =
        ground (arith, sub_wrapping_cases t cur prev, add_wrapping_cases t prev d) in
      rw (code, conv.from_int-value d lt, back)
        (push_value-Restores true cur cur (apply_deltas t n cur (push_deltas t cur slots)) slots
          (λ e. refl) (apply_deltas-push_deltas cur slots r.0 r.1))

  reconstruct-push_anchor :
      (slots : List Slot)
      → InRange t slots
      → Restores (reconstruct t n (push_anchor t slots).0 (push_anchor t slots).1) slots
  unfolding reconstruct push_anchor
  reconstruct-push_anchor [] r = ([], refl, refl)
  reconstruct-push_anchor ((false, v) ∷ slots) r =
      push_value-Restores false 0 v
        (reconstruct t n (push_anchor t slots).0 (push_anchor t slots).1) slots (λ e. cc)
        (reconstruct-push_anchor slots r.1)
  reconstruct-push_anchor ((true, cur) ∷ slots) r =
      push_value-Restores true cur cur (apply_deltas t n cur (push_deltas t cur slots)) slots
        (λ e. refl) (apply_deltas-push_deltas cur slots r.0 r.1)

  all_null-Restores :
      (slots : List Slot)
      → is_all_null slots ≡ true
      → Restores (reconstruct t n 0 (replicate (length slots) (false, 0))) slots
  unfolding is_all_null reconstruct
  all_null-Restores [] e = ([], refl, refl)
  all_null-Restores ((true, v) ∷ slots) e = cc
  all_null-Restores ((false, v) ∷ slots) e =
      push_value-Restores false 0 v (reconstruct t n 0 (replicate (length slots) (false, 0))) slots
        (λ e. cc) (all_null-Restores slots e)

  -- For a signed type, a date or a timestamp, decoding a delta array does not panic and gives the
  -- nulls and the values that were encoded, also where differences wrap.
  pub to_arrow_array-from_arrow_array_signed :
      (f : BitPacking)
      → PacksLosslessly t f
      → (array : List Slot) → InRange t array
      → (out : List Slot) × (to_arrow_array t n f (from_arrow_array t f array) ≡ some out)
        × (logical out ≡ logical array)
  unfolding to_arrow_array from_arrow_array to_primitive new_null_array
  to_arrow_array-from_arrow_array_signed f laws array r = elim (Bool-cases (is_all_null array)) [
    | inl nulls ↦ rw nulls (all_null-Restores array nulls)
    | inr values ↦ rw (unpacked_anchor t f laws array values n) (reconstruct-push_anchor array r)
  ]
