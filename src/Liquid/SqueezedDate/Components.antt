-- ===== src/Liquid/SqueezedDate/Components.antt =====
-- The components that a squeezed date array holds (Liquid/SqueezedDate.antt).
use native.Mathlib.Nat.{mod-eq_of_lt}
use liquid_cache.Prelude.{
  ℕ, ◌%◌, ◌^◌, ◌≤◌, ◌<◌, ◌⊎◌, ◌≡◌, refl, ap, Bool, true, false, Option, none, some, List, [], ◌∷◌,
  arith, if◌then◌else◌, length, replicate, Bool-cases, inl, inr,
}
use liquid_cache.Prelude.Int.{
  ℤ, pos, negsuc, pos_part, neg_part, ◌+ℤ◌, ◌-ℤ◌, ◌≤ℤ◌, ltb_ℤ, +ℤ_parts, -ℤ_parts, eq_of_parts,
}
use liquid_cache.Liquid.{PrimitiveType, uint32, int32, value, bits, modulus, is_unsigned, Slot}
use liquid_cache.Liquid.BitPack.{
  BitPacking, PacksLosslessly, new_null_array, to_primitive, get_bit_width,
}
use liquid_cache.Liquid.BitPack.RoundTrip.{low_slots, to_primitive-from_primitive}
use liquid_cache.Liquid.BitPack.Widths.{get_bit_width_lem}
use liquid_cache.Liquid.Primitive.{Valids}
use liquid_cache.Liquid.Dates.{Date32Field, saturating_add, i32_max, i32_min}
use liquid_cache.Liquid.SqueezedDate.{
  min_max, component_offsets, squeeze_components, add_components, to_component_date32,
}

-- What an array of integers holds, and the components of what an array holds.
abbrev pub logical_ints : List (Bool × ℤ) → List (Option ℤ)
logical_ints [] = []
logical_ints ((true, v) ∷ slots) = some v ∷ logical_ints slots
logical_ints ((false, v) ∷ slots) = none ∷ logical_ints slots

abbrev pub components : (ℕ → ℤ) → List Slot → List (Option ℤ)
components component [] = []
components component ((true, v) ∷ slots) = some (component v) ∷ components component slots
components component ((false, v) ∷ slots) = none ∷ components component slots

-- Components are far from the ends of 32 bits.
abbrev pub IsSmall : ℤ → Type 0
IsSmall z = (pos_part z < 2 ^ 30) × (neg_part z < 2 ^ 30)

abbrev Low : ℤ → Type 0
Low z = neg_part z < 2 ^ 30

abbrev High : ℤ → Type 0
High z = pos_part z < 2 ^ 30

-- The bounds that the loop finds, and whether it found a value.
record Bounds (component : ℕ → ℤ) (array : List Slot) (low high : ℤ) (r : Bool × ℤ × ℤ)
    : Type 0 where
  low_le : r.1 ≤ℤ low
  le_high : high ≤ℤ r.2
  between : Valids (λ v. (r.1 ≤ℤ component v) × (component v ≤ℤ r.2)) array
  low_small : Low low → Low r.1
  high_small : High high → High r.2

lower :
    (c low : ℤ)
    → let m = if ltb_ℤ c low then c else low in
      (m ≤ℤ low) × (m ≤ℤ c) × (neg_part c < 2 ^ 30 → Low low → Low m)
lower c low = elim (Bool-cases (ltb_ℤ c low)) [
  | inl lt ↦ rw lt (ground arith, omega arith, λ p q. p)
  | inr ge ↦ rw ge (omega arith, ground arith, λ p q. q)
]

upper :
    (c high : ℤ)
    → let m = if ltb_ℤ high c then c else high in
      (high ≤ℤ m) × (c ≤ℤ m) × (pos_part c < 2 ^ 30 → High high → High m)
upper c high = elim (Bool-cases (ltb_ℤ high c)) [
  | inl lt ↦ rw lt (ground arith, omega arith, λ p q. p)
  | inr ge ↦ rw ge (omega arith, ground arith, λ p q. q)
]

min_max-Bounds :
    (component : ℕ → ℤ) (array : List Slot) (found : Bool) (low high : ℤ)
    → Valids (λ v. IsSmall (component v)) array
    → Bounds component array low high (min_max component (found, low, high) array)
unfolding min_max
min_max-Bounds component [] found low high h = record {
  low_le = omega arith;
  le_high = omega arith;
  between = tt;
  low_small = λ l. l;
  high_small = λ l. l;
}
min_max-Bounds component ((false, v) ∷ slots) found low high h =
    let b = min_max-Bounds component slots found low high h in
    record {
      low_le = b.low_le;
      le_high = b.le_high;
      between = b.between;
      low_small = b.low_small;
      high_small = b.high_small;
    }
min_max-Bounds component ((true, v) ∷ slots) found low high h =
    let c = component v in
    let low' = if ltb_ℤ c low then c else low in
    let high' = if ltb_ℤ high c then c else high in
    let b = min_max-Bounds component slots true low' high' h.1 in
    let l = lower c low in
    let u = upper c high in
    let s = h.0 in
    record {
      low_le = omega (arith, b.low_le);
      le_high = omega (arith, b.le_high);
      between = ((omega (arith, b.low_le), omega (arith, b.le_high)), b.between);
      low_small = λ k. b.low_small (l.2 s.1 k);
      high_small = λ k. b.high_small (u.2 s.0 k);
    }

true_not_false : true ≡ false → ⊥
true_not_false e = cc

not_both : (z : ℤ) → (pos_part z ≡ 0) ⊎ (neg_part z ≡ 0)
not_both (pos n) = inr refl
not_both (negsuc n) = inl refl

-- Without a value the array is one of nulls.
no_value :
    (component : ℕ → ℤ) (array : List Slot) (found : Bool) (low high : ℤ)
    → (min_max component (found, low, high) array).0 ≡ false
    → (found ≡ false)
      × (logical_ints (add_components (pos 0) (replicate (length array) (false, 0)))
          ≡ components component array)
unfolding min_max add_components
no_value component [] found low high e = (e, refl)
no_value component ((false, v) ∷ slots) found low high e =
    let r = no_value component slots found low high e in (r.0, ap (λ l. none ∷ l) r.1)
no_value component ((true, v) ∷ slots) found low high e =
    absurd (true_not_false (no_value component slots true _ _ e).0)

int32_small : (o : ℕ) → o < 2 ^ 31 → value int32 o ≡ pos o
unfolding value modulus is_unsigned
int32_small o h = ground arith

-- An offset that fits 31 bits is added to the reference without wrapping or saturating.
restored :
    (c low : ℤ)
    → low ≤ℤ c
    → IsSmall c
    → Low low
    → (pos_part (c -ℤ low) % 2 ^ 32 ≡ pos_part (c -ℤ low))
      × (saturating_add (value int32 (pos_part (c -ℤ low))) low ≡ c)
unfolding saturating_add
restored c low h s l =
    let d = c -ℤ low in
    let parts = -ℤ_parts c low in
    let one_sign = not_both d in
    let small : pos_part d < 2 ^ 31 = omega arith in
    let sum = pos (pos_part d) +ℤ low in
    let sum_parts = +ℤ_parts (pos (pos_part d)) low in
    let sum_eq : sum ≡ c = eq_of_parts sum c (omega arith) in
    (mod-eq_of_lt (omega arith), rw (int32_small (pos_part d) small, sum_eq) (ground arith))

module _ (component : ℕ → ℤ) (low high : ℤ) (l : Low low) (h : High high) where
  abbrev width : ℕ
  width = get_bit_width (pos_part (high -ℤ low))

  offset_range : pos_part (high -ℤ low) < 2 ^ 31
  offset_range = omega (arith, -ℤ_parts high low, not_both (high -ℤ low))

  restored_all :
      (slots : List Slot)
      → Valids (λ v. (low ≤ℤ component v) × (component v ≤ℤ high)) slots
      → Valids (λ v. IsSmall (component v)) slots
      → logical_ints (add_components low (low_slots width (component_offsets component low slots)))
        ≡ components component slots
  unfolding add_components component_offsets
  restored_all [] b s = refl
  restored_all ((false, v) ∷ slots) b s = ap (λ r. none ∷ r) (restored_all slots b s)
  restored_all ((true, v) ∷ slots) b s =
      let c = component v in
      let r = restored c low b.0.0 s.0 l in
      let w = get_bit_width_lem (pos_part (high -ℤ low)) (omega (arith, offset_range)) in
      let fits : pos_part (c -ℤ low) % 2 ^ width ≡ pos_part (c -ℤ low) = mod-eq_of_lt (
        omega (
          arith,
          w.1,
          -ℤ_parts c low,
          -ℤ_parts high low,
          not_both (c -ℤ low),
          not_both (high -ℤ low),
          b.0,
        )) in
      rw (r.0, fits, r.1) (ap (λ l. some c ∷ l) (restored_all slots b.1 s.1))

bits_fit : (x : ℕ) → x < 2 ^ 31 → get_bit_width x ≤ bits uint32
unfolding bits
bits_fit x h = (get_bit_width_lem x (omega arith)).2 32 (omega arith) (omega arith)

-- A squeezed array gives the component of every date that is not null, for components that are
-- smaller than 2 ^ 30, as those of all days of 32 bits are.
pub to_component_date32-squeeze_components :
    (f : BitPacking)
    → PacksLosslessly uint32 f
    → (t : PrimitiveType) (field : Date32Field) (component : ℕ → ℤ) (array : List Slot)
    → Valids (λ v. IsSmall (component v)) array
    → logical_ints (to_component_date32 f (squeeze_components f t field component array))
      ≡ components component array
unfolding to_component_date32 squeeze_components to_primitive new_null_array
to_component_date32-squeeze_components f laws t field component array small =
    let found = min_max component (false, i32_max, i32_min) array in
    elim (Bool-cases found.0) [
      | inl has ↦
          let b = min_max-Bounds component array false i32_max i32_min small in
          let low = found.1 in
          let high = found.2 in
          let l : Low low = b.low_small (omega arith) in
          let h : High high = b.high_small (omega arith) in
          let w =
            get_bit_width_lem (pos_part (high -ℤ low))
              (omega (arith, offset_range component low high l h)) in
          let fits : width component low high l h ≤ bits uint32 =
            bits_fit (pos_part (high -ℤ low)) (offset_range component low high l h) in
          rw
            (
              has,
              to_primitive-from_primitive uint32 f laws (width component low high l h) w.0 fits
                  (component_offsets component low array),
            )
            (restored_all component low high l h array b.between small)
      | inr empty ↦ rw empty (no_value component array false i32_max i32_min empty).1
    ]
