-- ===== src/Liquid/Primitive/Offsets.antt =====
-- The offsets that `LiquidPrimitiveArray::from_arrow_array` packs (Liquid/Primitive.antt).
use mathlib.Core.Path.{subst}
use native.Mathlib.Nat.{mod-eq_of_lt, pow-le-pow_right}
use liquid_cache.Prelude.{
  ℕ, ◌+◌, ◌-◌, ◌%◌, ◌^◌, ◌≤◌, ◌<◌, ◌≡◌, refl, sym, ap, true, false, none, some, List, [], ◌∷◌, ◌==◌,
  inl, inr, arith, length, replicate, Bool-cases, if◌then◌else◌,
}
use liquid_cache.Prelude.Int.{◌≤ℤ◌}
use liquid_cache.Liquid.{PrimitiveType, modulus, bits, value, add_wrapping, sub_wrapping, Slot}
use liquid_cache.Liquid.Natives.{
  sub_wrapping-lt, add_wrapping-sub_wrapping, value-sub_wrapping, modulus_bound, sub_wrapping_cases,
  add_wrapping_cases, modulus-half,
}
use liquid_cache.Liquid.BitPack.{get_bit_width}
use liquid_cache.Liquid.BitPack.RoundTrip.{low_slots}
use liquid_cache.Liquid.BitPack.Widths.{get_bit_width_lem}
use liquid_cache.Liquid.Primitive.{Valids, HasValid, map_values, logical, InRange}

pub Valids_map :
    {P Q : ℕ → Type 0}
    → ((v : ℕ) → P v → Q v)
    → (slots : List Slot) → Valids P slots
    → Valids Q slots
Valids_map g [] h = tt
Valids_map g ((true, v) ∷ slots) h = (g v h.0, Valids_map g slots h.1)
Valids_map g ((false, v) ∷ slots) h = Valids_map g slots h

-- A value that is not null is a bit pattern, and satisfies what all such values do.
pub HasValid-lt :
    (t : PrimitiveType) (m : ℕ) (slots : List Slot)
    → InRange t slots
    → HasValid m slots
    → m < modulus t
HasValid-lt t m [] r h = elim h [ ]
HasValid-lt t m ((true, v) ∷ slots) r (inl e) = omega arith
HasValid-lt t m ((true, v) ∷ slots) r (inr h) = HasValid-lt t m slots r.1 h
HasValid-lt t m ((false, v) ∷ slots) r h = HasValid-lt t m slots r.1 h

pub HasValid-holds :
    (P : ℕ → Type 0) (m : ℕ) (slots : List Slot) → Valids P slots → HasValid m slots → P m
HasValid-holds P m [] r h = elim h [ ]
HasValid-holds P m ((true, v) ∷ slots) r (inl e) = subst P (sym e) r.0
HasValid-holds P m ((true, v) ∷ slots) r (inr h) = HasValid-holds P m slots r.1 h
HasValid-holds P m ((false, v) ∷ slots) r h = HasValid-holds P m slots r h

pub all_null :
    (slots : List Slot)
    → Valids (λ v. ⊥) slots
    → logical (replicate (length slots) (false, 0)) ≡ logical slots
all_null [] h = refl
all_null ((true, v) ∷ slots) h = absurd h.0
all_null ((false, v) ∷ slots) h = ap (λ l. none ∷ l) (all_null slots h)

-- An offset of 0 changes nothing, so the two branches on it are one.
sub_zero :
    (t : PrimitiveType) (slots : List Slot)
    → InRange t slots
    → map_values (λ v. sub_wrapping t v 0) slots ≡ slots
unfolding sub_wrapping
sub_zero t [] r = refl
sub_zero t ((valid, v) ∷ slots) r =
    let e : (v + modulus t - 0) % modulus t ≡ v =
      ground (arith, sub_wrapping_cases t v 0 r.0, modulus-half t) in
    rw (e, sub_zero t slots r.1)

pub add_zero :
    (t : PrimitiveType) (slots : List Slot)
    → InRange t slots
    → map_values (λ v. add_wrapping t v 0) slots ≡ slots
unfolding add_wrapping
add_zero t [] r = refl
add_zero t ((valid, v) ∷ slots) r =
    let e : (v + 0) % modulus t ≡ v =
      ground (arith, add_wrapping_cases t v 0 r.0, modulus-half t) in
    rw (e, add_zero t slots r.1)

pub offsets_values :
    (t : PrimitiveType) (low : ℕ) (array : List Slot)
    → InRange t array
    → (if low == 0 then array else map_values (λ v. sub_wrapping t v low) array)
      ≡ map_values (λ v. sub_wrapping t v low) array
offsets_values t low array r = elim (Bool-cases (low == 0)) [
  | inl z ↦ let e : low ≡ 0 = ground arith in rw e (sym (sub_zero t array r))
  | inr nz ↦ rw nz
]

pub restored_values :
    (t : PrimitiveType) (low : ℕ) (array : List Slot)
    → InRange t array
    → (if low == 0 then array else map_values (λ v. add_wrapping t v low) array)
      ≡ map_values (λ v. add_wrapping t v low) array
restored_values t low array r = elim (Bool-cases (low == 0)) [
  | inl z ↦ let e : low ≡ 0 = ground arith in rw e (sym (add_zero t array r))
  | inr nz ↦ rw nz
]

pub low_slots-InRange :
    (t : PrimitiveType) (w : ℕ) (slots : List Slot) → w ≤ bits t → InRange t (low_slots w slots)
unfolding modulus
low_slots-InRange t w [] h = tt
low_slots-InRange t w ((valid, v) ∷ slots) h = (
  omega (
    arith,
    pow-le-pow_right {n = 2} (omega arith) {i = w} {j = bits t} h,
    pow-le-pow_right {n = 2} (omega arith) {i = 0} {j = w} (omega arith),
  ),
  low_slots-InRange t w slots h,
)

module _ (t : PrimitiveType) (low high : ℕ) (hl : low < modulus t) (hh : high < modulus t) where
  abbrev pub width : ℕ
  width = get_bit_width (sub_wrapping t high low)

  pub width_lem : (1 ≤ width) × (sub_wrapping t high low < 2 ^ width) × (width ≤ bits t)
  unfolding modulus
  width_lem =
      let lt = sub_wrapping-lt t high low hh hl in
      let b = modulus_bound t in
      let w = get_bit_width_lem (sub_wrapping t high low) (omega arith) in
      (w.0, w.1, w.2 (bits t) b.1 lt)

  -- An offset is at most the largest one, so it fits the width.
  pub offset_fits :
      (v : ℕ)
      → v < modulus t
      → value t low ≤ℤ value t v
      → value t v ≤ℤ value t high
      → sub_wrapping t v low % 2 ^ width ≡ sub_wrapping t v low
  offset_fits v hv a b =
      let fits = width_lem.1 in
      mod-eq_of_lt (
        omega (
          arith,
          value-sub_wrapping t v low hv hl a,
          value-sub_wrapping t high low hh hl (omega arith),
          fits,
        ))

  pub logical_offsets :
      (slots : List Slot)
      → InRange t slots
      → Valids (λ v. value t low ≤ℤ value t v) slots
      → Valids (λ v. value t v ≤ℤ value t high) slots
      → logical (
          map_values
            (λ v. add_wrapping t v low)
            (low_slots width (map_values (λ v. sub_wrapping t v low) slots)))
        ≡ logical slots
  logical_offsets [] r a b = refl
  logical_offsets ((true, v) ∷ slots) r a b =
      rw (offset_fits v r.0 a.0 b.0, add_wrapping-sub_wrapping t v low r.0 hl)
        (ap (λ l. some v ∷ l) (logical_offsets slots r.1 a.1 b.1))
  logical_offsets ((false, v) ∷ slots) r a b = ap (λ l. none ∷ l) (logical_offsets slots r.1 a b)
