-- ===== src/Liquid/Hybrid/Predicates.antt =====
-- Predicates on squeezed arrays (Liquid/Hybrid.antt) against the same predicates on the arrays that
-- were squeezed.
use liquid_cache.Prelude.{
  ℕ, ◌-◌, ◌/◌, ◌%◌, ◌^◌, ◌≤◌, ◌<◌, ◌≡◌, refl, sym, ap, ◌∙◌, Bool, true, false, Option, none, some,
  List, [], ◌∷◌, arith, Option-cases, inl, inr,
}
use liquid_cache.Prelude.Int.{ℤ}
use liquid_cache.Liquid.{PrimitiveType, modulus, bits, value, add_wrapping, Slot, Operator, compare}
use liquid_cache.Liquid.Natives.{modulus_bound}
use liquid_cache.Liquid.BitPack.{BitPacking, PacksLosslessly, to_primitive}
use liquid_cache.Liquid.Primitive.{
  LiquidPrimitiveArray, to_arrow_array, map_values, logical, Valids, All, InRange,
}
use liquid_cache.Liquid.Primitive.Offsets.{restored_values, Valids_map}
use liquid_cache.Liquid.Hybrid.{
  eval_slots, push, decide_clamped, decide_quantized, FromPrimitive, ConvertsExactly, SqueezeResult,
  ok, needs_backing, bucket_width_of, bucket_of, max_offset, clamp_to,
}
use liquid_cache.Liquid.Hybrid.Access.{logical_mask, compare_all, keep}
use liquid_cache.Liquid.Hybrid.Keeps.{keep-All, keep_Valids, keep-map_values, keep-logical}
use liquid_cache.Liquid.Hybrid.Slots.{IsOffset, decide_clamped_sound, decide_quantized_sound}
use liquid_cache.Liquid.Hybrid.Widths.{max_offset-All, max_offset-lt, bucket_of-eq, bucket_in_range}

-- The offsets of an encoded array: no addition of the reference wraps.
pub record IsExact (t : PrimitiveType) (f : BitPacking) (a : LiquidPrimitiveArray) : Type 0 where
  pub reference_in_range : a.reference_value < modulus t
  pub offsets_in_range : InRange t (to_primitive t f a.bit_packed)
  pub offsets : Valids (IsOffset t a.reference_value) (to_primitive t f a.bit_packed)
  pub width_in_range : (w : ℕ) → a.bit_packed.bit_width ≡ some w → w ≤ bits t

push-eq_ok :
    (slot : Bool × Bool) (r : SqueezeResult) (mask : List (Bool × Bool))
    → push slot r ≡ ok (some mask)
    → (m : List (Bool × Bool)) × (r ≡ ok (some m)) × (slot ∷ m ≡ mask)
unfolding push
push-eq_ok slot (ok none) mask e = cc
push-eq_ok slot (ok (some m)) mask e = (m, refl, cc)
push-eq_ok slot needs_backing mask e = cc

abbrev Decides : PrimitiveType → Operator → ℤ → ℕ → (ℕ → Option Bool) → ℕ → Type 0
Decides t op z ref decide u =
    (b : Bool) → decide u ≡ some b → b ≡ compare op (value t (add_wrapping t u ref)) z

-- If the decision on each squeezed value is right, so is the mask.
eval_slots_sound :
    (t : PrimitiveType) (op : Operator) (z : ℤ) (ref : ℕ) (decide : ℕ → Option Bool) (g : ℕ → ℕ)
    (slots : List Slot) (mask : List (Bool × Bool))
    → Valids (Decides t op z ref (λ u. decide (g u))) slots
    → eval_slots decide (map_values g slots) ≡ ok (some mask)
    → logical_mask mask
      ≡ compare_all t op z (logical (map_values (λ u. add_wrapping t u ref) slots))
unfolding eval_slots
eval_slots_sound t op z ref decide g [] [] h e = refl
eval_slots_sound t op z ref decide g [] (slot ∷ mask) h e = cc
eval_slots_sound t op z ref decide g ((false, u) ∷ slots) mask h e =
    let inv = push-eq_ok (false, false) (eval_slots decide (map_values g slots)) mask e in
    ap logical_mask (sym inv.2)
    ∙ ap (λ l. none ∷ l) (eval_slots_sound t op z ref decide g slots inv.0 h inv.1)
eval_slots_sound t op z ref decide g ((true, u) ∷ slots) mask h e =
    elim (Option-cases (decide (g u))) [
      | inl d ↦ let e' : needs_backing ≡ ok (some mask) = rw d at e in cc
      | inr (b, d) ↦
          let e' : push (true, b) (eval_slots decide (map_values g slots)) ≡ ok (some mask) =
            rw d at e in
          let inv = push-eq_ok (true, b) (eval_slots decide (map_values g slots)) mask e' in
          ap logical_mask (sym inv.2)
          ∙ ap (λ c. some c ∷ logical_mask inv.0) (h.0 b d)
          ∙ ap (λ l. some (compare op (value t (add_wrapping t u ref)) z) ∷ l)
              (eval_slots_sound t op z ref decide g slots inv.0 h.1 inv.1)
    ]

Valids_zip :
    (P Q R : ℕ → Type 0)
    → ((v : ℕ) → P v → Q v → R v)
    → (slots : List Slot) → All P slots
    → Valids Q slots
    → Valids R slots
Valids_zip P Q R g [] h k = tt
Valids_zip P Q R g ((true, v) ∷ slots) h k = (g v h.0 k.0, Valids_zip P Q R g slots h.1 k.1)
Valids_zip P Q R g ((false, v) ∷ slots) h k = Valids_zip P Q R g slots h.1 k

module _ (t : PrimitiveType) (f : BitPacking) (laws : PacksLosslessly t f) (n : FromPrimitive)
    (conv : ConvertsExactly t n) (a : LiquidPrimitiveArray) (exact : IsExact t f a) where
  abbrev slots : List Slot
  slots = to_primitive t f a.bit_packed

  pub arrow_values :
      to_arrow_array t f a ≡ map_values (λ u. add_wrapping t u a.reference_value) slots
  unfolding to_arrow_array
  arrow_values = restored_values t a.reference_value slots exact.offsets_in_range

  -- The rows that a selection keeps, of the offsets and of the values.
  abbrev kept : List Bool → List Slot
  kept selection = keep selection slots

  pub arrow_kept :
      (selection : List Bool)
      → logical (map_values (λ u. add_wrapping t u a.reference_value) (kept selection))
        ≡ keep selection (logical (to_arrow_array t f a))
  arrow_kept selection =
      rw (arrow_values, ← keep-map_values (λ u. add_wrapping t u a.reference_value) selection slots)
        (keep-logical selection (map_values (λ u. add_wrapping t u a.reference_value) slots))

  pub clamped_sound :
      (selection : List Bool) (op : Operator) (k w : ℕ) (mask : List (Bool × Bool))
      → k < modulus t
      → eval_slots
          (decide_clamped t op a.reference_value (2 ^ w - 1) k)
          (map_values (clamp_to (2 ^ w - 1)) (kept selection))
        ≡ ok (some mask)
      → logical_mask mask
        ≡ compare_all t op (value t k) (keep selection (logical (to_arrow_array t f a)))
  clamped_sound selection op k w mask hk e =
      let s = 2 ^ w - 1 in
      eval_slots_sound t op (value t k) a.reference_value
        (decide_clamped t op a.reference_value s k) (clamp_to s) (kept selection) mask
        (Valids_map
          (λ u off b d.
            decide_clamped_sound t a.reference_value u k off exact.reference_in_range hk op s b d)
          (kept selection)
          (keep_Valids (IsOffset t a.reference_value) selection slots exact.offsets))
        e
      ∙ ap (compare_all t op (value t k)) (arrow_kept selection)

  abbrev pub bucket_width : ℕ → ℕ
  bucket_width w = bucket_width_of (max_offset slots) (2 ^ w)

  abbrev pub bucket : ℕ → ℕ → ℕ
  bucket w v = bucket_of (bucket_width w) (2 ^ w) v % modulus t

  pub buckets :
      (w u : ℕ)
      → 1 ≤ w
      → w ≤ bits t
      → u ≤ max_offset slots
      → (0 < bucket_width w) × (bucket w u ≡ u / bucket_width w) × (bucket w u < 2 ^ w)
  buckets w u p q h =
      let bound : max_offset slots < 2 ^ 64 = omega (
        arith,
        modulus_bound t,
        max_offset-lt (modulus t) slots (omega (arith, exact.reference_in_range))
            exact.offsets_in_range,
      ) in
      let b = bucket_of-eq t (max_offset slots) w u p q bound h in
      ((bucket_in_range (max_offset slots) w u p bound h).0, b.0, b.1)

  pub quantized_sound :
      (selection : List Bool) (op : Operator) (k w : ℕ) (mask : List (Bool × Bool))
      → 1 ≤ w
      → w ≤ bits t
      → eval_slots
          (decide_quantized t op a.reference_value (bucket_width w) k)
          (map_values (bucket w) (kept selection))
        ≡ ok (some mask)
      → logical_mask mask
        ≡ compare_all t op (value t k) (keep selection (logical (to_arrow_array t f a)))
  quantized_sound selection op k w mask p q e =
      let decide = decide_quantized t op a.reference_value (bucket_width w) k in
      eval_slots_sound t op (value t k) a.reference_value decide (bucket w) (kept selection) mask
        (Valids_zip (λ v. v ≤ max_offset slots) (IsOffset t a.reference_value)
          (Decides t op (value t k) a.reference_value (λ u. decide (bucket w u)))
          (λ u le off d h.
            let b = buckets w u p q le in
            decide_quantized_sound t a.reference_value u k (bucket_width w) off b.0 op d
              (ap decide (sym b.1) ∙ h))
          (kept selection)
          (keep-All (λ v. v ≤ max_offset slots) selection slots (max_offset-All slots))
          (keep_Valids (IsOffset t a.reference_value) selection slots exact.offsets))
        e
      ∙ ap (compare_all t op (value t k)) (arrow_kept selection)
