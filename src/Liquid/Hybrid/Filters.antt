-- ===== src/Liquid/Hybrid/Filters.antt =====
-- `filter` of a squeezed array (Liquid/Hybrid/Access.antt), against that of the Arrow array.
use liquid_cache.Prelude.{
  ℕ, ◌-◌, ◌/◌, ◌^◌, ◌≤◌, ◌≡◌, refl, sym, ap, ◌∙◌, Bool, true, false, none, some, List, [], ◌∷◌,
  ◌==◌, max, arith, length, Option-cases, Bool-cases, inl, inr, if◌then◌else◌,
}
use liquid_cache.Liquid.{PrimitiveType, bits, add_wrapping, Slot}
use liquid_cache.Liquid.BitPack.{BitPacking, PacksLosslessly, from_primitive, to_primitive}
use liquid_cache.Liquid.Primitive.{LiquidPrimitiveArray, to_arrow_array, map_values, logical}
use liquid_cache.Liquid.Hybrid.{Hybrid, squeeze_integer, FromPrimitive, ConvertsExactly, clamp_to}
use liquid_cache.Liquid.Hybrid.Predicates.{IsExact, arrow_kept}
use liquid_cache.Liquid.Hybrid.Access.{
  Compute, Computes, filter_inner, keep, to_arrow_known_only, is_known, filter_known, known_values,
  count_set_bits,
}
use liquid_cache.Liquid.Hybrid.Keeps.{keep-logical}
use liquid_cache.Liquid.Hybrid.Squeeze.{squeeze_at-eq_some}
use liquid_cache.Liquid.Hybrid.Rows.{
  no_bucketed, clamped_rows, filter_clamped, clamped_unpacked, bucketed_rows, filter_bucketed,
}
use liquid_cache.Liquid.Hybrid.Widths.{sentinel_of-eq}
use liquid_cache.Liquid.Hybrid.Ends.{some_inj, filtered}

-- The values that the scan accepts were not clamped.
is_known-clamp :
    (t : PrimitiveType) (s ref : ℕ) (slots : List Slot)
    → is_known s (map_values (clamp_to s) slots) ≡ true
    → logical (map_values (λ u. add_wrapping t u ref) (map_values (clamp_to s) slots))
      ≡ logical (map_values (λ u. add_wrapping t u ref) slots)
unfolding is_known
is_known-clamp t s ref [] e = refl
is_known-clamp t s ref ((false, u) ∷ slots) e = ap (λ l. none ∷ l) (is_known-clamp t s ref slots e)
is_known-clamp t s ref ((true, u) ∷ slots) e =
    let below : clamp_to s u ≡ u = ground arith in
    let rest : is_known s (map_values (clamp_to s) slots) ≡ true = ground arith in
    rw below (ap (λ l. some (add_wrapping t u ref) ∷ l) (is_known-clamp t s ref slots rest))

keep_none {ℓ} :
    {A : Type ℓ} (selection : List Bool) (xs : List A)
    → count_set_bits selection ≡ 0
    → keep selection xs ≡ []
unfolding count_set_bits
keep_none selection [] h = refl
keep_none [] (x ∷ xs) h = refl
keep_none (true ∷ selection) (x ∷ xs) h = absurd (omega arith)
keep_none (false ∷ selection) (x ∷ xs) h = keep_none selection xs h

module _ (t : PrimitiveType) (f : BitPacking) (laws : PacksLosslessly t f) (n : FromPrimitive)
    (conv : ConvertsExactly t n) (c : Compute) (computes : Computes t c) (a : LiquidPrimitiveArray)
    (exact : IsExact t f a) (range : ℕ × ℕ) (h : Hybrid) (sq : squeeze_integer t f a range ≡ some h)
    (selection : List Bool)
    (covers : length selection ≤ length (to_primitive t f a.bit_packed)) where
  rows_known :
      (w : ℕ) (p : 1 ≤ w) (q : w ≤ bits t) (arrow : List Slot)
      → known_values t f c
          (clamped_rows t f laws n conv c computes a exact range w p q selection covers)
        ≡ some arrow
      → logical arrow ≡ keep selection (logical (to_arrow_array t f a))
  unfolding known_values to_arrow_known_only clamped_rows from_primitive
  rows_known w p q arrow e =
      let s = 2 ^ w - 1 in
      let kept = keep selection (to_primitive t f a.bit_packed) in
      let values = map_values (clamp_to s) kept in
      let unpacked =
        clamped_unpacked t f laws n conv c computes a exact range w p q selection covers in
      let e' : (if is_known s values
            then some (map_values (λ u. add_wrapping t u a.reference_value) values)
            else none)
          ≡ some arrow =
        rw (sentinel_of-eq t w q, unpacked) at e in
      elim (Bool-cases (is_known s values)) [
        | inl known ↦
            let given : map_values (λ u. add_wrapping t u a.reference_value) values ≡ arrow =
              some_inj (rw known at e') in
            ap logical (sym given)
            ∙ is_known-clamp t s a.reference_value kept known
            ∙ arrow_kept t f laws n conv a exact selection
        | inr unknown ↦ let e'' : none ≡ some arrow = rw unknown at e' in cc
      ]

  rows_known_any :
      (h' : Hybrid) (arrow : List Slot)
      → filter_inner t f c h selection ≡ some h'
      → known_values t f c h' ≡ some arrow
      → logical arrow ≡ keep selection (logical (to_arrow_array t f a))
  unfolding squeeze_integer
  rows_known_any h' arrow fi e =
      let (w, bw, large, which) =
        squeeze_at-eq_some t f a range a.bit_packed.bit_width a.squeeze_policy h sq in
      let nw = max (w / 2) 1 in
      let p : 1 ≤ nw = omega arith in
      let le : nw ≤ bits t = omega (arith, exact.width_in_range w bw) in
      elim which [
        | inl cl ↦
            let rows =
              clamped_rows t f laws n conv c computes a exact range nw p le selection covers in
            let same : h' ≡ rows = sym (
              some_inj (
                sym
                  (filter_clamped t f laws n conv c computes a exact range nw p le selection covers)
                ∙ rw cl at fi)) in
            rows_known nw p le arrow (rw same at e)
        | inr bu ↦
            let rows =
              bucketed_rows t f laws n conv c computes a exact range nw p le selection covers in
            let same : h' ≡ rows = sym (
              some_inj (
                sym (
                  filter_bucketed t f laws n conv c computes a exact range nw p le selection covers)
                ∙ rw bu at fi)) in
            absurd (
              no_bucketed t f laws n conv c computes a exact range nw p le selection covers arrow
                (rw same at e))
      ]

  pub filter_sound :
      (full out : List Slot)
      → logical full ≡ logical (to_arrow_array t f a)
      → length selection ≤ length full
      → filter_known t f c h full selection ≡ some out
      → logical out ≡ keep selection (logical (to_arrow_array t f a))
  unfolding filter_known
  filter_sound full out same len e = elim (Bool-cases (count_set_bits selection == 0)) [
    | inl none_set ↦
        let out_eq : [] ≡ out = some_inj (rw none_set at e) in
        ap logical (sym out_eq)
        ∙ sym (keep_none selection (logical (to_arrow_array t f a)) (ground arith))
    | inr some_set ↦
        let (h', fi) = filtered t f laws n conv c computes a exact range h sq selection covers in
        let e' : elim (known_values t f c h') [
          | none ↦ some (c.filter selection full)
          | some arrow ↦ some arrow
        ]
            ≡ some out =
          rw (some_set, fi, filter_known) at e in
        elim (Option-cases (known_values t f c h')) [
          | inl hydrate ↦
              let out_eq : keep selection full ≡ out =
                some_inj (rw (hydrate, computes.filter-eq-keep selection full len) at e') in
              ap logical (sym out_eq) ∙ keep-logical selection full ∙ ap (keep selection) same
          | inr (arrow, known) ↦
              let out_eq : arrow ≡ out = some_inj (rw known at e') in
              ap logical (sym out_eq) ∙ rows_known_any h' arrow fi known
        ]
  ]
