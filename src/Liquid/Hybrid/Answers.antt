-- ===== src/Liquid/Hybrid/Answers.antt =====
-- Arrow arrays from their encoding to the answers of their squeezed form.
use liquid_cache.Prelude.{
  ℕ, suc, ◌≤◌, ◌≡◌, refl, arith, sym, ap, ◌∙◌, Bool, true, false, some, List, [], ◌∷◌, length,
  Bool-cases, Option-cases, inl, inr, ◌⊎◌, ◌==◌,
}
use liquid_cache.Liquid.{PrimitiveType, Slot, add_wrapping}
use liquid_cache.Liquid.BitPack.{BitPacking, PacksLosslessly, to_primitive}
use liquid_cache.Liquid.Primitive.{
  Aggregates, Aggregating, LiquidPrimitiveArray, IntegerSqueezePolicy, from_arrow_array,
  set_squeeze_policy, to_arrow_array, logical, InRange,
}
use liquid_cache.Liquid.Hybrid.{
  Hybrid, clamped, bucketed, squeeze_integer, FromPrimitive, ConvertsExactly,
}
use liquid_cache.Liquid.Hybrid.Access.{
  filter_known, filter_inner, known_values, count_set_bits, Compute, Computes, keep, filter,
}
use liquid_cache.Liquid.Hybrid.Predicates.{IsExact, arrow_values}
use liquid_cache.Liquid.Hybrid.Squeeze.{from_arrow_array-IsExact, length-map_values}
use liquid_cache.Liquid.Hybrid.Keeps.{keep-logical}
use liquid_cache.Liquid.Hybrid.Ends.{filtered}
use liquid_cache.Liquid.Hybrid.Filters.{filter_sound}

-- The squeeze policy has no part in what an array holds.
set_policy-IsExact :
    (t : PrimitiveType) (f : BitPacking) (a : LiquidPrimitiveArray) (policy : IntegerSqueezePolicy)
    → IsExact t f a
    → IsExact t f (set_squeeze_policy a policy)
unfolding set_squeeze_policy
set_policy-IsExact t f a policy e = record {
  reference_in_range = e.reference_in_range;
  offsets_in_range = e.offsets_in_range;
  offsets = e.offsets;
  width_in_range = e.width_in_range;
}

length-logical : (xs : List Slot) → length (logical xs) ≡ length xs
length-logical [] = refl
length-logical ((true, v) ∷ xs) = ap suc (length-logical xs)
length-logical ((false, v) ∷ xs) = ap suc (length-logical xs)

same_length : (xs ys : List Slot) → logical xs ≡ logical ys → length xs ≡ length ys
same_length xs ys e = sym (length-logical xs) ∙ ap length e ∙ length-logical ys

filter-cases :
    (t : PrimitiveType) (f : BitPacking) (c : Compute) (h : Hybrid) (full : List Slot)
    (selection : List Bool)
    → (filter t f c h full selection ≡ filter_known t f c h full selection)
      ⊎ (filter t f c h full selection ≡ some (c.filter selection full))
unfolding filter
filter-cases t f c (clamped a) full selection = inl refl
filter-cases t f c (bucketed a) full selection = inr refl

module _ (t : PrimitiveType) (f : BitPacking) (laws : PacksLosslessly t f) (k : Aggregates)
    (agg : Aggregating t k) (n : FromPrimitive) (conv : ConvertsExactly t n) (c : Compute)
    (computes : Computes t c) (array : List Slot) (range_lem : InRange t array)
    (a : LiquidPrimitiveArray) (enc : from_arrow_array t f k array ≡ some a)
    (policy : IntegerSqueezePolicy) (range : ℕ × ℕ) (h : Hybrid)
    (sq : squeeze_integer t f (set_squeeze_policy a policy) range ≡ some h) (full : List Slot)
    (hydrated : logical full ≡ logical array) (selection : List Bool)
    (covers : length selection ≤ length array) where
  facts :
      IsExact t f (set_squeeze_policy a policy)
      × (logical (to_arrow_array t f (set_squeeze_policy a policy)) ≡ logical array)
      × (length (to_primitive t f (set_squeeze_policy a policy).bit_packed) ≡ length array)
  unfolding set_squeeze_policy to_arrow_array
  facts =
      let (exact, same) = from_arrow_array-IsExact t f laws k agg array a range_lem enc in
      let values = arrow_values t f laws n conv a exact in
      (
        set_policy-IsExact t f a policy exact,
        same,
        sym (
              length-map_values (λ u. add_wrapping t u a.reference_value)
                (to_primitive t f a.bit_packed))
            ∙ ap length (sym values)
            ∙ same_length (to_arrow_array t f a) array same,
      )

  filter_rows :
      (out : List Slot)
      → filter_known t f c h full selection ≡ some out
      → logical out ≡ keep selection (logical array)
  filter_rows out e =
      let (exact, same, len) = facts in
      let a' = set_squeeze_policy a policy in
      filter_sound t f laws n conv c computes a' exact range h sq selection (omega arith) full out
        (hydrated ∙ sym same) (omega (arith, same_length full array hydrated)) e
      ∙ ap (keep selection) same

  filtered_rows : (h' : Hybrid) × (filter_inner t f c h selection ≡ some h')
  filtered_rows =
      let (exact, same, len) = facts in
      filtered t f laws n conv c computes (set_squeeze_policy a policy) exact range h sq selection
        (omega arith)

  known_lem :
      (out : List Slot) × (filter_known t f c h full selection ≡ some out)
      × (logical out ≡ keep selection (logical array))
  unfolding filter_known
  known_lem =
      let (h', fi) = filtered_rows in
      elim (Bool-cases (count_set_bits selection == 0)) [
        | inl none_set ↦
            let ev : filter_known t f c h full selection ≡ some [] =
              rw (none_set, filter_known) refl in
            ([], ev, filter_rows [] ev)
        | inr some_set ↦ elim (Option-cases (known_values t f c h')) [
          | inl hydrate ↦
              let ev : filter_known t f c h full selection ≡ some (c.filter selection full) =
                rw (some_set, filter_known, fi, hydrate) refl in
              (c.filter selection full, ev, filter_rows (c.filter selection full) ev)
          | inr (arrow, known) ↦
              let ev : filter_known t f c h full selection ≡ some arrow =
                rw (some_set, filter_known, fi, known) refl in
              (arrow, ev, filter_rows arrow ev)
        ]
      ]

  -- Under the same conditions, filtering the squeezed array does not panic and gives the selected
  -- rows of the original array, whether they are known without the backing bytes or read back.
  pub filter_lem :
      (out : List Slot) × (filter t f c h full selection ≡ some out)
      × (logical out ≡ keep selection (logical array))
  filter_lem = elim (filter-cases t f c h full selection) [
    | inl known ↦ let (out, ev, rows) = known_lem in (out, known ∙ ev, rows)
    | inr back ↦
        let whole : length selection ≤ length full =
          omega (arith, same_length full array hydrated) in
        let rows : logical (c.filter selection full) ≡ keep selection (logical array) =
          rw (computes.filter-eq-keep selection full whole)
            (keep-logical selection full ∙ ap (keep selection) hydrated) in
        (c.filter selection full, back, rows)
  ]
