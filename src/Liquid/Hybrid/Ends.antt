-- ===== src/Liquid/Hybrid/Ends.antt =====
-- The predicates on what a selection keeps of a squeezed array (Liquid/Hybrid/Access.antt), against
-- those on the Arrow array.
use liquid_cache.Prelude.{
  ℕ, ◌/◌, ◌≤◌, ◌≡◌, sym, ap, ◌∙◌, Bool, Option, none, some, List, max, arith, length, Option-cases,
  inl, inr, ◌⊎◌,
}
use liquid_cache.Prelude.Int.{ℤ}
use liquid_cache.Liquid.{PrimitiveType, bits, Slot, Operator}
use liquid_cache.Liquid.BitPack.{BitPacking, PacksLosslessly, to_primitive}
use liquid_cache.Liquid.Primitive.{LiquidPrimitiveArray, to_arrow_array, logical}
use liquid_cache.Liquid.Hybrid.{
  Hybrid, squeeze_integer, try_eval_predicate_inner, eval_native, literal_value, SqueezeResult,
  integer, FromPrimitive, ConvertsExactly, ok, needs_backing,
}
use liquid_cache.Liquid.Hybrid.Predicates.{IsExact, clamped_sound, quantized_sound}
use liquid_cache.Liquid.Hybrid.Access.{
  Compute, Computes, filter_inner, keep, logical_mask, compare_all, try_eval_predicate,
}
use liquid_cache.Liquid.Hybrid.Keeps.{keep-logical}
use liquid_cache.Liquid.Hybrid.Squeeze.{squeeze_at-eq_some}
use liquid_cache.Liquid.Hybrid.Rows.{
  clamped_rows, filter_clamped, eval_clamped_rows, bucketed_rows, filter_bucketed,
  eval_bucketed_rows,
}

pub some_inj {ℓ} : {A : Type ℓ} {a b : A} → some a ≡ some b → a ≡ b
some_inj e = cc

ok_inj : {a b : Option (List (Bool × Bool))} → ok a ≡ ok b → a ≡ b
ok_inj e = cc

-- An answer is that of the squeezed values, or that of the array read back.
answer :
    (r : SqueezeResult) (fallback : Option (List (Bool × Bool))) (mask : List (Bool × Bool))
    → elim r [ ok m ↦ some m | needs_backing ↦ some fallback ] ≡ some (some mask)
    → (r ≡ ok (some mask)) ⊎ (fallback ≡ some mask)
answer (ok m) fallback mask e = inl (ap ok (some_inj e))
answer needs_backing fallback mask e = inr (some_inj e)

module _ (t : PrimitiveType) (f : BitPacking) (laws : PacksLosslessly t f) (n : FromPrimitive)
    (conv : ConvertsExactly t n) (c : Compute) (computes : Computes t c) (a : LiquidPrimitiveArray)
    (exact : IsExact t f a) (range : ℕ × ℕ) (h : Hybrid) (sq : squeeze_integer t f a range ≡ some h)
    (selection : List Bool)
    (covers : length selection ≤ length (to_primitive t f a.bit_packed)) where
  -- What a filtered array without its backing bytes gives, for a literal of the type.
  rows_sound :
      (h' : Hybrid) (op : Operator) (s : PrimitiveType) (z : ℤ) (mask : List (Bool × Bool))
      → filter_inner t f c h selection ≡ some h'
      → try_eval_predicate_inner t f n h' op (integer s (some z)) ≡ ok (some mask)
      → logical_mask mask ≡ compare_all t op z (keep selection (logical (to_arrow_array t f a)))
  unfolding squeeze_integer try_eval_predicate_inner literal_value
  rows_sound h' op s z mask fi ev =
      let (w, e, large, which) =
        squeeze_at-eq_some t f a range a.bit_packed.bit_width a.squeeze_policy h sq in
      let nw = max (w / 2) 1 in
      let p : 1 ≤ nw = omega arith in
      let le : nw ≤ bits t = omega (arith, exact.width_in_range w e) in
      elim (Option-cases (n.from_int z)) [
        | inl lit ↦
            let ev' : ok none ≡ ok (some mask) = rw (lit, try_eval_predicate_inner) at ev in cc
        | inr (k, lit) ↦
            let (hk, hz) = conv.from_int-eq_some z k lit in
            let ev' : eval_native t f h' op k ≡ ok (some mask) =
              rw (lit, try_eval_predicate_inner) at ev in
            elim which [
              | inl cl ↦
                  let rows =
                    clamped_rows t f laws n conv c computes a exact range nw p le selection
                      covers in
                  let same : rows ≡ h' = some_inj (
                    sym (
                      filter_clamped t f laws n conv c computes a exact range nw p le selection
                        covers)
                    ∙ rw cl at fi) in
                  let ev2 =
                    sym (
                      eval_clamped_rows t f laws n conv c computes a exact range nw p le selection
                        covers op k)
                    ∙ ap (λ r. eval_native t f r op k) same
                    ∙ ev' in
                  rw (← hz) (clamped_sound t f laws n conv a exact selection op k nw mask hk ev2)
              | inr bu ↦
                  let rows =
                    bucketed_rows t f laws n conv c computes a exact range nw p le selection
                      covers in
                  let same : rows ≡ h' = some_inj (
                    sym (
                      filter_bucketed t f laws n conv c computes a exact range nw p le selection
                        covers)
                    ∙ rw bu at fi) in
                  let ev2 =
                    sym (
                      eval_bucketed_rows t f laws n conv c computes a exact range nw p le selection
                        covers op k)
                    ∙ ap (λ r. eval_native t f r op k) same
                    ∙ ev' in
                  rw (← hz)
                    (quantized_sound t f laws n conv a exact selection op k nw mask p le ev2)
            ]
      ]

  -- A squeezed array has a bit width, so filtering it does not panic.
  pub filtered : (h' : Hybrid) × (filter_inner t f c h selection ≡ some h')
  unfolding squeeze_integer
  filtered =
      let (w, e, large, which) =
        squeeze_at-eq_some t f a range a.bit_packed.bit_width a.squeeze_policy h sq in
      let nw = max (w / 2) 1 in
      let p : 1 ≤ nw = omega arith in
      let le : nw ≤ bits t = omega (arith, exact.width_in_range w e) in
      elim which [
        | inl cl ↦ (
          clamped_rows t f laws n conv c computes a exact range nw p le selection covers,
          ap (λ r. filter_inner t f c r selection) cl
              ∙ filter_clamped t f laws n conv c computes a exact range nw p le selection covers,
        )
        | inr bu ↦ (
          bucketed_rows t f laws n conv c computes a exact range nw p le selection covers,
          ap (λ r. filter_inner t f c r selection) bu
              ∙ filter_bucketed t f laws n conv c computes a exact range nw p le selection covers,
        )
      ]

  -- With the array that is read back, every comparison has an answer or is not supported, and the
  -- answer is right.
  pub predicate_sound :
      (full : List Slot) (op : Operator) (s : PrimitiveType) (z : ℤ) (mask : List (Bool × Bool))
      → logical full ≡ logical (to_arrow_array t f a)
      → length selection ≤ length full
      → try_eval_predicate t f c n h full op (integer s (some z)) selection ≡ some (some mask)
      → logical_mask mask ≡ compare_all t op z (keep selection (logical (to_arrow_array t f a)))
  unfolding try_eval_predicate
  predicate_sound full op s z mask same len ev =
      let (h', fi) = filtered in
      let r = try_eval_predicate_inner t f n h' op (integer s (some z)) in
      let fallback = c.apply_cmp op (integer s (some z)) (c.filter selection full) in
      let ev' : elim r [ ok m ↦ some m | needs_backing ↦ some fallback ] ≡ some (some mask) =
        rw (fi, try_eval_predicate) at ev in
      elim (answer r fallback mask ev') [
        | inl direct ↦ rows_sound h' op s z mask fi direct
        | inr hydrated ↦
            let e = rw (computes.filter-eq-keep selection full len) at hydrated in
            computes.apply_cmp-eq_some op s z (keep selection full) mask e
            ∙ ap (compare_all t op z) (keep-logical selection full ∙ ap (keep selection) same)
      ]
