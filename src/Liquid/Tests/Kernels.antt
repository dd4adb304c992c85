-- ===== src/Liquid/Tests/Kernels.antt =====
-- Aggregates and conversions with the properties assumed of arrow and num_traits.
use mathlib.Core.Path.{subst}
use liquid_cache.Prelude.{
  ℕ, ◌-◌, ◌*◌, ◌<◌, ◌≡◌, refl, sym, ap, ◌∙◌, Bool, true, false, Option, none, some, List, [], ◌∷◌,
  arith, if◌then◌else◌, ltb, inl, inr, Bool-cases, Option-cases,
}
use liquid_cache.Prelude.Int.{ℤ, pos, negsuc, leb_ℤ, ◌≤ℤ◌}
use liquid_cache.Liquid.{PrimitiveType, modulus, is_unsigned, value, Slot, Operator, compare}
use liquid_cache.Liquid.Natives.{half, modulus-half}
use liquid_cache.Liquid.Primitive.{Aggregates, Aggregating, Valids, HasValid, logical}
use liquid_cache.Liquid.Hybrid.{FromPrimitive, ConvertsExactly, ScalarValue, integer}
use liquid_cache.Liquid.Hybrid.Access.{Compute, Computes, keep, logical_mask, compare_all}

-- The better of a value and the best of the rest.
abbrev better : (ℕ → ℕ → Bool) → ℕ → Option ℕ → ℕ
better test v none = v
better test v (some m) = if test v m then v else m

unfoldable pub best : (ℕ → ℕ → Bool) → List Slot → Option ℕ
best test [] = none
best test ((true, v) ∷ slots) = some (better test v (best test slots))
best test ((false, v) ∷ slots) = best test slots

some_inj {ℓ} : {A : Type ℓ} {a b : A} → some a ≡ some b → a ≡ b
some_inj e = cc

best-none : (test : ℕ → ℕ → Bool) (xs : List Slot) → best test xs ≡ none → Valids (λ v. ⊥) xs
unfolding best
best-none test [] e = tt
best-none test ((true, v) ∷ slots) e = cc
best-none test ((false, v) ∷ slots) e = best-none test slots e

best_has : (test : ℕ → ℕ → Bool) (xs : List Slot) (m : ℕ) → best test xs ≡ some m → HasValid m xs
unfolding best
best_has test [] m e = cc
best_has test ((false, v) ∷ slots) m e = best_has test slots m e
best_has test ((true, v) ∷ slots) m e = elim (Option-cases (best test slots)) [
  | inl n ↦ inl (sym (some_inj (rw n at e)))
  | inr (k, s) ↦
      let e' : (if test v k then v else k) ≡ m = some_inj (rw s at e) in
      elim (Bool-cases (test v k)) [
        | inl first ↦ inl (sym (rw first at e'))
        | inr later ↦
            let km : k ≡ m = rw later at e' in inr (best_has test slots m (s ∙ ap some km))
      ]
]

-- An order that the test decides.
record Orders (test : ℕ → ℕ → Bool) (le : ℕ → ℕ → Type 0) : Type 0 where
  reflexive : (a : ℕ) → le a a
  transitive : (a b c : ℕ) → le a b → le b c → le a c
  first : (a b : ℕ) → test a b ≡ true → le a b
  second : (a b : ℕ) → test a b ≡ false → le b a

Valids_le :
    (le : ℕ → ℕ → Type 0)
    → ((a b c : ℕ) → le a b → le b c → le a c)
    → (m k : ℕ) → le m k
    → (xs : List Slot) → Valids (λ v. le k v) xs
    → Valids (λ v. le m v) xs
Valids_le le trans m k h [] b = tt
Valids_le le trans m k h ((true, v) ∷ slots) b =
    (trans m k v h b.0, Valids_le le trans m k h slots b.1)
Valids_le le trans m k h ((false, v) ∷ slots) b = Valids_le le trans m k h slots b

vacuous : (P : ℕ → Type 0) (xs : List Slot) → Valids (λ v. ⊥) xs → Valids P xs
vacuous P [] h = tt
vacuous P ((true, v) ∷ slots) h = absurd h.0
vacuous P ((false, v) ∷ slots) h = vacuous P slots h

best_bound :
    (test : ℕ → ℕ → Bool) (le : ℕ → ℕ → Type 0)
    → Orders test le
    → (xs : List Slot) (m : ℕ) → best test xs ≡ some m
    → Valids (λ v. le m v) xs
unfolding best
best_bound test le o [] m e = tt
best_bound test le o ((false, v) ∷ slots) m e = best_bound test le o slots m e
best_bound test le o ((true, v) ∷ slots) m e = elim (Option-cases (best test slots)) [
  | inl n ↦
      let vm : v ≡ m = some_inj (rw n at e) in
      (subst (λ k. le k v) vm (o.reflexive v), vacuous (λ x. le m x) slots (best-none test slots n))
  | inr (k, s) ↦
      let e' : (if test v k then v else k) ≡ m = some_inj (rw s at e) in
      let rest = best_bound test le o slots k s in
      elim (Bool-cases (test v k)) [
        | inl now ↦
            let vm : v ≡ m = rw now at e' in
            (
              subst (λ k. le k v) vm (o.reflexive v),
              Valids_le le o.transitive m k (subst (λ j. le j k) vm (o.first v k now)) slots rest,
            )
        | inr later ↦
            let km : k ≡ m = rw later at e' in
            (
              subst (λ j. le j v) km (o.second v k later),
              Valids_le le o.transitive m k (subst (λ j. le j k) km (o.reflexive k)) slots rest,
            )
      ]
]

module _ (t : PrimitiveType) where
  abbrev lowest : ℕ → ℕ → Bool
  lowest a b = leb_ℤ (value t a) (value t b)

  abbrev highest : ℕ → ℕ → Bool
  highest a b = leb_ℤ (value t b) (value t a)

  lowest-Orders : Orders lowest (λ a b. value t a ≤ℤ value t b)
  lowest-Orders = record {
    reflexive = λ a. omega arith;
    transitive = λ a b c p q. omega arith;
    first = λ a b e. ground arith;
    second = λ a b e. ground arith;
  }

  highest-Orders : Orders highest (λ a b. value t b ≤ℤ value t a)
  highest-Orders = record {
    reflexive = λ a. omega arith;
    transitive = λ a b c p q. omega arith;
    first = λ a b e. ground arith;
    second = λ a b e. ground arith;
  }

  abbrev pub aggregates : Aggregates
  aggregates = record { min = best lowest; max = best highest }

  pub aggregates-Aggregating : Aggregating t aggregates
  aggregates-Aggregating = record {
    min_none = best-none lowest;
    min_some = λ xs m e. (
      best_has lowest xs m e,
      best_bound lowest (λ a b. value t a ≤ℤ value t b) lowest-Orders xs m e,
    );
    max_none = best-none highest;
    max_some = λ xs m e. (
      best_has highest xs m e,
      best_bound highest (λ a b. value t b ≤ℤ value t a) highest-Orders xs m e,
    );
  }

-- The pattern of an integer, if the type has it.
unfoldable pub convert : PrimitiveType → ℤ → Option ℕ
convert t (pos n) =
    let limit = if is_unsigned t then modulus t else half t in if ltb n limit then some n else none
convert t (negsuc n) =
    if is_unsigned t then none else if ltb n (half t) then some (modulus t - 1 - n) else none

abbrev pub conversion : PrimitiveType → FromPrimitive
conversion t = record { from_int = convert t }

convert-eq_some :
    (t : PrimitiveType) (z : ℤ) (k : ℕ) → convert t z ≡ some k → (k < modulus t) × (value t k ≡ z)
unfolding convert value
convert-eq_some t (pos n) k e = elim (Bool-cases (is_unsigned t)) [
  | inl u ↦ ground (arith, modulus-half t)
  | inr s ↦ ground (arith, modulus-half t)
]
convert-eq_some t (negsuc n) k e = elim (Bool-cases (is_unsigned t)) [
  | inl u ↦ ground (arith, modulus-half t)
  | inr s ↦ ground (arith, modulus-half t)
]

convert-value : (t : PrimitiveType) (k : ℕ) → k < modulus t → convert t (value t k) ≡ some k
unfolding value convert
convert-value t k h = elim (Bool-cases (is_unsigned t)) [
  | inl u ↦ rw (u, convert) (ground (arith, modulus-half t))
  | inr s ↦ elim (Bool-cases (ltb (2 * k) (modulus t))) [
    | inl p ↦ rw (s, p, convert) (ground (arith, modulus-half t))
    | inr q ↦ rw (s, q, convert) (ground (arith, modulus-half t))
  ]
]

pub conversion-ConvertsExactly : (t : PrimitiveType) → ConvertsExactly t (conversion t)
conversion-ConvertsExactly t = record {
  from_int-eq_some = convert-eq_some t;
  from_int-value = convert-value t;
}

-- The comparison of the values, for the literals that are integers.
compare_slots : PrimitiveType → Operator → ℤ → List Slot → List (Bool × Bool)
compare_slots t op z [] = []
compare_slots t op z ((true, v) ∷ slots) =
    (true, compare op (value t v) z) ∷ compare_slots t op z slots
compare_slots t op z ((false, v) ∷ slots) = (false, false) ∷ compare_slots t op z slots

compare_slots_lem :
    (t : PrimitiveType) (op : Operator) (z : ℤ) (xs : List Slot)
    → logical_mask (compare_slots t op z xs) ≡ compare_all t op z (logical xs)
unfolding compare_slots
compare_slots_lem t op z [] = refl
compare_slots_lem t op z ((true, v) ∷ slots) =
    ap (λ l. some (compare op (value t v) z) ∷ l) (compare_slots_lem t op z slots)
compare_slots_lem t op z ((false, v) ∷ slots) = ap (λ l. none ∷ l) (compare_slots_lem t op z slots)

pub compare_literal :
    PrimitiveType → Operator → ScalarValue → List Slot → Option (List (Bool × Bool))
compare_literal t op (integer s (some z)) xs = some (compare_slots t op z xs)
compare_literal t op _ xs = none

abbrev pub compute : PrimitiveType → Compute
compute t = record { filter = keep; apply_cmp = compare_literal t }

compare_literal_lem :
    (t : PrimitiveType) (op : Operator) (s : PrimitiveType) (z : ℤ) (xs : List Slot)
    (mask : List (Bool × Bool))
    → compare_literal t op (integer s (some z)) xs ≡ some mask
    → logical_mask mask ≡ compare_all t op z (logical xs)
unfolding compare_literal
compare_literal_lem t op s z xs mask e =
    ap logical_mask (sym (some_inj e)) ∙ compare_slots_lem t op z xs

pub compute-Computes : (t : PrimitiveType) → Computes t (compute t)
compute-Computes t = record {
  filter-eq-keep = λ selection xs h. refl;
  apply_cmp-eq_some = compare_literal_lem t;
}
