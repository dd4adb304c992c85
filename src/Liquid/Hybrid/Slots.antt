-- ===== src/Liquid/Hybrid/Slots.antt =====
-- The decision of a squeezed array on one value (Liquid/Hybrid.antt), against the comparison of the
-- value itself.
use native.Mathlib.Nat.{mod-eq_of_lt, mod-lt, div-lt_iff_lt-mul, div-mul-le_self, div-add-mod'}
use liquid_cache.Prelude.{
  ℕ, ◌+◌, ◌*◌, ◌/◌, ◌%◌, ◌^◌, ◌≤◌, ◌<◌, ◌≡◌, sym, ap, Bool, true, false, none, some, ltb, leb,
  arith, ltb→lt, ◌∙◌, Bool-cases, Option-cases, inl, inr, if◌then◌else◌,
}
use liquid_cache.Prelude.Int.{
  ℤ, pos, pos_part, neg_part, ◌+ℤ◌, ◌-ℤ◌, ltb_ℤ, ◌≤ℤ◌, ◌<ℤ◌, +ℤ_parts, -ℤ_parts,
}
use liquid_cache.Liquid.{
  PrimitiveType, modulus, is_unsigned, value, add_wrapping, Operator, eq, not_eq, lt, lt_eq, gt,
  gt_eq, compare,
}
use liquid_cache.Liquid.Natives.{modulus-half, modulus_bound, value_signed, value_unsigned}
use liquid_cache.Liquid.Hybrid.{
  below_sentinel, resolves_on_sentinel, add_i64, greater_side, less_side, on_equal_bucket,
  decide_clamped, decide_quantized, relative, clamp_to,
}

-- `u` is the offset from `ref` of a value of the type: the addition does not wrap.
pub record IsOffset (t : PrimitiveType) (ref u : ℕ) : Type 0 where
  pub in_range : u < modulus t
  pub exact :
      pos_part (value t (add_wrapping t u ref)) + neg_part (value t ref)
      ≡ pos_part (value t ref) + u + neg_part (value t (add_wrapping t u ref))
  pub sum_in_range : add_wrapping t u ref < modulus t

-- A value at or above the sentinel, for a literal that resolves it, is on the greater side.
above_literal :
    (op : Operator) (v s k : ℤ)
    → s ≤ℤ v
    → below_sentinel op k s ≡ true
    → compare op v k ≡ greater_side op
unfolding below_sentinel compare greater_side
above_literal eq v s k h b = ground arith
above_literal not_eq v s k h b = ground arith
above_literal lt v s k h b = ground arith
above_literal lt_eq v s k h b = ground arith
above_literal gt v s k h b = ground arith
above_literal gt_eq v s k h b = ground arith

pub compare_above : (op : Operator) (v k : ℤ) → k <ℤ v → compare op v k ≡ greater_side op
unfolding compare greater_side
compare_above eq v k h = ground arith
compare_above not_eq v k h = ground arith
compare_above lt v k h = ground arith
compare_above lt_eq v k h = ground arith
compare_above gt v k h = ground arith
compare_above gt_eq v k h = ground arith

pub compare_below : (op : Operator) (v k : ℤ) → v <ℤ k → compare op v k ≡ less_side op
unfolding compare less_side
compare_below eq v k h = ground arith
compare_below not_eq v k h = ground arith
compare_below lt v k h = ground arith
compare_below lt_eq v k h = ground arith
compare_below gt v k h = ground arith
compare_below gt_eq v k h = ground arith

pos_add : (a b : ℕ) → pos a +ℤ pos b ≡ pos (a + b)
unfolding ◌+ℤ◌
pos_add a b = ground arith

add_i64-eq :
    (a b : ℤ) → a +ℤ b <ℤ pos (2 ^ 63) → pos 0 ≤ℤ a +ℤ b +ℤ pos (2 ^ 63) → add_i64 a b ≡ a +ℤ b
unfolding add_i64
add_i64-eq a b h k =
    ground (arith, +ℤ_parts (a +ℤ b) (pos (2 ^ 63)), -ℤ_parts (pos 0) (pos (2 ^ 63)))

module _ (t : PrimitiveType) (ref u k : ℕ) (off : IsOffset t ref u) (hr : ref < modulus t)
    (hk : k < modulus t) where
  abbrev z : ℤ
  z = value t (add_wrapping t u ref)

  -- The sum of the reference and the sentinel does not overflow where a value reaches it.
  no_overflow :
      (s : ℕ) → s ≤ u → is_unsigned t ≡ false → add_i64 (value t ref) (pos s) ≡ value t ref +ℤ pos s
  no_overflow s h e =
      let a = value_signed t ref hr e in
      let b = value_signed t (add_wrapping t u ref) off.sum_in_range e in
      let c = +ℤ_parts (value t ref) (pos s) in
      let x = off.exact in
      let m = modulus-half t in
      add_i64-eq (value t ref) (pos s) (omega arith)
        (omega (arith, +ℤ_parts (value t ref +ℤ pos s) (pos (2 ^ 63))))

  no_overflow_u64 : (s : ℕ) → s ≤ u → is_unsigned t ≡ true → (ref + s) % 2 ^ 64 ≡ ref + s
  no_overflow_u64 s h e =
      let a : pos_part (value t ref) ≡ ref = ap pos_part (value_unsigned t ref e) in
      let b : pos_part z ≡ add_wrapping t u ref =
        ap pos_part (value_unsigned t (add_wrapping t u ref) e) in
      let c : neg_part (value t ref) ≡ 0 = ap neg_part (value_unsigned t ref e) in
      let d : neg_part z ≡ 0 = ap neg_part (value_unsigned t (add_wrapping t u ref) e) in
      let x = off.exact in let y = off.sum_in_range in mod-eq_of_lt (omega (arith, modulus_bound t))

  -- What the test on the sentinel means for a value that reaches it.
  resolved :
      (op : Operator) (s : ℕ)
      → s ≤ u
      → resolves_on_sentinel t op ref s k ≡ true
      → compare op z (value t k) ≡ greater_side op
  unfolding resolves_on_sentinel
  resolved op s h e = elim (Bool-cases (is_unsigned t)) [
    | inl un ↦
        let e' : below_sentinel op (value t k) (value t ref +ℤ pos s) ≡ true =
          rw
            (
              value_unsigned t k un,
              value_unsigned t ref un,
              pos_add ref s,
              ← no_overflow_u64 s h un,
            )
            (rw un at e) in
        above_literal op z (value t ref +ℤ pos s) (value t k)
          (omega (arith, off.exact, +ℤ_parts (value t ref) (pos s))) e'
    | inr si ↦
        let e' : below_sentinel op (value t k) (value t ref +ℤ pos s) ≡ true =
          rw (← no_overflow s h si) (rw si at e) in
        above_literal op z (value t ref +ℤ pos s) (value t k)
          (omega (arith, off.exact, +ℤ_parts (value t ref) (pos s))) e'
  ]

  pub decide_clamped_sound :
      (op : Operator) (s : ℕ) (b : Bool)
      → decide_clamped t op ref s k (clamp_to s u) ≡ some b
      → b ≡ compare op (value t (add_wrapping t u ref)) (value t k)
  unfolding decide_clamped
  decide_clamped_sound op s b h = elim (Bool-cases (leb s u)) [
    | inl big ↦ elim (Bool-cases (resolves_on_sentinel t op ref s k)) [
      | inl yes_ ↦ ground (arith, resolved op s)
      | inr no_ ↦ ground arith
    ]
    | inr small ↦ ground arith
  ]

some_inj {ℓ} : {A : Type ℓ} {a b : A} → some a ≡ some b → a ≡ b
some_inj e = cc

not_below : (a b : ℤ) → ltb_ℤ a b ≡ false → neg_part (a -ℤ b) ≡ 0
unfolding ◌-ℤ◌
not_below a b h = ground arith

-- The order of buckets is the order of the values in different ones.
bucket_order :
    (u rel bw : ℕ)
    → 0 < bw
    → (u / bw < rel / bw → u < rel)
      × (rel / bw < u / bw → rel < u)
      × (u / bw ≡ rel / bw → u + rel % bw ≡ rel + u % bw)
      × (u % bw < bw)
bucket_order u rel bw h = (
  λ p. omega (arith, (div-lt_iff_lt-mul h).0 p, div-mul-le_self rel bw),
  λ p. omega (arith, (div-lt_iff_lt-mul h).0 p, div-mul-le_self u bw),
  λ p. omega (arith, ap (λ (q : ℕ). q * bw) p, div-add-mod' u bw, div-add-mod' rel bw),
  mod-lt u h,
)

relative_none : (t : PrimitiveType) (ref k : ℕ) → relative t ref k ≡ none → value t k <ℤ value t ref
unfolding relative
relative_none t ref k h = elim (Bool-cases (is_unsigned t)) [
  | inl un ↦ rw (value_unsigned t k un, value_unsigned t ref un) (ground arith)
  | inr si ↦ ground arith
]

relative-some :
    (t : PrimitiveType) (ref k rel : ℕ)
    → relative t ref k ≡ some rel
    → pos_part (value t k) + neg_part (value t ref)
      ≡ pos_part (value t ref) + rel + neg_part (value t k)
unfolding relative
relative-some t ref k rel h = elim (Bool-cases (is_unsigned t)) [
  | inl un ↦ rw (value_unsigned t k un, value_unsigned t ref un) (ground arith)
  | inr si ↦ ground (arith, -ℤ_parts (value t k) (value t ref), not_below (value t k) (value t ref))
]

-- In one bucket the position of the literal decides at an end of the bucket.
equal_bucket :
    (op : Operator) (v k : ℤ) (u rel bw : ℕ) (b : Bool)
    → pos_part v + neg_part k + rel ≡ pos_part k + neg_part v + u
    → u + rel % bw ≡ rel + u % bw
    → u % bw < bw
    → on_equal_bucket op (rel % bw) bw ≡ some b
    → b ≡ compare op v k
unfolding on_equal_bucket compare
equal_bucket eq v k u rel bw b d e l h = cc
equal_bucket not_eq v k u rel bw b d e l h = cc
equal_bucket lt v k u rel bw b d e l h = ground arith
equal_bucket lt_eq v k u rel bw b d e l h = ground arith
equal_bucket gt v k u rel bw b d e l h = ground arith
equal_bucket gt_eq v k u rel bw b d e l h = ground arith

module _ (t : PrimitiveType) (ref u k bw : ℕ) (off : IsOffset t ref u) (pos_width : 0 < bw) where
  pub decide_quantized_sound :
      (op : Operator) (b : Bool)
      → decide_quantized t op ref bw k (u / bw) ≡ some b
      → b ≡ compare op (value t (add_wrapping t u ref)) (value t k)
  unfolding decide_quantized
  decide_quantized_sound op b h =
      let v = value t (add_wrapping t u ref) in
      let x = off.exact in
      elim (Option-cases (relative t ref k)) [
        | inl e ↦
            let h' : some (greater_side op) ≡ some b = rw (e, decide_quantized) at h in
            let above : value t k <ℤ v = omega (arith, relative_none t ref k e) in
            sym (compare_above op v (value t k) above ∙ some_inj h')
        | inr (rel, e) ↦
            let r = relative-some t ref k rel e in
            let o = bucket_order u rel bw pos_width in
            let h' : (if ltb (u / bw) (rel / bw)
                  then some (less_side op)
                  else if ltb (rel / bw) (u / bw)
                  then some (greater_side op)
                  else on_equal_bucket op (rel % bw) bw)
                ≡ some b =
              rw (e, decide_quantized) at h in
            elim (Bool-cases (ltb (u / bw) (rel / bw))) [
              | inl below ↦
                  let l : u < rel = o.0 (ltb→lt _ _ below) in
                  sym (compare_below op v (value t k) (omega arith) ∙ some_inj (rw below at h'))
              | inr nb ↦ elim (Bool-cases (ltb (rel / bw) (u / bw))) [
                | inl above ↦
                    let l : rel < u = o.1 (ltb→lt _ _ above) in
                    sym (
                      compare_above op v (value t k) (omega arith)
                      ∙ some_inj (rw (nb, above) at h'))
                | inr na ↦
                    equal_bucket op v (value t k) u rel bw b (omega arith) (o.2 (ground arith)) o.3
                      (rw (nb, na) at h')
              ]
            ]
      ]
