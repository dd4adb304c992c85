-- ===== src/Liquid/Hybrid/Total.antt =====
-- The outcomes of the loops of `try_eval_predicate_inner` on squeezed integer arrays.
use liquid_cache.Prelude.{
  ℕ, ◌≡◌, refl, Bool, true, false, Option, none, some, List, [], ◌∷◌, ◌⊎◌, inl, inr, Option-cases,
}
use liquid_cache.Liquid.{PrimitiveType, Slot, Operator}
use liquid_cache.Liquid.BitPack.{BitPacking, to_primitive}
use liquid_cache.Liquid.Hybrid.{
  Hybrid, clamped, bucketed, SqueezeResult, ok, needs_backing, push, eval_slots, eval_clamped,
  eval_quantized, eval_native, decide_clamped, decide_quantized, sentinel_of,
}

abbrev pub IsDecided : SqueezeResult → Type 0
IsDecided r = (r ≡ needs_backing) ⊎ ((mask : List (Bool × Bool)) × (r ≡ ok (some mask)))

push-IsDecided : (slot : Bool × Bool) (r : SqueezeResult) → IsDecided r → IsDecided (push slot r)
unfolding push
push-IsDecided slot needs_backing d = inl refl
push-IsDecided slot (ok (some mask)) d = inr (slot ∷ mask, refl)
push-IsDecided slot (ok none) (inl e) = inl cc
push-IsDecided slot (ok none) (inr (mask, e)) = inl cc

eval_slots-IsDecided :
    (decide : ℕ → Option Bool) (slots : List Slot) → IsDecided (eval_slots decide slots)
unfolding eval_slots
eval_slots-IsDecided decide [] = inr ([], refl)
eval_slots-IsDecided decide ((false, u) ∷ slots) =
    push-IsDecided (false, false) (eval_slots decide slots) (eval_slots-IsDecided decide slots)
eval_slots-IsDecided decide ((true, u) ∷ slots) = elim (Option-cases (decide u)) [
  | inl e ↦ rw (e, eval_slots) (inl refl)
  | inr (b, e) ↦
      rw (e, eval_slots)
        (push-IsDecided (true, b) (eval_slots decide slots) (eval_slots-IsDecided decide slots))
]

width-IsDecided :
    (eval : ℕ → SqueezeResult) (bit_width : Option ℕ)
    → ((bw : ℕ) → IsDecided (eval bw))
    → IsDecided (elim bit_width [ none ↦ needs_backing | some bw ↦ eval bw ])
width-IsDecided eval none d = inl refl
width-IsDecided eval (some bw) d = d bw

pub eval_native-IsDecided :
    (t : PrimitiveType) (f : BitPacking) (h : Hybrid) (op : Operator) (k : ℕ)
    → IsDecided (eval_native t f h op k)
unfolding eval_native eval_clamped eval_quantized
eval_native-IsDecided t f (clamped a) op k =
    let eval : ℕ → SqueezeResult = λ bw.
      eval_slots (decide_clamped t op a.reference_value (sentinel_of t bw) k)
        (to_primitive t f a.squeezed) in
    width-IsDecided eval a.squeezed.bit_width (λ bw.
      eval_slots-IsDecided (decide_clamped t op a.reference_value (sentinel_of t bw) k)
        (to_primitive t f a.squeezed))
eval_native-IsDecided t f (bucketed a) op k =
    eval_slots-IsDecided (decide_quantized t op a.reference_value a.bucket_width k)
      (to_primitive t f a.quantized)
