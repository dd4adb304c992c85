-- ===== src/Liquid/Hybrid/Widths.antt =====
-- The sizes of the squeezed values of Liquid/Hybrid.antt against the squeezed bit width.
use native.Mathlib.Nat.{
  mod-eq_of_lt, pow-le-pow_right, pow-succ', mul-le-mul_right, lt-div-mul-add, div-lt_iff_lt-mul,
}
use liquid_cache.Prelude.{
  ℕ, zero, suc, ◌+◌, ◌-◌, ◌*◌, ◌/◌, ◌%◌, ◌^◌, ◌≤◌, ◌<◌, ◌≡◌, refl, List, [], ◌∷◌, ltb, leb, max,
  arith, if◌then◌else◌,
}
use liquid_cache.Liquid.{PrimitiveType, modulus, bits, Slot}
use liquid_cache.Liquid.BitPack.RoundTrip.{low_slots}
use liquid_cache.Liquid.Primitive.{map_values, All}
use liquid_cache.Liquid.Hybrid.{
  sentinel_of, bucket_width_of, bucket_of, max_offset, clamp_to, u64_mod,
}

pow_pos : (w : ℕ) → 1 ≤ 2 ^ w
pow_pos w = omega (arith, pow-le-pow_right {n = 2} (omega arith) {i = 0} {j = w} (omega arith))

pub pow-le-modulus : (t : PrimitiveType) (w : ℕ) → w ≤ bits t → 2 ^ w ≤ modulus t
unfolding modulus
pow-le-modulus t w h = pow-le-pow_right {n = 2} (omega arith) {i = w} {j = bits t} h

pub All-unit : (slots : List Slot) → All (λ v. Unit) slots
All-unit [] = tt
All-unit ((valid, v) ∷ slots) = (tt, All-unit slots)

-- Values below 2 ^ w keep all their bits.
pub low_slots-map_values :
    (w : ℕ) (g : ℕ → ℕ) (P : ℕ → Type 0)
    → ((v : ℕ) → P v → g v < 2 ^ w)
    → (slots : List Slot) → All P slots
    → low_slots w (map_values g slots) ≡ map_values g slots
low_slots-map_values w g P small [] h = refl
low_slots-map_values w g P small ((valid, v) ∷ slots) h =
    rw (mod-eq_of_lt (small v h.0), low_slots-map_values w g P small slots h.1)

pub sentinel_of-eq : (t : PrimitiveType) (w : ℕ) → w ≤ bits t → sentinel_of t w ≡ 2 ^ w - 1
unfolding sentinel_of
sentinel_of-eq t w h = mod-eq_of_lt (omega (arith, pow-le-modulus t w h, pow_pos w))

pub clamp_to-lt : (w v : ℕ) → clamp_to (2 ^ w - 1) v < 2 ^ w
clamp_to-lt w v = ground (arith, pow_pos w)

-- An even number of values that are not fewer than the saturated range is more than the largest.
covers :
    (max_off u width c h : ℕ)
    → c ≡ 2 * h
    → max_off < 2 ^ 64
    → u ≤ max_off
    → (if ltb (max_off + 1) u64_mod then max_off + 1 else u64_mod - 1) ≤ width * c
    → u < c * width
covers max_off u width c h e m k r =
    let even : width * c ≡ 2 * (width * h) = rw e (omega arith) in
    let swap : c * width ≡ width * c = omega arith in ground arith

-- The buckets cover all offsets of a 64-bit number, also where the size of their range saturates.
pub bucket_in_range :
    (max_off w u : ℕ)
    → 1 ≤ w
    → max_off < 2 ^ 64
    → u ≤ max_off
    → (0 < bucket_width_of max_off (2 ^ w)) × (u / bucket_width_of max_off (2 ^ w) < 2 ^ w)
unfolding bucket_width_of
bucket_in_range max_off zero u p h k = absurd (omega arith)
bucket_in_range max_off (suc w) u p h k =
    let c = 2 ^ suc w in
    let range = if ltb (max_off + 1) u64_mod then max_off + 1 else u64_mod - 1 in
    let quotient = (range + (c - 1)) / c in
    let width = max quotient 1 in
    let covered : range + (c - 1) < quotient * c + c =
      lt-div-mul-add (omega (arith, pow_pos (suc w))) in
    let positive : 0 < width = omega arith in
    let le : quotient * c ≤ width * c = mul-le-mul_right c (omega arith) in
    let all : u < c * width =
      covers max_off u width c (2 ^ w) (pow-succ' 2 w) h k (omega (arith, pow_pos (suc w))) in
    (positive, (div-lt_iff_lt-mul positive).1 all)

All-mono : (a b : ℕ) → a ≤ b → (slots : List Slot) → All (λ v. v ≤ a) slots → All (λ v. v ≤ b) slots
All-mono a b h [] k = tt
All-mono a b h ((valid, v) ∷ slots) k = (omega arith, All-mono a b h slots k.1)

pub max_offset-All : (slots : List Slot) → All (λ v. v ≤ max_offset slots) slots
unfolding max_offset
max_offset-All [] = tt
max_offset-All ((valid, v) ∷ slots) = (
  omega arith,
  All-mono (max_offset slots) (max v (max_offset slots)) (omega arith) slots (max_offset-All slots),
)

pub max_offset-lt :
    (m : ℕ) (slots : List Slot) → 0 < m → All (λ v. v < m) slots → max_offset slots < m
unfolding max_offset
max_offset-lt m [] p h = omega arith
max_offset-lt m ((valid, v) ∷ slots) p h = omega (arith, max_offset-lt m slots p h.1)

-- A bucket index is not clamped, and fits the squeezed width.
pub bucket_of-eq :
    (t : PrimitiveType) (max_off w u : ℕ)
    → 1 ≤ w
    → w ≤ bits t
    → max_off < 2 ^ 64
    → u ≤ max_off
    → (bucket_of (bucket_width_of max_off (2 ^ w)) (2 ^ w) u % modulus t
        ≡ u / bucket_width_of max_off (2 ^ w))
      × (bucket_of (bucket_width_of max_off (2 ^ w)) (2 ^ w) u % modulus t < 2 ^ w)
unfolding bucket_of
bucket_of-eq t max_off w u p q h k =
    let b = bucket_in_range max_off w u p h k in
    let m = pow-le-modulus t w q in
    let idx = u / bucket_width_of max_off (2 ^ w) in
    let e : (if leb (2 ^ w) idx then 2 ^ w - 1 else idx) ≡ idx = ground arith in
    let r : idx % modulus t ≡ idx = mod-eq_of_lt (omega arith) in rw (e, r) (refl, b.1)
