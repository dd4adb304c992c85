-- ===== src/Liquid/BitPack/RoundTrip.antt =====
-- `BitPackedArray::to_primitive` after `BitPackedArray::from_primitive`.
use mathlib.Core.List.{map-append}
use native.Mathlib.Nat.{zero-mul}
use liquid_cache.Prelude.{
  ℕ, zero, suc, ◌+◌, ◌-◌, ◌*◌, ◌/◌, ◌%◌, ◌^◌, ◌≤◌, ◌≡◌, refl, sym, ap, ◌∙◌, true, false, List, [],
  ◌∷◌, ◌++◌, ◌==◌, length, take, drop, map, arith, length-append, append_assoc, append_nil,
  length-take, length-drop, length-replicate, replicate, Bool-cases, inl, inr, if◌then◌else◌,
}
use liquid_cache.Liquid.{PrimitiveType, Slot, bits}
use liquid_cache.Liquid.BitPack.{
  BitPacking, PacksLosslessly, chunk_len, packed_len, last_chunk, pack_values, unpack_values,
  from_primitive, to_primitive, validity, stored, slots_of,
}
use liquid_cache.Liquid.BitPack.Chunks.{
  chunks, chunks-append, for_each_chunk-eq-chunks, take_all, drop_all, take-append, drop-append,
  take_append_drop,
}

-- the values of an array at `w` bits
abbrev pub low_bits : ℕ → List ℕ → List ℕ
low_bits w xs = map (λ x. x % 2 ^ w) xs

-- the slots of an array with their values at `w` bits
abbrev pub low_slots : ℕ → List Slot → List Slot
low_slots w [] = []
low_slots w ((valid, v) ∷ slots) = (valid, v % 2 ^ w) ∷ low_slots w slots

length-map {ℓ κ} :
    {A : Type ℓ} {B : Type κ} (f : A → B) (xs : List A) → length (map f xs) ≡ length xs
length-map f [] = refl
length-map f (x ∷ xs) = ap suc (length-map f xs)

length-stored : (slots : List Slot) → length (stored slots) ≡ length slots
length-stored [] = refl
length-stored ((valid, v) ∷ slots) = ap suc (length-stored slots)

slots_of_low :
    (w : ℕ) (slots : List Slot)
    → slots_of (validity slots) (low_bits w (stored slots)) ≡ low_slots w slots
slots_of_low w [] = refl
slots_of_low w ((valid, v) ∷ slots) = ap (λ l. (valid, v % 2 ^ w) ∷ l) (slots_of_low w slots)

module _ (t : PrimitiveType) (f : BitPacking) (laws : PacksLosslessly t f) (w : ℕ) (pos : 1 ≤ w)
    (fits : w ≤ bits t) where
  whole_blocks :
      (n : ℕ) (xs : List ℕ)
      → length xs ≡ n * chunk_len
      → chunks
          (f.unchecked_unpack w)
          (packed_len t w)
          n
          (chunks (f.unchecked_pack w) chunk_len n xs)
        ≡ low_bits w xs
  whole_blocks zero [] h = refl
  whole_blocks zero (x ∷ xs) h = absurd (omega arith)
  whole_blocks (suc n) xs h =
      let first = take chunk_len xs in
      let full : length first ≡ chunk_len = omega (arith, length-take chunk_len xs) in
      let left : length (drop chunk_len xs) ≡ n * chunk_len =
        omega (arith, length-drop chunk_len xs) in
      let len : length (f.unchecked_pack w first) ≡ packed_len t w =
        laws.length-pack w first pos fits full in
      let le : packed_len t w ≤ length (f.unchecked_pack w first) = omega arith in
      rw
        (
          take-append (packed_len t w) (f.unchecked_pack w first)
              (chunks (f.unchecked_pack w) chunk_len n (drop chunk_len xs)) le,
          drop-append (packed_len t w) (f.unchecked_pack w first)
              (chunks (f.unchecked_pack w) chunk_len n (drop chunk_len xs)) le,
          take_all (packed_len t w) (f.unchecked_pack w first) len,
          drop_all (packed_len t w) (f.unchecked_pack w first) len,
          laws.unpack-pack w first pos fits full,
          whole_blocks n (drop chunk_len xs) left,
        )
        (sym (map-append (λ x. x % 2 ^ w) first (drop chunk_len xs))
          ∙ ap (low_bits w) (take_append_drop chunk_len xs))

  abbrev pack : List ℕ → List ℕ
  pack = f.unchecked_pack w

  -- The values that are not in a whole block are packed with zeros after them.
  abbrev padding : List ℕ → List ℕ
  padding xs =
      if length xs % chunk_len == 0 then [] else replicate (chunk_len - length xs % chunk_len) 0

  abbrev num_chunks : List ℕ → ℕ
  num_chunks xs = (length xs + (chunk_len - 1)) / chunk_len

  length-padding : (xs : List ℕ) → length (xs ++ padding xs) ≡ num_chunks xs * chunk_len
  length-padding xs = ground (
    arith,
    length-append xs (padding xs),
    length-replicate {A = ℕ} (chunk_len - length xs % chunk_len) 0,
  )

  pack_values-eq-chunks :
      (xs : List ℕ)
      → pack_values t f w xs ≡ chunks pack chunk_len (num_chunks xs) (xs ++ padding xs)
  unfolding pack_values last_chunk
  pack_values-eq-chunks xs =
      let n = length xs / chunk_len in
      let r = length xs % chunk_len in
      let start : drop (0 * chunk_len) xs ≡ xs = refl in
      elim (Bool-cases (r == 0)) [
        | inl even ↦
            let e : num_chunks xs ≡ n = ground arith in
            let b : (num_chunks xs == n) ≡ true = ground arith in
            rw (for_each_chunk-eq-chunks pack chunk_len n 0 xs, start, even, b, e)
              (append_nil _ ∙ sym (ap (chunks pack chunk_len n) (append_nil xs)))
        | inr odd ↦
            let e : num_chunks xs ≡ suc n = ground arith in
            let b : (num_chunks xs == n) ≡ false = ground arith in
            let whole = take (n * chunk_len) xs in
            let k : length xs - r ≡ n * chunk_len = omega arith in
            let zeros : List ℕ = replicate (chunk_len - r) 0 in
            let rest = drop (n * chunk_len) xs in
            let split : whole ++ rest ≡ xs = take_append_drop (n * chunk_len) xs in
            let len : length whole ≡ n * chunk_len =
              omega (arith, length-take (n * chunk_len) xs) in
            let last : length (rest ++ zeros) ≡ chunk_len = ground (
              arith,
              length-append rest zeros,
              length-drop (n * chunk_len) xs,
              length-replicate {A = ℕ} (chunk_len - r) 0,
            ) in
            rw (for_each_chunk-eq-chunks pack chunk_len n 0 xs, start, odd, b, e, k)
              (ap (λ l. chunks pack chunk_len n l ++ pack (rest ++ zeros)) (sym split)
                ∙ chunks-append pack chunk_len n whole rest (rest ++ zeros) len last
                ∙ ap (chunks pack chunk_len (suc n))
                    (sym (append_assoc whole rest zeros) ∙ ap (λ l. l ++ zeros) split))
      ]

  -- Unpacking gives every value again at `w` bits.
  pub unpack_values-pack_values :
      (xs : List ℕ) → unpack_values t f w (length xs) (pack_values t f w xs) ≡ low_bits w xs
  unfolding unpack_values
  unpack_values-pack_values xs =
      let le : length xs ≤ length (low_bits w xs) = omega (arith, length-map (λ x. x % 2 ^ w) xs) in
      rw
        (
          pack_values-eq-chunks xs,
          for_each_chunk-eq-chunks (f.unchecked_unpack w) (packed_len t w) (num_chunks xs) 0
              (chunks pack chunk_len (num_chunks xs) (xs ++ padding xs)),
          ap (λ k. drop k (chunks pack chunk_len (num_chunks xs) (xs ++ padding xs)))
              (zero-mul (packed_len t w)),
          whole_blocks (num_chunks xs) (xs ++ padding xs) (length-padding xs),
          map-append (λ x. x % 2 ^ w) xs (padding xs),
          take-append (length xs) (low_bits w xs) (low_bits w (padding xs)) le,
        )
        (take_all (length xs) (low_bits w xs) (length-map (λ x. x % 2 ^ w) xs))

  -- Packing the values of an array at a bit width that its type has, and unpacking them, keeps
  -- the nulls and gives every value its low bits: a value that fits the width is unchanged.
  pub to_primitive-from_primitive :
      (array : List Slot) → to_primitive t f (from_primitive t f array w) ≡ low_slots w array
  unfolding to_primitive from_primitive
  to_primitive-from_primitive array =
      rw (← length-stored array, unpack_values-pack_values (stored array)) (slots_of_low w array)
