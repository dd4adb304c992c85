-- ===== src/Liquid/BitPack.antt =====
-- src/storage/src/liquid_array/raw/bit_pack_array.rs: `BitPackedArray`, and `get_bit_width` of
-- src/storage/src/utils/mod.rs. The two operations of the fastlanes crate on blocks of 1024 values
-- are the parameter `BitPacking`, and `PacksLosslessly` states what its documentation promises.
-- The validity bits stand for the null buffer.
pub mod Chunks
pub mod RoundTrip
pub mod Widths
use liquid_cache.Prelude.{
  ℕ, zero, suc, ◌+◌, ◌-◌, ◌*◌, ◌/◌, ◌%◌, ◌^◌, ◌≤◌, ◌≡◌, Bool, true, false, Option, none, some, List,
  [], ◌∷◌, ◌++◌, ltb, ◌==◌, if◌then◌else◌, length, take, drop, replicate, map,
}
use liquid_cache.Liquid.{PrimitiveType, bits, Slot}

-- The number of leading zeros among the low `width` bits of `x`.
unfoldable pub leading_zeros : ℕ → ℕ → ℕ
leading_zeros zero x = 0
leading_zeros (suc width) x =
    let rest = leading_zeros width x in if ltb x (2 ^ width) then 1 + rest else 0

unfoldable pub get_bit_width : ℕ → ℕ
get_bit_width max_value = if max_value == 0 then 1 else 64 - leading_zeros 64 max_value

-- `BitPacking` of the fastlanes crate at one native type: the bit width comes first.
pub record BitPacking : Type 0 where
  pub unchecked_pack : ℕ → List ℕ → List ℕ
  pub unchecked_unpack : ℕ → List ℕ → List ℕ

abbrev pub chunk_len : ℕ
chunk_len = 1024

-- `(1024 * bit_width_usize).div_ceil(size_of::<T::Native>() * 8)`
unfoldable pub packed_len : PrimitiveType → ℕ → ℕ
packed_len t w = (chunk_len * w + (bits t - 1)) / bits t

-- A block of 1024 values is packed into `packed_len` words that hold the low bits of each value.
pub record PacksLosslessly (t : PrimitiveType) (f : BitPacking) : Type 0 where
  pub length-pack :
      (w : ℕ) (xs : List ℕ)
      → 1 ≤ w
      → w ≤ bits t
      → length xs ≡ chunk_len
      → length (f.unchecked_pack w xs) ≡ packed_len t w
  pub unpack-pack :
      (w : ℕ) (xs : List ℕ)
      → 1 ≤ w
      → w ≤ bits t
      → length xs ≡ chunk_len
      → f.unchecked_unpack w (f.unchecked_pack w xs) ≡ map (λ x. x % 2 ^ w) xs

pub record BitPackedArray : Type 0 where
  pub packed_values : List ℕ
  pub nulls : List Bool
  pub bit_width : Option ℕ
  pub original_len : ℕ

unfoldable pub new_null_array : ℕ → BitPackedArray
new_null_array len = record {
  packed_values = replicate len 0;
  nulls = replicate len false;
  bit_width = none;
  original_len = len;
}

-- `(i..i + n).for_each(|i| output.extend(f(&xs[i * size..][..size])))`, the loop of both ways.
unfoldable pub for_each_chunk : (List ℕ → List ℕ) → ℕ → ℕ → ℕ → List ℕ → List ℕ
for_each_chunk f size zero i xs = []
for_each_chunk f size (suc n) i xs =
    f (take size (drop (i * size) xs)) ++ for_each_chunk f size n (i + 1) xs

-- The last chunk, where it is not full: the values that are left, and zeros.
unfoldable pub last_chunk : List ℕ → List ℕ
last_chunk values =
    let last_chunk_size = length values % chunk_len in
    drop (length values - last_chunk_size) values ++ replicate (chunk_len - last_chunk_size) 0

abbrev pub validity : List Slot → List Bool
validity [] = []
validity ((valid, v) ∷ slots) = valid ∷ validity slots

abbrev pub stored : List Slot → List ℕ
stored [] = []
stored ((valid, v) ∷ slots) = v ∷ stored slots

abbrev pub slots_of : List Bool → List ℕ → List Slot
slots_of (valid ∷ nulls) (v ∷ values) = (valid, v) ∷ slots_of nulls values
slots_of _ _ = []

module _ (t : PrimitiveType) (f : BitPacking) where
  unfoldable pub pack_values : ℕ → List ℕ → List ℕ
  unfolding for_each_chunk last_chunk
  pack_values w values =
      let num_chunks = (length values + (chunk_len - 1)) / chunk_len in
      let num_full_chunks = length values / chunk_len in
      for_each_chunk (f.unchecked_pack w) chunk_len num_full_chunks 0 values
      ++ (if num_chunks == num_full_chunks then [] else f.unchecked_pack w (last_chunk values))

  unfoldable pub from_primitive : List Slot → ℕ → BitPackedArray
  unfolding pack_values
  from_primitive array w = record {
    packed_values = pack_values w (stored array);
    nulls = validity array;
    bit_width = some w;
    original_len = length array;
  }

  unfoldable pub unpack_values : ℕ → ℕ → List ℕ → List ℕ
  unfolding for_each_chunk packed_len
  unpack_values w len packed =
      let num_chunks = (len + (chunk_len - 1)) / chunk_len in
      take len (for_each_chunk (f.unchecked_unpack w) (packed_len t w) num_chunks 0 packed)

  -- An array of nulls is not unpacked.
  unfoldable pub to_primitive : BitPackedArray → List Slot
  unfolding unpack_values
  to_primitive a = elim a.bit_width [
    | none ↦ replicate a.original_len (false, 0)
    | some w ↦ slots_of a.nulls (unpack_values w a.original_len a.packed_values)
  ]
