-- ===== src/Ids/Words.antt =====
-- Packing of an identifier into a machine word, and back.
use liquid_cache.Prelude.{ℕ, ◌+◌, ◌*◌, ◌^◌, ◌<◌, ◌≡◌, refl, ◌∙◌, arith}
use liquid_cache.Prelude.Bits.{bit_or-eq-add}
use liquid_cache.Ids.{ParquetArrayId, IsU16, to_usize, of_usize}

-- The fields of the word do not overlap.
pub to_usize-eq-sum :
    (id : ParquetArrayId)
    → IsU16 id
    → to_usize id ≡ id.file_id * 2 ^ 48 + id.rg_id * 2 ^ 32 + id.col_id * 2 ^ 16 + id.batch_id.v
unfolding to_usize
to_usize-eq-sum id h = rw (
  bit_or-eq-add 48 id.file_id (id.rg_id * 2 ^ 32) (id.file_id * 2 ^ 48) refl (omega arith),
  bit_or-eq-add 32 (id.file_id * 2 ^ 16 + id.rg_id) (id.col_id * 2 ^ 16)
      (id.file_id * 2 ^ 48 + id.rg_id * 2 ^ 32) (omega arith) (omega arith),
  bit_or-eq-add 16 (id.file_id * 2 ^ 32 + id.rg_id * 2 ^ 16 + id.col_id) id.batch_id.v
      (id.file_id * 2 ^ 48 + id.rg_id * 2 ^ 32 + id.col_id * 2 ^ 16) (omega arith) (omega arith),
)

-- Unpacking a packed identifier gives it back.
pub of_usize-to_usize : (id : ParquetArrayId) → IsU16 id → of_usize (to_usize id) ≡ id
unfolding of_usize
of_usize-to_usize id h = rw (to_usize-eq-sum id h) (ground arith)

of_usize-IsU16 : (value : ℕ) → IsU16 (of_usize value)
unfolding of_usize
of_usize-IsU16 value = omega arith

-- Packing an unpacked word of 64 bits gives it back.
pub to_usize-of_usize : (value : ℕ) → value < 2 ^ 64 → to_usize (of_usize value) ≡ value
unfolding of_usize
to_usize-of_usize value h = to_usize-eq-sum (of_usize value) (of_usize-IsU16 value) ∙ omega arith
