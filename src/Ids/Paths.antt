-- ===== src/Ids/Paths.antt =====
-- Columns, batches and files of identifiers.
use native.Mathlib.Nat.{add-div_right, div-lt_iff_lt-mul}
use liquid_cache.Prelude.{ℕ, ◌+◌, ◌*◌, ◌/◌, ◌^◌, ◌<◌, ◌≡◌, ◌↔◌, ◌%◌, sym, ap, ◌∙◌, arith}
use liquid_cache.Ids.{
  ParquetArrayId, BatchId, Component, file, rg, col, batch, to_usize, of_usize, new, from_row_id,
  inc, new_path, entry_id, path_of, on_disk_liquid_path, disk_path, u16_mod,
}
use liquid_cache.Ids.Words.{to_usize-of_usize, of_usize-to_usize}

number : Component → ℕ
number (file n) = n
number (rg n) = n
number (col n) = n
number (batch n) = n

on_disk_liquid_path-injective :
    (a b : ParquetArrayId) → on_disk_liquid_path a ≡ on_disk_liquid_path b → a ≡ b
unfolding on_disk_liquid_path
on_disk_liquid_path-injective a b e = ground arith

-- Two entries with identifiers of 64 bits never share a file on disk.
pub disk_path-injective : (a b : ℕ) → a < 2 ^ 64 → b < 2 ^ 64 → disk_path a ≡ disk_path b → a ≡ b
unfolding disk_path
disk_path-injective a b ha hb e =
    sym (to_usize-of_usize a ha)
    ∙ ap to_usize (on_disk_liquid_path-injective (of_usize a) (of_usize b) e)
    ∙ to_usize-of_usize b hb

-- The column of an entry, read from its packed identifier, is the column that it was made for,
-- and its batch is the one given, if the numbers of the column and the batch fit 16 bits.
pub path_of-entry_id :
    (file_id rg_id col_id : ℕ) (b : BatchId)
    → file_id < u16_mod
    → rg_id < u16_mod
    → col_id < u16_mod
    → b.v < u16_mod
    → let id = of_usize (to_usize (entry_id (new_path file_id rg_id col_id) b)) in
      (path_of id ≡ record { file_id = file_id; rg_id = rg_id; col_id = col_id })
      × (id.batch_id ≡ b)
unfolding path_of entry_id new_path new
path_of-entry_id f r c b hf hr hc hb =
    rw (of_usize-to_usize (entry_id (new_path f r c) b) (omega arith)) (ground arith, ground arith)

-- Row identifiers of one batch give one batch number, and those of different batches give
-- different numbers, as long as the file has at most 65536 batches.
pub from_row_id_lem :
    (r s size : ℕ)
    → 0 < size
    → r < u16_mod * size
    → s < u16_mod * size
    → (from_row_id r size ≡ from_row_id s size) ↔ (r / size ≡ s / size)
unfolding from_row_id
from_row_id_lem r s size pos hr hs =
    let small_r : r / size < u16_mod = (div-lt_iff_lt-mul pos).1 hr in
    let small_s : s / size < u16_mod = (div-lt_iff_lt-mul pos).1 hs in
    (λ e. ground arith, λ e. ground arith)

-- The batch after that of a row is the batch of the row one batch size later, also where the
-- number wraps.
pub inc-from_row_id :
    (r size : ℕ) → 0 < size → inc (from_row_id r size) ≡ from_row_id (r + size) size
unfolding inc from_row_id
inc-from_row_id r size pos = rw (add-div_right r pos) (ground arith)

-- File numbers that differ by a multiple of 65536 give one identifier.
pub new_aliases :
    (f k rg_id col_id : ℕ) (b : BatchId)
    → to_usize (new (f + k * u16_mod) rg_id col_id b) ≡ to_usize (new f rg_id col_id b)
unfolding new
new_aliases f k rg_id col_id b =
    let e : (f + k * u16_mod) % u16_mod ≡ f % u16_mod = omega arith in rw e
