-- ===== src/Ids.antt =====
-- src/parquet/src/cache/id.rs: the identifiers of batches, columns and cached arrays, and
-- src/parquet/src/io/mod.rs, `disk_path`. The integers of the source are numbers, and a cast to
-- `u16` is `% u16_mod`. The `debug_assert`s do not run in a release build and are left out.
pub mod Words
pub mod Paths
mod Tests
use liquid_cache.Prelude.{ℕ, ◌+◌, ◌*◌, ◌/◌, ◌%◌, ◌^◌, ◌<◌, List, [], ◌∷◌}
use Prim.Native.Nat.{bit_or}

abbrev pub u16_mod : ℕ
u16_mod = 2 ^ 16

-- A `u16` behind the new type.
pub record BatchId : Type 0 where
  pub v : ℕ

pub record ParquetArrayId : Type 0 where
  pub file_id : ℕ
  pub rg_id : ℕ
  pub col_id : ℕ
  pub batch_id : BatchId

pub record ColumnAccessPath : Type 0 where
  pub file_id : ℕ
  pub rg_id : ℕ
  pub col_id : ℕ

-- Each field fits its `u16`.
pub record IsU16 (id : ParquetArrayId) : Type 0 where
  pub file : id.file_id < u16_mod
  pub row_group : id.rg_id < u16_mod
  pub column : id.col_id < u16_mod
  pub batch : id.batch_id.v < u16_mod

-- `From<ParquetArrayID> for usize`.
unfoldable pub to_usize : ParquetArrayId → ℕ
to_usize id =
    bit_or (bit_or (bit_or (id.file_id * 2 ^ 48) (id.rg_id * 2 ^ 32)) (id.col_id * 2 ^ 16))
      id.batch_id.v

-- `From<usize> for ParquetArrayID`; `& 0xFFFF` is `% u16_mod`.
unfoldable pub of_usize : ℕ → ParquetArrayId
of_usize value = record {
  file_id = (value / 2 ^ 48) % u16_mod;
  rg_id = (value / 2 ^ 32) % u16_mod;
  col_id = (value / 2 ^ 16) % u16_mod;
  batch_id = record { v = value % u16_mod };
}

-- `ParquetArrayID::new`, whose arguments are `u64`.
unfoldable pub new : ℕ → ℕ → ℕ → BatchId → ParquetArrayId
new file_id row_group_id column_id batch_id = record {
  file_id = file_id % u16_mod;
  rg_id = row_group_id % u16_mod;
  col_id = column_id % u16_mod;
  batch_id = batch_id;
}

-- `BatchID::from_row_id`, for a batch size that is not 0.
unfoldable pub from_row_id : ℕ → ℕ → BatchId
from_row_id row_id batch_size = record { v = (row_id / batch_size) % u16_mod }

unfoldable pub inc : BatchId → BatchId
inc b = record { v = (b.v + 1) % u16_mod }

-- `ColumnAccessPath::new`.
unfoldable pub new_path : ℕ → ℕ → ℕ → ColumnAccessPath
new_path file_id row_group_id column_id = record {
  file_id = file_id % u16_mod;
  rg_id = row_group_id % u16_mod;
  col_id = column_id % u16_mod;
}

-- `ColumnAccessPath::entry_id`.
unfoldable pub entry_id : ColumnAccessPath → BatchId → ParquetArrayId
unfolding new
entry_id p batch_id = new p.file_id p.rg_id p.col_id batch_id

-- `From<ParquetArrayID> for ColumnAccessPath`.
unfoldable pub path_of : ParquetArrayId → ColumnAccessPath
path_of id = record {
  file_id = id.file_id % u16_mod;
  rg_id = id.rg_id % u16_mod;
  col_id = id.col_id % u16_mod;
}

-- A component of a path below the cache's root, `format!("file_{}", ..)` and so on.
pub data Component : Type 0 where
  file rg col batch : ℕ → Component

-- `on_disk_liquid_path`, below the root directory.
unfoldable pub on_disk_liquid_path : ParquetArrayId → List Component
on_disk_liquid_path id = file id.file_id ∷ rg id.rg_id ∷ col id.col_id ∷ batch id.batch_id.v ∷ []

-- `ParquetIoContext::disk_path`, below the root directory.
unfoldable pub disk_path : ℕ → List Component
unfolding of_usize on_disk_liquid_path
disk_path entry_id = on_disk_liquid_path (of_usize entry_id)
