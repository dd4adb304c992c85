-- ===== src/Ids/Tests.antt =====
-- The theorems on the identifiers, at concrete ones.
use liquid_cache.Prelude.{◌+◌, ◌*◌, ◌/◌, ◌^◌, ◌<◌, ◌≡◌, refl, ◌↔◌, arith}
use liquid_cache.Ids.{
  BatchId, ParquetArrayId, IsU16, u16_mod, to_usize, of_usize, new, from_row_id, disk_path,
}
use liquid_cache.Ids.Words.{of_usize-to_usize, to_usize-of_usize}
use liquid_cache.Ids.Paths.{disk_path-injective, from_row_id_lem, new_aliases}

abbrev fourth : BatchId
fourth = record { v = 4 }

abbrev some_id : ParquetArrayId
some_id = record { file_id = 1; rg_id = 2; col_id = 3; batch_id = fourth }

some_id-IsU16 : IsU16 some_id
some_id-IsU16 = omega arith

of_usize-to_usize_example : of_usize (to_usize some_id) ≡ some_id
of_usize-to_usize_example = of_usize-to_usize some_id some_id-IsU16

to_usize-of_usize_example : to_usize (of_usize 123456789) ≡ 123456789
to_usize-of_usize_example = to_usize-of_usize 123456789 (omega arith)

same_path : disk_path (to_usize some_id) ≡ disk_path 281483566841860
unfolding to_usize
same_path = refl

below : to_usize some_id < 2 ^ 64
unfolding to_usize
below = omega arith

disk_path-injective_example : to_usize some_id ≡ 281483566841860
disk_path-injective_example =
    disk_path-injective (to_usize some_id) 281483566841860 below (omega arith) same_path

from_row_id_lem_example :
    (from_row_id 100 8192 ≡ from_row_id 9000 8192) ↔ (100 / 8192 ≡ 9000 / 8192)
from_row_id_lem_example = from_row_id_lem 100 9000 8192 (omega arith) (omega arith) (omega arith)

new_aliases_example : to_usize (new (5 + 1 * u16_mod) 2 3 fourth) ≡ to_usize (new 5 2 3 fourth)
new_aliases_example = new_aliases 5 1 2 3 fourth
