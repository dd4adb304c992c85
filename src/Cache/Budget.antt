-- ===== src/Cache/Budget.antt =====
-- src/storage/src/cache/budget.rs: the memory and disk accounting. The counters are `usize`s.
pub mod Laws
pub mod Threads
use liquid_cache.Prelude.{
  ℕ, ◌-◌, Option, none, some, ltb, ◌==◌, if◌then◌else◌, add_usize, sub_usize,
}

pub record BudgetAccounting : Type 0 where
  pub max_memory_bytes : ℕ
  pub used_memory_bytes : ℕ
  pub used_disk_bytes : ℕ

unfoldable pub new : ℕ → BudgetAccounting
new max_memory_bytes = record {
  max_memory_bytes = max_memory_bytes;
  used_memory_bytes = 0;
  used_disk_bytes = 0;
}

unfoldable pub reset_usage : BudgetAccounting → BudgetAccounting
reset_usage b = record b { used_memory_bytes = 0; used_disk_bytes = 0 }

-- The first part of `try_reserve_memory`: the load and the test. The result is the value that the
-- exchange expects; `none` is `Err(())`.
unfoldable pub load_and_check : BudgetAccounting → ℕ → Option ℕ
load_and_check b request_bytes =
    if ltb b.max_memory_bytes (add_usize b.used_memory_bytes request_bytes)
    then none
    else some b.used_memory_bytes

-- The second part: the exchange. `none` means that another thread has changed the counter.
unfoldable pub compare_exchange : BudgetAccounting → ℕ → ℕ → Option BudgetAccounting
compare_exchange b used new_used =
    if b.used_memory_bytes == used then some (record b { used_memory_bytes = new_used }) else none

-- `try_reserve_memory` when no other thread runs between the load and the exchange; `none` is
-- `Err(())`, and the budget stays as it was. `Threads` has the interleavings.
unfoldable pub try_reserve_memory : BudgetAccounting → ℕ → Option BudgetAccounting
unfolding load_and_check compare_exchange
try_reserve_memory b request_bytes = elim (load_and_check b request_bytes) [
  | none ↦ none
  | some used ↦ compare_exchange b used (add_usize used request_bytes)
]

unfoldable pub try_update_memory_usage : BudgetAccounting → ℕ → ℕ → Option BudgetAccounting
unfolding try_reserve_memory
try_update_memory_usage b old_size new_size =
    if ltb old_size new_size
    then try_reserve_memory b (new_size - old_size)
    else some (record b { used_memory_bytes = sub_usize b.used_memory_bytes (old_size - new_size) })

unfoldable pub add_used_disk_bytes : BudgetAccounting → ℕ → BudgetAccounting
add_used_disk_bytes b bytes = record b { used_disk_bytes = add_usize b.used_disk_bytes bytes }
