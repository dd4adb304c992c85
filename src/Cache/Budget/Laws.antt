-- ===== src/Cache/Budget/Laws.antt =====
-- The accounting in one thread.
use liquid_cache.Prelude.{
  ℕ, ◌+◌, ◌-◌, ◌≤◌, ◌<◌, ◌≡◌, none, some, ltb, if◌then◌else◌, arith, isize_limit, add_usize,
  sub_usize,
}
use liquid_cache.Cache.Budget.{BudgetAccounting, try_reserve_memory, try_update_memory_usage}

-- The budget is not exceeded. The limit is a possible allocation, so that sums do not wrap.
pub record IsWithin (b : BudgetAccounting) : Type 0 where
  pub limit : b.max_memory_bytes < isize_limit
  pub used : b.used_memory_bytes ≤ b.max_memory_bytes

-- A reservation is granted exactly when the request fits beside what is used, and then the
-- request is added to the counter and nothing else changes.
pub try_reserve_memory_lem :
    (b : BudgetAccounting) (request : ℕ)
    → IsWithin b
    → request < isize_limit
    → try_reserve_memory b request ≡ (
        if ltb b.max_memory_bytes (b.used_memory_bytes + request)
        then none
        else some (record b { used_memory_bytes = b.used_memory_bytes + request }))
unfolding try_reserve_memory add_usize
try_reserve_memory_lem b request w h = ground arith

-- An update of an entry from `old` bytes, which the counter holds, to `new` bytes is refused
-- exactly when the counter without the old bytes and with the new ones would exceed the limit,
-- and otherwise sets the counter to that sum.
pub try_update_memory_usage_lem :
    (b : BudgetAccounting) (old new : ℕ)
    → IsWithin b
    → old ≤ b.used_memory_bytes
    → new < isize_limit
    → try_update_memory_usage b old new ≡ (
        if ltb b.max_memory_bytes (b.used_memory_bytes - old + new)
        then none
        else some (record b { used_memory_bytes = b.used_memory_bytes - old + new }))
unfolding try_update_memory_usage try_reserve_memory add_usize sub_usize
try_update_memory_usage_lem b old new w h k = ground arith
