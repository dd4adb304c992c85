-- ===== src/Cache/Budget/Threads.antt =====
-- `try_reserve_memory` and `try_update_memory_usage` with other threads in between: each load,
-- exchange and `fetch_sub` of the counter is one step, and steps of all threads interleave.
use liquid_cache.Prelude.{
  ℕ, ◌+◌, ◌-◌, ◌≤◌, ◌<◌, ◌≡◌, none, some, ◌==◌, if◌then◌else◌, arith, isize_limit, add_usize,
  sub_usize,
}
use liquid_cache.Cache.Budget.{BudgetAccounting, load_and_check, compare_exchange}
use liquid_cache.Cache.Budget.Laws.{IsWithin}

-- Where a thread stands in `try_reserve_memory`: outside, or between the load and the exchange.
pub data Phase : Type 0 where
  outside : Phase
  loaded : (request used : ℕ) → Phase

-- The shared counters, each thread's phase, and the bytes that reservations have been granted
-- for and that have not been given back (which no code stores).
pub record Threads : Type 0 where
  pub budget : BudgetAccounting
  pub phase : ℕ → Phase
  pub held : ℕ

abbrev pub at : (ℕ → Phase) → ℕ → Phase → ℕ → Phase
at phase t p u = if t == u then p else phase u

pub data Step (s : Threads) : Threads → Type 0 where
  -- The load, when the test passes. A request is the size of an allocation.
  load :
      (t request used : ℕ)
      → request < isize_limit
      → s.phase t ≡ Phase.outside
      → load_and_check s.budget request ≡ some used
      → Step s (record s { phase = at s.phase t (loaded request used) })
  -- The exchange succeeds: the reservation is granted.
  exchange :
      (t request used : ℕ) (b : BudgetAccounting)
      → s.phase t ≡ loaded request used
      → compare_exchange s.budget used (add_usize used request) ≡ some b
      → Step s (record { budget = b; phase = at s.phase t Phase.outside; held = s.held + request })
  -- The exchange fails, and the function calls itself.
  retry :
      (t request used : ℕ)
      → s.phase t ≡ loaded request used
      → compare_exchange s.budget used (add_usize used request) ≡ none
      → Step s (record s { phase = at s.phase t Phase.outside })
  -- `fetch_sub`, by a thread that gives back a part of what is held.
  give_back :
      (bytes : ℕ)
      → bytes ≤ s.held
      → Step s (record s {
        budget = record (s.budget) {
          used_memory_bytes = sub_usize s.budget.used_memory_bytes bytes;
        };
        held = s.held - bytes;
      })

pub data Reach (s : Threads) : Threads → Type 0 where
  here : Reach s s
  next : {t u : Threads} → Reach s t → Step t u → Reach s u

-- The counter is what is held, within the limit, and what a thread has loaded has passed the test.
pub record IsSound (s : Threads) : Type 0 where
  pub within : IsWithin s.budget
  pub exact : s.budget.used_memory_bytes ≡ s.held
  pub checked :
      (t request used : ℕ)
      → s.phase t ≡ loaded request used
      → used + request ≤ s.budget.max_memory_bytes

Step-IsSound : {s s' : Threads} → Step s s' → IsSound s → IsSound s'
unfolding load_and_check compare_exchange add_usize sub_usize
Step-IsSound {s} (load t request used small idle passed) v = record {
  within = v.within;
  exact = v.exact;
  checked = λ u r n e. ground (arith, v.checked u r n, v.within);
}
Step-IsSound {s} (exchange t request used b at_exchange done) v = record {
  within = ground (arith, v.checked t request used at_exchange, v.within);
  exact = ground (arith, v.checked t request used at_exchange, v.within);
  checked = λ u r n e. ground (arith, v.checked u r n);
}
Step-IsSound {s} (retry t request used at_exchange failed) v = record {
  within = v.within;
  exact = v.exact;
  checked = λ u r n e. ground (arith, v.checked u r n);
}
Step-IsSound {s} (give_back bytes fits) v = record {
  within = ground (arith, v.within);
  exact = ground (arith, v.within, v.exact);
  checked = v.checked;
}

-- In every interleaving the counter never exceeds the limit, and is exactly the bytes granted and
-- not given back: no update is lost.
pub Reach-IsSound : {s s' : Threads} → IsSound s → Reach s s' → IsSound s'
Reach-IsSound v here = v
Reach-IsSound v (next r st) = Step-IsSound st (Reach-IsSound v r)
