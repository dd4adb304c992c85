-- ===== src/Cache/Policy/S3Fifo/Measures.antt =====
-- The sizes that `S3FifoPolicy` keeps of its queues.
use liquid_cache.Prelude.{
  ℕ, ◌+◌, ◌<◌, ◌≡◌, inl, inr, arith, length, lookup, Bool-cases, Option-cases, usize_mod, add_usize,
}
use liquid_cache.Cache.Entry.{CachedBatchType}
use liquid_cache.Cache.Policy.S3Fifo.{
  S3FifoState, contains, check_if_entry_exists_in_small_or_main, inc_frequency,
  inc_small_queue_size, inc_main_queue_size, entry_size, notify_insert, notify_access,
}

-- The sizes are the lengths of the queues, which fit a `usize`.
pub record IsMeasured (s : S3FifoState) : Type 0 where
  pub small_size : s.small_queue_size ≡ length s.small
  pub main_size : s.main_queue_size ≡ length s.main
  pub total : s.total_size ≡ length s.small + length s.main
  pub bounded : length s.small + length s.main < usize_mod

inc_frequency-IsMeasured :
    (id : ℕ) (s : S3FifoState) → IsMeasured s → IsMeasured (inc_frequency id s)
unfolding inc_frequency
inc_frequency-IsMeasured id s h = elim (Option-cases (lookup id s.frequency)) [
  | inl e ↦ rw (e, inc_frequency) h
  | inr (f, e) ↦
      rw (e, inc_frequency)
        record {
          small_size = h.small_size;
          main_size = h.main_size;
          total = h.total;
          bounded = h.bounded;
        }
]

-- After an insertion and after an access the sizes of the queues are again their lengths, and the
-- total is their sum, if they were before and a `usize` holds one more.
pub notify_insert-IsMeasured :
    (id : ℕ) (t : CachedBatchType) (s : S3FifoState)
    → IsMeasured s
    → length s.small + length s.main + 1 < usize_mod
    → IsMeasured (notify_insert id t s) × IsMeasured (notify_access id t s)
unfolding notify_insert notify_access entry_size inc_main_queue_size inc_small_queue_size add_usize
notify_insert-IsMeasured id t s h room =
    let known = check_if_entry_exists_in_small_or_main id s in
    let counted = inc_frequency-IsMeasured id s h in
    elim (Bool-cases known) [
      | inl e ↦ rw e (counted, counted)
      | inr e ↦ elim (Bool-cases (contains id s.ghost_set)) [
        | inl g ↦
            rw (e, g)
              (
                record {
                  small_size = h.small_size;
                  main_size = omega (arith, h.main_size);
                  total = omega (arith, h.total);
                  bounded = omega arith;
                },
                h,
              )
        | inr g ↦
            rw (e, g)
              (
                record {
                  small_size = omega (arith, h.small_size);
                  main_size = h.main_size;
                  total = omega (arith, h.total);
                  bounded = omega arith;
                },
                h,
              )
      ]
    ]
