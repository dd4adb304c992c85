-- ===== src/Cache/Policy/S3Fifo/Ghosts.antt =====
-- Identifiers that come back from the ghost queue of `S3FifoPolicy`.
use liquid_cache.Prelude.{
  ℕ, ◌+◌, ◌≡◌, refl, ap, ◌∙◌, true, false, none, List, [], ◌∷◌, arith, lookup, count, remove,
  is_some, add_usize,
}
use liquid_cache.Cache.Entry.{CachedBatchType}
use liquid_cache.Cache.Policy.S3Fifo.{
  S3FifoState, contains, check_if_entry_exists_in_small_or_main, entry_size, inc_main_queue_size,
  inc_small_queue_size, notify_insert, notify_access,
}

contains-remove : (id : ℕ) (xs : List ℕ) → contains id (remove id xs) ≡ false
unfolding contains
contains-remove id [] = refl
contains-remove id (x ∷ xs) = ground (arith, contains-remove id xs)

-- The state after the insertion of a ghost.
abbrev returned : ℕ → S3FifoState → S3FifoState
returned id s = record s {
  main = id ∷ s.main;
  ghost = remove id s.ghost;
  ghost_set = remove id s.ghost_set;
  main_queue_size = add_usize s.main_queue_size 1;
  total_size = add_usize s.total_size 1;
}

notify_insert-ghost :
    (id : ℕ) (t : CachedBatchType) (s : S3FifoState)
    → contains id s.ghost_set ≡ true
    → lookup id s.frequency ≡ none
    → notify_insert id t s ≡ returned id s
unfolding notify_insert check_if_entry_exists_in_small_or_main is_some entry_size
    inc_main_queue_size
notify_insert-ghost id t s g f = rw (f, g) refl

-- An identifier that is neither a ghost nor has a frequency is taken for a new one.
notify_insert-unknown :
    (id : ℕ) (t : CachedBatchType) (s : S3FifoState)
    → contains id s.ghost_set ≡ false
    → lookup id s.frequency ≡ none
    → (notify_access id t s ≡ s)
      × ((notify_insert id t s).main ≡ s.main)
      × ((notify_insert id t s).small ≡ id ∷ s.small)
unfolding notify_insert notify_access check_if_entry_exists_in_small_or_main is_some entry_size
    inc_small_queue_size
notify_insert-unknown id t s g f = rw (f, g) (refl, refl, refl)

count-cons : (id : ℕ) (l : List ℕ) → count id (id ∷ l) ≡ count id l + 1
count-cons id l = ground arith

-- An identifier in the ghost queue, which has no frequency, is inserted into the main queue still
-- without one. So an access of it counts for nothing, and the next notification of an insertion
-- puts it into the small queue as well: the policy tracks it twice.
pub notify_insert-ghost_twice :
    (id : ℕ) (t u : CachedBatchType) (s : S3FifoState)
    → contains id s.ghost_set ≡ true
    → lookup id s.frequency ≡ none
    → let s1 = notify_insert id t s in
      let s2 = notify_insert id u s1 in
      (notify_access id u s1 ≡ s1)
      × (count id s2.main ≡ count id s.main + 1)
      × (count id s2.small ≡ count id s.small + 1)
notify_insert-ghost_twice id t u s g f =
    let (known, main, small) =
      notify_insert-unknown id u (returned id s) (contains-remove id s.ghost_set) f in
    rw (notify_insert-ghost id t s g f) (
      known,
      ap (count id) main ∙ count-cons id s.main,
      ap (count id) small ∙ count-cons id s.small,
    )
