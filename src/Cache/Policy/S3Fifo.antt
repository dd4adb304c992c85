-- ===== src/Cache/Policy/S3Fifo.antt =====
-- src/storage/src/cache/policies/cache/s3_fifo.rs: `S3FifoPolicy`. A deque is the list of its
-- elements, front first; the set and the map are lists. The sizes are `usize`, whose
-- sums and differences wrap. The loops take fuel; `none` is a loop out of fuel.
pub mod Measures
pub mod Rounds
pub mod Sizes
pub mod Ghosts
use liquid_cache.Prelude.{
  ℕ, zero, suc, ◌+◌, ◌-◌, ◌==◌, Bool, true, false, not, ◌&&◌, ◌||◌, Option, none, some, List, [],
  ◌∷◌, ltb, min, if◌then◌else◌, length, remove, lookup, insert, delete, is_some, add_usize,
  sub_usize,
}
use liquid_cache.Cache.Entry.{CachedBatchType}

pub record S3FifoState : Type 0 where
  pub small : List ℕ
  pub main : List ℕ
  pub ghost : List ℕ
  pub ghost_set : List ℕ
  pub frequency : List (ℕ × ℕ)
  pub small_queue_size : ℕ
  pub main_queue_size : ℕ
  pub total_size : ℕ

unfoldable pub new : S3FifoState
new = record {
  small = [];
  main = [];
  ghost = [];
  ghost_set = [];
  frequency = [];
  small_queue_size = 0;
  main_queue_size = 0;
  total_size = 0;
}

unfoldable pub contains : ℕ → List ℕ → Bool
contains id [] = false
contains id (x ∷ xs) = (x == id) || contains id xs

unfoldable pub cap_frequency : ℕ → ℕ
cap_frequency freq = min freq 3

unfoldable pub inc_frequency : ℕ → S3FifoState → S3FifoState
unfolding cap_frequency
inc_frequency id s = elim (lookup id s.frequency) [
  | some freq ↦ record s { frequency = insert id (cap_frequency (freq + 1)) s.frequency }
  | none ↦ s
]

unfoldable pub dec_frequency : ℕ → S3FifoState → S3FifoState
dec_frequency id s = elim (lookup id s.frequency) [
  | some freq ↦ record s { frequency = insert id (freq - 1) s.frequency }
  | none ↦ s
]

unfoldable pub inc_small_queue_size : ℕ → S3FifoState → S3FifoState
inc_small_queue_size size s = record s {
  small_queue_size = add_usize s.small_queue_size size;
  total_size = add_usize s.total_size size;
}

unfoldable pub dec_small_queue_size : ℕ → S3FifoState → S3FifoState
dec_small_queue_size size s = record s {
  small_queue_size = sub_usize s.small_queue_size size;
  total_size = sub_usize s.total_size size;
}

unfoldable pub inc_main_queue_size : ℕ → S3FifoState → S3FifoState
inc_main_queue_size size s = record s {
  main_queue_size = add_usize s.main_queue_size size;
  total_size = add_usize s.total_size size;
}

unfoldable pub dec_main_queue_size : ℕ → S3FifoState → S3FifoState
dec_main_queue_size size s = record s {
  main_queue_size = sub_usize s.main_queue_size size;
  total_size = sub_usize s.total_size size;
}

unfoldable pub check_if_entry_exists_in_small_or_main : ℕ → S3FifoState → Bool
unfolding is_some contains
check_if_entry_exists_in_small_or_main id s =
    is_some (lookup id s.frequency) && not (contains id s.ghost_set)

unfoldable pub entry_size : ℕ → ℕ
entry_size id = 1

-- `pop_back`: the last element and the others.
unfoldable pub pop_back : List ℕ → Option (ℕ × List ℕ)
pop_back [] = none
pop_back (x ∷ xs) = elim (pop_back xs) [ none ↦ some (x, []) | some (y, ys) ↦ some (y, x ∷ ys) ]

-- `frequency.get(..).copied().unwrap_or(0)`.
unfoldable pub freq_of : ℕ → S3FifoState → ℕ
freq_of id s = elim (lookup id s.frequency) [ some freq ↦ freq | none ↦ 0 ]

-- One round of the loop of `evict_from_small`, for the element that it has popped: `true` if it is
-- the victim.
unfoldable pub small_round : ℕ → List ℕ → S3FifoState → Bool × S3FifoState
unfolding freq_of entry_size dec_small_queue_size inc_main_queue_size
small_round element rest s =
    let s1 = dec_small_queue_size (entry_size element) (record s { small = rest }) in
    if ltb 1 (freq_of element s)
    then (
      false,
      (let s2 = inc_main_queue_size (entry_size element) (record s1 { main = element ∷ s1.main }) in
          record s2 { frequency = insert element 0 s2.frequency }),
    )
    else (
      true,
      record s1 {
        ghost = element ∷ s1.ghost;
        ghost_set = element ∷ remove element s1.ghost_set;
        frequency = delete element s1.frequency;
      },
    )

unfoldable pub evict_from_small : ℕ → S3FifoState → Option (Option ℕ × S3FifoState)
unfolding pop_back small_round
evict_from_small zero s = none
evict_from_small (suc fuel) s = elim (pop_back s.small) [
  | none ↦ some (none, s)
  | some (element, rest) ↦
      let (evicted, s1) = small_round element rest s in
      let later = evict_from_small fuel s1 in if evicted then some (some element, s1) else later
]

unfoldable pub main_round : ℕ → List ℕ → S3FifoState → Bool × S3FifoState
unfolding freq_of entry_size dec_main_queue_size inc_main_queue_size dec_frequency
main_round element rest s =
    let s1 = dec_main_queue_size (entry_size element) (record s { main = rest }) in
    if ltb 0 (freq_of element s)
    then (
      false,
      inc_main_queue_size (entry_size element)
          (dec_frequency element (record s1 { main = element ∷ s1.main })),
    )
    else (true, record s1 { frequency = delete element s1.frequency })

unfoldable pub evict_from_main : ℕ → S3FifoState → Option (Option ℕ × S3FifoState)
unfolding pop_back main_round
evict_from_main zero s = none
evict_from_main (suc fuel) s = elim (pop_back s.main) [
  | none ↦ some (none, s)
  | some (element, rest) ↦
      let (evicted, s1) = main_round element rest s in
      let later = evict_from_main fuel s1 in if evicted then some (some element, s1) else later
]

unfoldable pub notify_insert : ℕ → CachedBatchType → S3FifoState → S3FifoState
unfolding check_if_entry_exists_in_small_or_main inc_frequency contains entry_size
    inc_main_queue_size inc_small_queue_size
notify_insert id batch_type s =
    if check_if_entry_exists_in_small_or_main id s
    then inc_frequency id s
    else if contains id s.ghost_set
    then inc_main_queue_size (entry_size id) (record s {
      ghost_set = remove id s.ghost_set;
      ghost = remove id s.ghost;
      main = id ∷ s.main;
    })
    else (let s1 = inc_small_queue_size (entry_size id) (record s { small = id ∷ s.small }) in
        record s1 { frequency = insert id 0 s1.frequency })

unfoldable pub notify_access : ℕ → CachedBatchType → S3FifoState → S3FifoState
unfolding check_if_entry_exists_in_small_or_main inc_frequency
notify_access id batch_type s =
    if check_if_entry_exists_in_small_or_main id s then inc_frequency id s else s

-- `find_victim`, over the comparison of `small_queue_fraction` with the threshold, which is of
-- floating point numbers: `is_large small total`. `rounds` is the fuel of the two inner loops.
unfoldable pub find_victim :
    (ℕ → ℕ → Bool) → ℕ → ℕ → ℕ → S3FifoState → Option (List ℕ × S3FifoState)
unfolding evict_from_small evict_from_main
find_victim is_large rounds zero cnt s = none
find_victim is_large rounds (suc fuel) zero s = some ([], s)
find_victim is_large rounds (suc fuel) (suc cnt) s =
    if s.total_size == 0
    then some ([], s)
    else elim (if not (length s.small == 0) && is_large s.small_queue_size s.total_size
        then evict_from_small rounds s
        else evict_from_main rounds s) [
          | none ↦ none
          | some (none, s1) ↦ find_victim is_large rounds fuel (suc cnt) s1
          | some (some v, s1) ↦ elim (find_victim is_large rounds fuel cnt s1) [
            | none ↦ none
            | some (advices, s2) ↦ some (v ∷ advices, s2)
          ]
        ]
