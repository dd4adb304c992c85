-- ===== src/Cache/Policy/ThreeQueue.antt =====
-- src/storage/src/cache/policies/cache/three_queue.rs: `LiquidPolicy`, a queue for each format.
-- An intrusive list is the list of the identifiers in its nodes, head first, and the map takes an
-- identifier to the queue that its node names. A panic by `expect` is `none`.
pub mod Places
pub mod Victims
pub mod Drains
use liquid_cache.Prelude.{
  ℕ, zero, suc, Option, none, some, List, [], ◌∷◌, ◌++◌, lookup, insert, delete, remove,
}
use liquid_cache.Cache.Entry.{CachedBatchType}

pub data QueueKind : Type 0 where
  arrow liquid squeezed disk : QueueKind

pub record LiquidQueueState : Type 0 where
  pub map : List (ℕ × QueueKind)
  pub arrow_list : List ℕ
  pub liquid_list : List ℕ
  pub squeezed_list : List ℕ
  pub disk_list : List ℕ

unfoldable pub new : LiquidQueueState
new = record { map = []; arrow_list = []; liquid_list = []; squeezed_list = []; disk_list = [] }

-- `list_mut`: reading and writing the list of a queue.
unfoldable pub list_of : QueueKind → LiquidQueueState → List ℕ
list_of arrow s = s.arrow_list
list_of liquid s = s.liquid_list
list_of squeezed s = s.squeezed_list
list_of disk s = s.disk_list

unfoldable pub with_list : QueueKind → List ℕ → LiquidQueueState → LiquidQueueState
with_list arrow l s = record s { arrow_list = l }
with_list liquid l s = record s { liquid_list = l }
with_list squeezed l s = record s { squeezed_list = l }
with_list disk l s = record s { disk_list = l }

-- The node names its new queue, and goes to that queue's end.
unfoldable pub push_back : QueueKind → ℕ → LiquidQueueState → LiquidQueueState
unfolding list_of with_list
push_back queue id s =
    with_list queue (list_of queue s ++ id ∷ []) (record s { map = insert id queue s.map })

-- The node of `id`, which names `queue`, leaves that queue.
unfoldable pub detach : QueueKind → ℕ → LiquidQueueState → LiquidQueueState
unfolding list_of with_list
detach queue id s = with_list queue (remove id (list_of queue s)) s

unfoldable pub upsert_into_queue : ℕ → QueueKind → LiquidQueueState → LiquidQueueState
unfolding push_back detach
upsert_into_queue id target s = elim (lookup id s.map) [
  | some queue ↦ push_back target id (detach queue id s)
  | none ↦ push_back target id s
]

-- The popped identifier, if the queue has one, and the state.
unfoldable pub pop_front : QueueKind → LiquidQueueState → Option (Option ℕ × LiquidQueueState)
unfolding list_of with_list
pop_front queue s = elim (list_of queue s) [
  | [] ↦ some (none, s)
  | id ∷ rest ↦ elim (lookup id s.map) [
    | none ↦ none
    | some q ↦
        some (some id, with_list queue (remove id (id ∷ rest)) (record s { map = delete id s.map }))
  ]
]

-- The queue of a format, in `notify_insert`.
unfoldable pub target_queue : CachedBatchType → QueueKind
target_queue CachedBatchType.memory_arrow = arrow
target_queue CachedBatchType.memory_liquid = liquid
target_queue CachedBatchType.memory_squeezed_liquid = squeezed
target_queue CachedBatchType.disk_liquid = disk
target_queue CachedBatchType.disk_arrow = disk

unfoldable pub notify_insert : ℕ → CachedBatchType → LiquidQueueState → LiquidQueueState
unfolding upsert_into_queue target_queue
notify_insert id batch_type s = upsert_into_queue id (target_queue batch_type) s

-- One round of the loop of `find_victim`: the three queues of memory in their order. `none` in the
-- result is the `break`.
unfoldable pub next_victim : LiquidQueueState → Option (Option ℕ × LiquidQueueState)
unfolding pop_front
next_victim s = elim (pop_front arrow s) [
  | none ↦ none
  | some (some id, s1) ↦ some (some id, s1)
  | some (none, s1) ↦ elim (pop_front liquid s1) [
    | none ↦ none
    | some (some id, s2) ↦ some (some id, s2)
    | some (none, s2) ↦ pop_front squeezed s2
  ]
]

-- `find_victim`: `cnt` is what is left to find.
unfoldable pub find_victim : ℕ → LiquidQueueState → Option (List ℕ × LiquidQueueState)
unfolding next_victim
find_victim zero s = some ([], s)
find_victim (suc cnt) s = elim (next_victim s) [
  | none ↦ none
  | some (none, s1) ↦ some ([], s1)
  | some (some id, s1) ↦ elim (find_victim cnt s1) [
    | none ↦ none
    | some (ids, s2) ↦ some (id ∷ ids, s2)
  ]
]

unfoldable pub notify_access : ℕ → CachedBatchType → LiquidQueueState → LiquidQueueState
notify_access id batch_type s = s
