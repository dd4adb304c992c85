-- ===== src/Cache/Policy/ThreeQueue/Places.antt =====
-- Each identifier stands once, in the queue that its node names, and nowhere else.
use liquid_cache.Prelude.{
  ℕ, ◌+◌, ◌≡◌, refl, ◌⊎◌, Option, none, some, List, [], ◌∷◌, inl, inr, arith, count, lookup, insert,
  delete, ◌==◌, if◌then◌else◌, lookup-insert, lookup-delete, count-append, count-remove,
  Option-cases, remove_absent,
}
use liquid_cache.Cache.Policy.ThreeQueue.{
  QueueKind, arrow, liquid, squeezed, disk, LiquidQueueState, new, list_of, with_list, push_back,
  detach, upsert_into_queue, pop_front,
}

-- 1 for the same queue, 0 for another.
abbrev pub same : QueueKind → QueueKind → ℕ
same arrow arrow = 1
same liquid liquid = 1
same squeezed squeezed = 1
same disk disk = 1
same _ _ = 0

abbrev pub placed : Option QueueKind → QueueKind → ℕ
placed none q = 0
placed (some r) q = same r q

abbrev pub IsPlaced : LiquidQueueState → Type 0
IsPlaced s = (q : QueueKind) (id : ℕ) → count id (list_of q s) ≡ placed (lookup id s.map) q

pub new-IsPlaced : IsPlaced new
unfolding new list_of lookup
new-IsPlaced arrow id = refl
new-IsPlaced liquid id = refl
new-IsPlaced squeezed id = refl
new-IsPlaced disk id = refl

list_of-push_back :
    (q target : QueueKind) (id a : ℕ) (s : LiquidQueueState)
    → count a (list_of q (push_back target id s))
      ≡ count a (list_of q s) + (if id == a then same target q else 0)
unfolding push_back list_of with_list
list_of-push_back q target id a s = ground (
  arith,
  count-append a s.arrow_list (id ∷ []),
  count-append a s.liquid_list (id ∷ []),
  count-append a s.squeezed_list (id ∷ []),
  count-append a s.disk_list (id ∷ []),
)

list_of-detach :
    (q r : QueueKind) (id a : ℕ) (s : LiquidQueueState)
    → count a (list_of q (detach r id s)) ≡ (
        if id == a
        then (if same r q == 1 then 0 else count a (list_of q s))
        else count a (list_of q s))
unfolding detach list_of with_list
list_of-detach q r id a s = ground (
  arith,
  count-remove id a s.arrow_list,
  count-remove id a s.liquid_list,
  count-remove id a s.squeezed_list,
  count-remove id a s.disk_list,
)

map-push_back :
    (target : QueueKind) (id : ℕ) (s : LiquidQueueState)
    → (push_back target id s).map ≡ insert id target s.map
unfolding push_back with_list
map-push_back target id s = ground arith

map-detach : (r : QueueKind) (id : ℕ) (s : LiquidQueueState) → (detach r id s).map ≡ s.map
unfolding detach with_list
map-detach r id s = ground arith

-- After an upsert the identifier's node names the target, and the other nodes are as before.
pub map-upsert_into_queue :
    (id a : ℕ) (target : QueueKind) (s : LiquidQueueState)
    → lookup a (upsert_into_queue id target s).map
      ≡ (if id == a then some target else lookup a s.map)
unfolding upsert_into_queue
map-upsert_into_queue id a target s = elim (Option-cases (lookup id s.map)) [
  | inl e ↦ rw (e, upsert_into_queue, map-push_back) (lookup-insert id a target s.map)
  | inr (q, e) ↦
      rw (e, upsert_into_queue, map-push_back, map-detach) (lookup-insert id a target s.map)
]

-- An upsert keeps a consistent state consistent: each identifier stands once, in the queue that its node
-- names, and nowhere else.
pub upsert_into_queue-IsPlaced :
    (id : ℕ) (target : QueueKind) (s : LiquidQueueState)
    → IsPlaced s
    → IsPlaced (upsert_into_queue id target s)
unfolding upsert_into_queue
upsert_into_queue-IsPlaced id target s p q a = elim (Option-cases (lookup id s.map)) [
  | inl e ↦
      ground
        (arith, e, map-upsert_into_queue id a target s, p q a, list_of-push_back q target id a s)
  | inr (r, e) ↦ ground (
    arith,
    e,
    map-upsert_into_queue id a target s,
    p q a,
    list_of-push_back q target id a (detach r id s),
    list_of-detach q r id a s,
  )
]

-- The state without the head of a queue.
unfoldable pub popped : QueueKind → ℕ → List ℕ → LiquidQueueState → LiquidQueueState
unfolding with_list
popped q id rest s = with_list q rest (record s { map = delete id s.map })

pub map-popped :
    (q : QueueKind) (id : ℕ) (rest : List ℕ) (s : LiquidQueueState)
    → (popped q id rest s).map ≡ delete id s.map
unfolding popped with_list
map-popped q id rest s = ground arith

list_of-popped :
    (q r : QueueKind) (id : ℕ) (rest : List ℕ) (s : LiquidQueueState)
    → list_of r (popped q id rest s) ≡ (if same q r == 1 then rest else list_of r s)
unfolding popped with_list list_of
list_of-popped q r id rest s = ground arith

head-placed :
    (q : QueueKind) (id : ℕ) (rest l : List ℕ) (o : Option QueueKind)
    → l ≡ id ∷ rest
    → count id l ≡ placed o q
    → (o ≡ some q) × (count id rest ≡ 0)
head-placed q id rest l o e h = let h' = rw e at h in ground arith

popped-IsPlaced :
    (q : QueueKind) (id : ℕ) (rest : List ℕ) (s : LiquidQueueState)
    → IsPlaced s
    → list_of q s ≡ id ∷ rest
    → IsPlaced (popped q id rest s)
popped-IsPlaced q id rest s p e r a =
    let here = head-placed q id rest (list_of q s) (lookup id s.map) e (p q id) in
    ground (
      arith,
      here,
      p r a,
      p q a,
      p r id,
      list_of-popped q r id rest s,
      map-popped q id rest s,
      lookup-delete id a s.map,
    )

-- `pop_front` takes the head of the queue and never panics.
abbrev pub Pops : QueueKind → LiquidQueueState → Type 0
Pops q s =
    ((list_of q s ≡ []) × (pop_front q s ≡ some (none, s)))
    ⊎ ((id : ℕ) × (rest : List ℕ) × (list_of q s ≡ id ∷ rest)
        × (lookup id s.map ≡ some q)
        × (pop_front q s ≡ some (some id, popped q id rest s))
        × IsPlaced (popped q id rest s))

List-cases : (l : List ℕ) → (l ≡ []) ⊎ ((x : ℕ) × (xs : List ℕ) × (l ≡ x ∷ xs))
List-cases [] = inl refl
List-cases (x ∷ xs) = inr (x, xs, refl)

pub pop_front-Pops : (q : QueueKind) (s : LiquidQueueState) → IsPlaced s → Pops q s
unfolding pop_front popped
pop_front-Pops q s p = elim (List-cases (list_of q s)) [
  | inl e ↦ inl (e, rw (e, pop_front))
  | inr (id, rest, e) ↦
      let (found, once) = head-placed q id rest (list_of q s) (lookup id s.map) e (p q id) in
      inr (
        id,
        rest,
        e,
        found,
        rw (e, pop_front) (rw (found, pop_front) (ground (arith, remove_absent id rest once))),
        popped-IsPlaced q id rest s p e,
      )
]
