-- ===== src/Cache/Policy/ThreeQueue/Drains.antt =====
-- `LiquidPolicy` as a `CachePolicy`, and that its victims are used up: an entry on disk is never
-- chosen, and a chosen entry is forgotten until it is inserted again.
use liquid_cache.Prelude.{
  ℕ, zero, suc, ◌+◌, ◌≤◌, ◌≡◌, refl, ap, inl, inr, Option, none, some, List, [], ◌∷◌, ◌++◌, arith,
  length, lookup, ◌==◌, if◌then◌else◌, length-append, length-remove, Option-cases,
}
use liquid_cache.Cache.Entry.{CachedBatchType, rank}
use liquid_cache.Cache.Policy.{CachePolicy}
use liquid_cache.Cache.Policy.Draining.{Draining, excess}
use liquid_cache.Cache.Policy.ThreeQueue
use liquid_cache.Cache.Policy.ThreeQueue.{
  QueueKind, arrow, liquid, squeezed, disk, LiquidQueueState, list_of, with_list, push_back, detach,
  upsert_into_queue, target_queue, next_victim, find_victim, notify_insert,
}
use liquid_cache.Cache.Policy.ThreeQueue.Places.{
  IsPlaced, map-upsert_into_queue, upsert_into_queue-IsPlaced,
}
use liquid_cache.Cache.Policy.ThreeQueue.Victims.{
  in_memory, level, weight, Leaves, next_victim-Next,
}

abbrev pub liquid_policy : CachePolicy
liquid_policy = record {
  State = LiquidQueueState;
  find_victim = ThreeQueue.find_victim;
  notify_insert = ThreeQueue.notify_insert;
  notify_access = ThreeQueue.notify_access;
}

abbrev pub tracked_level : Option QueueKind → Option ℕ
tracked_level none = none
tracked_level (some q) = some (level (some q))

weight-push_back :
    (q : QueueKind) (id : ℕ) (s : LiquidQueueState)
    → weight (push_back q id s) ≡ weight s + level (some q)
unfolding push_back list_of with_list
weight-push_back q id s = ground (
  arith,
  length-append s.arrow_list (id ∷ []),
  length-append s.liquid_list (id ∷ []),
  length-append s.squeezed_list (id ∷ []),
)

weight-detach : (q : QueueKind) (id : ℕ) (s : LiquidQueueState) → weight (detach q id s) ≤ weight s
unfolding detach list_of with_list
weight-detach q id s = ground (
  arith,
  length-remove id s.arrow_list,
  length-remove id s.liquid_list,
  length-remove id s.squeezed_list,
)

pub weight-notify_insert :
    (id : ℕ) (t : CachedBatchType) (s : LiquidQueueState)
    → weight (notify_insert id t s) ≤ weight s + rank t
unfolding notify_insert upsert_into_queue target_queue rank
weight-notify_insert id t s = elim (Option-cases (lookup id s.map)) [
  | inl e ↦ rw (e, upsert_into_queue) (ground (arith, weight-push_back (target_queue t) id s))
  | inr (q, e) ↦
      rw (e, upsert_into_queue)
        (ground (arith, weight-push_back (target_queue t) id (detach q id s), weight-detach q id s))
]

weight-zero : (s : LiquidQueueState) → in_memory s ≡ [] → weight s ≡ 0
weight-zero s e =
    let h = ap length e in
    omega (
      arith,
      h,
      length-append s.arrow_list (s.liquid_list ++ s.squeezed_list),
      length-append s.liquid_list s.squeezed_list,
    )

-- What a search for victims leaves.
pub record Drained (s : LiquidQueueState) (vs : List ℕ) (t : LiquidQueueState) : Type 0 where
  pub placed : IsPlaced t
  pub bound :
      (r : ℕ → ℕ)
      → ((a l : ℕ) → tracked_level (lookup a s.map) ≡ some l → r a ≤ l)
      → weight t + (excess r vs + length vs) ≤ weight s
  pub tracks :
      (a l : ℕ) → tracked_level (lookup a t.map) ≡ some l → tracked_level (lookup a s.map) ≡ some l

Leaves-tracks :
    (s t : LiquidQueueState) (id : ℕ)
    → Leaves s id t
    → (a l : ℕ) → tracked_level (lookup a t.map) ≡ some l
    → tracked_level (lookup a s.map) ≡ some l
Leaves-tracks s t id v a l h = ground (arith, v.others a, h)

level-tracked : (o : Option QueueKind) → 1 ≤ level o → tracked_level o ≡ some (level o)
level-tracked none h = absurd (omega arith)
level-tracked (some q) h = refl

Drained-cons :
    (s u t : LiquidQueueState) (id : ℕ) (vs : List ℕ)
    → Leaves s id u
    → Drained u vs t
    → Drained s (id ∷ vs) t
Drained-cons s u t id vs l d = record {
  placed = d.placed;
  bound = λ r h.
      let rest = d.bound r (λ a n k. h a n (Leaves-tracks s u id l a n k)) in
      let here = h id (level (lookup id s.map)) (level-tracked (lookup id s.map) l.positive) in
      omega (arith, rest, here, l.lighter, l.positive);
  tracks = λ a n k. Leaves-tracks s u id l a n (d.tracks a n k);
}

Drained-nil : (s : LiquidQueueState) → IsPlaced s → Drained s [] s
Drained-nil s p = record { placed = p; bound = λ r h. omega arith; tracks = λ a l h. h }

pub find_victim-Drained :
    (cnt : ℕ) (s : LiquidQueueState)
    → IsPlaced s
    → (vs : List ℕ) × (t : LiquidQueueState) × (find_victim cnt s ≡ some (vs, t))
      × Drained s vs t
      × (1 ≤ cnt → vs ≡ [] → weight t ≡ 0)
unfolding find_victim
find_victim-Drained zero s p = ([], s, refl, Drained-nil s p, λ h e. absurd (omega arith))
find_victim-Drained (suc cnt) s p = elim (next_victim-Next s p) [
  | inl (e, r) ↦ ([], s, rw (r, find_victim) refl, Drained-nil s p, λ h e'. weight-zero s e)
  | inr (id, u, r, l) ↦
      let (vs, t, found, d, _) = find_victim-Drained cnt u l.placed in
      (
        id ∷ vs,
        t,
        rw (r, find_victim) (rw (found, find_victim) refl),
        Drained-cons s u t id vs l d,
        λ h e. absurd (ground (arith, e)),
      )
]

level-target_queue : (t : CachedBatchType) → level (some (target_queue t)) ≡ rank t
unfolding target_queue rank
level-target_queue t = ground arith

pub tracked-notify_insert :
    (id a : ℕ) (t : CachedBatchType) (s : LiquidQueueState)
    → tracked_level (lookup a (notify_insert id t s).map)
      ≡ (if id == a then some (rank t) else tracked_level (lookup a s.map))
unfolding notify_insert
tracked-notify_insert id a t s =
    ground (arith, map-upsert_into_queue id a (target_queue t) s, level-target_queue t)

pub notify_insert-IsPlaced :
    (id : ℕ) (t : CachedBatchType) (s : LiquidQueueState)
    → IsPlaced s
    → IsPlaced (notify_insert id t s)
unfolding notify_insert
notify_insert-IsPlaced id t s p = upsert_into_queue-IsPlaced id (target_queue t) s p

-- `LiquidPolicy` drains: its weight counts 3, 2 and 1 for each entry of the Arrow, Liquid and
-- squeezed queues.
abbrev pub liquid_policy-Draining : Draining liquid_policy
liquid_policy-Draining = record {
  Inv = IsPlaced;
  weight = weight;
  tracked = λ s a. tracked_level (lookup a s.map);
  insert_inv = notify_insert-IsPlaced;
  insert_weight = λ id t s p. weight-notify_insert id t s;
  insert_tracked = λ id a t s p. tracked-notify_insert id a t s;
  victims = λ cnt s p.
      let (vs, t, found, d, nothing) = find_victim-Drained (suc cnt) s p in
      (vs, t, found, d.placed, d.bound, d.tracks, λ e. nothing (omega arith) e);
}
