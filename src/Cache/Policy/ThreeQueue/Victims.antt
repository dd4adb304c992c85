-- ===== src/Cache/Policy/ThreeQueue/Victims.antt =====
-- Which entries `find_victim` chooses.
use mathlib.Core.Path.{ap₂}
use liquid_cache.Prelude.{
  ℕ, zero, suc, ◌+◌, ◌*◌, ◌≤◌, ◌≡◌, refl, sym, ap, ◌∙◌, ◌⊎◌, inl, inr, Option, none, some, List, [],
  ◌∷◌, ◌++◌, arith, length, take, drop, lookup, lookup-delete, ◌==◌, if◌then◌else◌,
}
use liquid_cache.Cache.Policy.ThreeQueue.{
  QueueKind, arrow, liquid, squeezed, disk, LiquidQueueState, list_of, with_list, next_victim,
  find_victim,
}
use liquid_cache.Cache.Policy.ThreeQueue.Places.{IsPlaced, pop_front-Pops, popped}

-- The identifiers of the entries in memory, in the order in which they are evicted.
abbrev pub in_memory : LiquidQueueState → List ℕ
in_memory s = s.arrow_list ++ (s.liquid_list ++ s.squeezed_list)

-- How many times an entry of a queue can still be squeezed.
abbrev pub level : Option QueueKind → ℕ
level none = 0
level (some arrow) = 3
level (some liquid) = 2
level (some squeezed) = 1
level (some disk) = 0

abbrev pub weight : LiquidQueueState → ℕ
weight s = 3 * length s.arrow_list + (2 * length s.liquid_list + length s.squeezed_list)

-- One entry `id` leaves the memory of `s`, which becomes `t`.
pub record Leaves (s : LiquidQueueState) (id : ℕ) (t : LiquidQueueState) : Type 0 where
  pub placed : IsPlaced t
  pub first : in_memory s ≡ id ∷ in_memory t
  pub disk_kept : t.disk_list ≡ s.disk_list
  pub lighter : weight s ≡ weight t + level (lookup id s.map)
  pub positive : 1 ≤ level (lookup id s.map)
  pub others : (a : ℕ) → lookup a t.map ≡ (if id == a then none else lookup a s.map)

abbrev pub Next : LiquidQueueState → Option (Option ℕ × LiquidQueueState) → Type 0
Next s r =
    ((in_memory s ≡ []) × (r ≡ some (none, s)))
    ⊎ ((id : ℕ) × (t : LiquidQueueState) × (r ≡ some (some id, t)) × Leaves s id t)

popped-Leaves :
    (q : QueueKind) (s : LiquidQueueState) (id : ℕ) (rest : List ℕ)
    → list_of q s ≡ id ∷ rest
    → lookup id s.map ≡ some q
    → in_memory s ≡ id ∷ in_memory (popped q id rest s)
    → 1 ≤ level (some q)
    → IsPlaced (popped q id rest s)
    → Leaves s id (popped q id rest s)
unfolding popped with_list list_of
popped-Leaves arrow s id rest e f m l p = record {
  placed = p;
  first = m;
  disk_kept = refl;
  lighter = ground arith;
  positive = ground arith;
  others = λ a. lookup-delete id a s.map;
}
popped-Leaves liquid s id rest e f m l p = record {
  placed = p;
  first = m;
  disk_kept = refl;
  lighter = ground arith;
  positive = ground arith;
  others = λ a. lookup-delete id a s.map;
}
popped-Leaves squeezed s id rest e f m l p = record {
  placed = p;
  first = m;
  disk_kept = refl;
  lighter = ground arith;
  positive = ground arith;
  others = λ a. lookup-delete id a s.map;
}
popped-Leaves disk s id rest e f m l p = absurd (omega arith)

first_arrow :
    (s : LiquidQueueState) (id : ℕ) (rest : List ℕ)
    → list_of arrow s ≡ id ∷ rest
    → in_memory s ≡ id ∷ in_memory (popped arrow id rest s)
unfolding popped with_list list_of
first_arrow s id rest e = ap (λ l. l ++ (s.liquid_list ++ s.squeezed_list)) e

first_liquid :
    (s : LiquidQueueState) (id : ℕ) (rest : List ℕ)
    → list_of arrow s ≡ []
    → list_of liquid s ≡ id ∷ rest
    → in_memory s ≡ id ∷ in_memory (popped liquid id rest s)
unfolding popped with_list list_of
first_liquid s id rest a e =
    ap₂ (λ k l. k ++ (l ++ s.squeezed_list)) a e
    ∙ ap (λ k. id ∷ (k ++ (rest ++ s.squeezed_list))) (sym a)

first_squeezed :
    (s : LiquidQueueState) (id : ℕ) (rest : List ℕ)
    → list_of arrow s ≡ []
    → list_of liquid s ≡ []
    → list_of squeezed s ≡ id ∷ rest
    → in_memory s ≡ id ∷ in_memory (popped squeezed id rest s)
unfolding popped with_list list_of
first_squeezed s id rest a l e =
    ap₂ (λ j k. j ++ (k ++ s.squeezed_list)) a l
    ∙ e
    ∙ ap₂ (λ j k. id ∷ (j ++ (k ++ rest))) (sym a) (sym l)

pub next_victim-Next : (s : LiquidQueueState) → IsPlaced s → Next s (next_victim s)
unfolding next_victim list_of
next_victim-Next s p = elim (pop_front-Pops arrow s p) [
  | inr (id, rest, e, f, r, p') ↦
      rw (r, next_victim)
        (inr (
          id,
          popped arrow id rest s,
          refl,
          popped-Leaves arrow s id rest e f (first_arrow s id rest e) (omega arith) p',
        ))
  | inl (e, r) ↦ elim (pop_front-Pops liquid s p) [
    | inr (id, rest, e2, f, r2, p') ↦
        rw (r, next_victim)
          (rw (r2, next_victim)
            (inr (
              id,
              popped liquid id rest s,
              refl,
              popped-Leaves liquid s id rest e2 f (first_liquid s id rest e e2) (omega arith) p',
            )))
    | inl (e2, r2) ↦ elim (pop_front-Pops squeezed s p) [
      | inr (id, rest, e3, f, r3, p') ↦
          rw (r, next_victim)
            (rw (r2, next_victim)
              (rw r3 (
                inr (
                  id,
                  popped squeezed id rest s,
                  refl,
                  popped-Leaves squeezed s id rest e3 f (first_squeezed s id rest e e2 e3)
                      (omega arith) p',
                ))))
      | inl (e3, r3) ↦
          rw (r, next_victim)
            (rw (r2, next_victim)
              (rw r3 (inl (ap₂ (λ j k. j ++ (k ++ s.squeezed_list)) e e2 ∙ e3, refl))))
    ]
  ]
]

-- `find_victim` never panics on a consistent state. It takes the first `cnt` entries of the Arrow
-- queue followed by the Liquid queue followed by the squeezed queue, each queue in the order of
-- insertion; the rest stays in order, the disk queue is untouched, and the state is consistent.
pub find_victim-in_memory :
    (cnt : ℕ) (s : LiquidQueueState)
    → IsPlaced s
    → (t : LiquidQueueState) × (find_victim cnt s ≡ some (take cnt (in_memory s), t))
      × IsPlaced t
      × (in_memory t ≡ drop cnt (in_memory s))
      × (t.disk_list ≡ s.disk_list)
unfolding find_victim
find_victim-in_memory zero s p = (s, refl, p, refl, refl)
find_victim-in_memory (suc cnt) s p = elim (next_victim-Next s p) [
  | inl (e, r) ↦ (s, rw (r, find_victim) (rw e refl), p, rw e refl, refl)
  | inr (id, u, r, l) ↦
      let (t, found, placed, rest, kept) = find_victim-in_memory cnt u l.placed in
      (
        t,
        rw (r, find_victim) (rw (found, find_victim) (rw l.first refl)),
        placed,
        rw l.first rest,
        kept ∙ l.disk_kept,
      )
]
