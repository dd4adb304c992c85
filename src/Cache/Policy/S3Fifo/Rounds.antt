-- ===== src/Cache/Policy/S3Fifo/Rounds.antt =====
-- One round of the eviction from the small queue, and the rounds after it.
use mathlib.Core.Path.{subst}
use liquid_cache.Prelude.{
  ℕ, suc, ◌+◌, ◌≤◌, ◌<◌, ◌≡◌, refl, ap, sym, ◌∙◌, ◌⊎◌, inl, inr, true, false, Option, none, some,
  List, [], ◌∷◌, ◌++◌, ◌==◌, if◌then◌else◌, arith, ltb, length, lookup, insert, Bool-cases,
  add_usize, sub_usize, append_assoc, lookup-insert, lookup-delete, ◌||◌,
}
use liquid_cache.Cache.Policy.S3Fifo.{
  S3FifoState, contains, dec_small_queue_size, inc_main_queue_size, entry_size, pop_back, freq_of,
  small_round,
}
use liquid_cache.Cache.Policy.S3Fifo.Measures.{IsMeasured}

pub pop_back-cases :
    (xs : List ℕ)
    → ((xs ≡ []) × (pop_back xs ≡ none))
      ⊎ ((y : ℕ) × (ys : List ℕ) × (pop_back xs ≡ some (y, ys)) × (xs ≡ ys ++ y ∷ []))
unfolding pop_back
pop_back-cases [] = inl (refl, refl)
pop_back-cases (x ∷ xs) = elim (pop_back-cases xs) [
  | inl (e, p) ↦ inr (x, [], rw (p, pop_back) refl, ap (λ l. x ∷ l) e)
  | inr (y, ys, p, l) ↦ inr (y, x ∷ ys, rw (p, pop_back) refl, ap (λ l. x ∷ l) l)
]

-- The elements whose entries were used more than once since they were inserted.
abbrev pub AllUsed : S3FifoState → List ℕ → Type 0
AllUsed s [] = Unit
AllUsed s (x ∷ xs) = (1 < freq_of x s) × AllUsed s xs

AllUsed-append :
    (s : S3FifoState) (xs : List ℕ) (y : ℕ)
    → AllUsed s xs
    → 1 < freq_of y s
    → AllUsed s (xs ++ y ∷ [])
AllUsed-append s [] y h k = (k, tt)
AllUsed-append s (x ∷ xs) y h k = (h.0, AllUsed-append s xs y h.1 k)

-- The policy after `element` has moved to the main queue: its frequency is 0, and others stay.
pub record Moves (element : ℕ) (rest : List ℕ) (s s1 : S3FifoState) : Type 0 where
  pub measured : IsMeasured s1
  pub left : s1.small ≡ rest
  pub arrived : s1.main ≡ element ∷ s.main
  pub same_ghosts : s1.ghost ≡ s.ghost
  pub same_total : s1.total_size ≡ s.total_size
  pub reset : (x : ℕ) → freq_of x s1 ≡ (if element == x then 0 else freq_of x s)

-- The policy after the eviction of `v` from behind `left` in the small queue.
pub record Evicted (v : ℕ) (left moved : List ℕ) (s s1 : S3FifoState) : Type 0 where
  pub before : s.small ≡ left ++ v ∷ moved
  pub left_small : s1.small ≡ left
  pub moved_used : AllUsed s moved
  pub moved_main : s1.main ≡ moved ++ s.main
  pub unused : (freq_of v s ≤ 1) ⊎ (contains v moved ≡ true)
  pub forgotten : lookup v s1.frequency ≡ none
  pub ghost : s1.ghost ≡ v ∷ s.ghost
  pub total : s1.total_size + 1 ≡ s.total_size

-- The policy after all elements of the small queue have moved.
pub record Emptied (s s1 : S3FifoState) : Type 0 where
  pub all_used : AllUsed s s.small
  pub empty : s1.small ≡ []
  pub all_main : s1.main ≡ s.small ++ s.main
  pub same_ghosts : s1.ghost ≡ s.ghost
  pub same_total : s1.total_size ≡ s.total_size

pub length-snoc : (xs : List ℕ) (y : ℕ) → length (xs ++ y ∷ []) ≡ suc (length xs)
length-snoc [] y = refl
length-snoc (x ∷ xs) y = ap suc (length-snoc xs y)

abbrev or_zero : Option ℕ → ℕ
or_zero o = elim o [ some freq ↦ freq | none ↦ 0 ]

freq_of-insert :
    (element x : ℕ) (frequency : List (ℕ × ℕ))
    → or_zero (lookup x (insert element 0 frequency))
      ≡ (if element == x then 0 else or_zero (lookup x frequency))
freq_of-insert element x frequency =
    rw (lookup-insert element x 0 frequency) (elim (Bool-cases (element == x)) [
      | inl same ↦ rw same refl
      | inr different ↦ rw different refl
    ])

pub small_round-Moves :
    (element : ℕ) (rest : List ℕ) (s : S3FifoState)
    → IsMeasured s
    → s.small ≡ rest ++ element ∷ []
    → ltb 1 (freq_of element s) ≡ true
    → ((small_round element rest s).0 ≡ false) × Moves element rest s (small_round element rest s).1
unfolding small_round entry_size dec_small_queue_size inc_main_queue_size add_usize sub_usize
    freq_of
small_round-Moves element rest s h l e =
    let n : length s.small ≡ suc (length rest) = ap length l ∙ length-snoc rest element in
    let b = h.bounded in
    rw e (
      refl,
      record {
        measured = record {
          small_size = omega (arith, h.small_size, n);
          main_size = omega (arith, h.main_size, n);
          total = omega (arith, h.total, n);
          bounded = omega (arith, n);
        };
        left = refl;
        arrived = refl;
        same_ghosts = refl;
        same_total = omega (arith, h.total, n);
        reset = λ x. freq_of-insert element x s.frequency;
      },
    )

pub small_round-Evicted :
    (element : ℕ) (rest : List ℕ) (s : S3FifoState)
    → IsMeasured s
    → s.small ≡ rest ++ element ∷ []
    → ltb 1 (freq_of element s) ≡ false
    → ((small_round element rest s).0 ≡ true)
      × IsMeasured (small_round element rest s).1
      × Evicted element rest [] s (small_round element rest s).1
unfolding small_round entry_size dec_small_queue_size sub_usize
small_round-Evicted element rest s h l e =
    let n : length s.small ≡ suc (length rest) = ap length l ∙ length-snoc rest element in
    let b = h.bounded in
    let few : freq_of element s ≤ 1 = ground arith in
    rw e (
      refl,
      record {
        small_size = omega (arith, h.small_size, n);
        main_size = h.main_size;
        total = omega (arith, h.total, n);
        bounded = omega (arith, n);
      },
      record {
        before = l;
        left_small = refl;
        moved_used = tt;
        moved_main = refl;
        unused = inl few;
        forgotten = ground (arith, lookup-delete element element s.frequency);
        ghost = refl;
        total = omega (arith, h.total, n);
      },
    )

AllUsed-before :
    (element : ℕ) (s s1 : S3FifoState)
    → ((x : ℕ) → freq_of x s1 ≡ (if element == x then 0 else freq_of x s))
    → (xs : List ℕ) → AllUsed s1 xs
    → AllUsed s xs
AllUsed-before element s s1 reset [] h = tt
AllUsed-before element s s1 reset (x ∷ xs) h =
    (ground (arith, reset x), AllUsed-before element s s1 reset xs h.1)

contains-append :
    (v : ℕ) (xs : List ℕ) (y : ℕ) → contains v (xs ++ y ∷ []) ≡ contains v xs || (y == v)
unfolding contains
contains-append v [] y = ground arith
contains-append v (x ∷ xs) y = ground (arith, contains-append v xs y)

-- A move and then an eviction.
pub Evicted-later :
    (element : ℕ) (rest : List ℕ) (s r s1 : S3FifoState) (v : ℕ) (left moved : List ℕ)
    → s.small ≡ rest ++ element ∷ []
    → 1 < freq_of element s
    → Moves element rest s r
    → Evicted v left moved r s1
    → Evicted v left (moved ++ element ∷ []) s s1
Evicted-later element rest s r s1 v left moved l used m later = record {
  before =
      l
      ∙ ap (λ q. q ++ element ∷ []) (sym m.left ∙ later.before)
      ∙ append_assoc left (v ∷ moved) (element ∷ []);
  left_small = later.left_small;
  moved_used =
      AllUsed-append s moved element (AllUsed-before element s r m.reset moved later.moved_used)
        used;
  moved_main =
      later.moved_main
      ∙ ap (λ q. moved ++ q) m.arrived
      ∙ sym (append_assoc moved (element ∷ []) s.main);
  unused = elim later.unused [
    | inl few ↦ ground (arith, m.reset v, contains-append v moved element)
    | inr again ↦ inr (ground (arith, contains-append v moved element))
  ];
  forgotten = later.forgotten;
  ghost = later.ghost ∙ ap (λ q. v ∷ q) m.same_ghosts;
  total = later.total ∙ m.same_total;
}

pub Emptied-later :
    (element : ℕ) (rest : List ℕ) (s r s1 : S3FifoState)
    → s.small ≡ rest ++ element ∷ []
    → 1 < freq_of element s
    → Moves element rest s r
    → Emptied r s1
    → Emptied s s1
Emptied-later element rest s r s1 l used m later = record {
  all_used = subst (AllUsed s) (sym l) (
      AllUsed-append s rest element
        (AllUsed-before element s r m.reset rest (subst (AllUsed r) m.left later.all_used)) used);
  empty = later.empty;
  all_main =
      later.all_main
      ∙ ap (λ q. q ++ r.main) m.left
      ∙ ap (λ q. rest ++ q) m.arrived
      ∙ sym (append_assoc rest (element ∷ []) s.main)
      ∙ ap (λ q. q ++ s.main) (sym l);
  same_ghosts = later.same_ghosts ∙ m.same_ghosts;
  same_total = later.same_total ∙ m.same_total;
}
