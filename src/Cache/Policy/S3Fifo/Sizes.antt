-- ===== src/Cache/Policy/S3Fifo/Sizes.antt =====
-- The eviction from the small queue of `S3FifoPolicy`.
use mathlib.Core.Path.{subst}
use liquid_cache.Prelude.{
  ℕ, zero, suc, ◌<◌, ◌≡◌, refl, ap, sym, ◌⊎◌, inl, inr, Option, none, some, List, [], ◌∷◌, ◌++◌,
  arith, ltb, length, Bool-cases,
}
use liquid_cache.Cache.Policy.S3Fifo.{S3FifoState, freq_of, small_round, evict_from_small}
use liquid_cache.Cache.Policy.S3Fifo.Measures.{IsMeasured}
use liquid_cache.Cache.Policy.S3Fifo.Rounds.{
  pop_back-cases, AllUsed, Evicted, Emptied, length-snoc, small_round-Moves, small_round-Evicted,
  Evicted-later, Emptied-later,
}

-- The eviction from the small queue ends within a round for each of its elements and one more, if
-- the sizes are the lengths of the queues, and they are again. Elements from the back, all of a
-- frequency above 1, move to the main queue in their order. Either these are all, or the one before
-- them is the victim: it leaves the queue and has no frequency, it is put into the ghost queue, and
-- the total size falls by one. Its frequency was at most 1, or it had moved and is there twice.
pub evict_from_small_lem :
    (fuel : ℕ) (s : S3FifoState)
    → IsMeasured s
    → length s.small < fuel
    → (o : Option ℕ) × (s1 : S3FifoState) × (evict_from_small fuel s ≡ some (o, s1))
      × IsMeasured s1
      × (((o ≡ none) × Emptied s s1)
          ⊎ ((v : ℕ) × (left : List ℕ) × (moved : List ℕ) × (o ≡ some v)
              × Evicted v left moved s s1))
unfolding evict_from_small
evict_from_small_lem zero s h f = absurd (omega arith)
evict_from_small_lem (suc fuel) s h f = elim (pop_back-cases s.small) [
  | inl (e, p) ↦
      let nothing : Emptied s s = record {
        all_used = subst (AllUsed s) (sym e) tt;
        empty = e;
        all_main = ap (λ q. q ++ s.main) (sym e);
        same_ghosts = refl;
        same_total = refl;
      } in
      (none, s, rw (p, evict_from_small) refl, h, inl (refl, nothing))
  | inr (element, rest, p, l) ↦ elim (Bool-cases (ltb 1 (freq_of element s))) [
    | inl used ↦
        let r = (small_round element rest s).1 in
        let (stays, m) = small_round-Moves element rest s h l used in
        let shorter : length r.small < fuel =
          rw m.left (omega (arith, ap length l, length-snoc rest element)) in
        let (o, s1, ends, measured, c) = evict_from_small_lem fuel r m.measured shorter in
        let often : 1 < freq_of element s = ground arith in
        (
          o,
          s1,
          rw (p, evict_from_small) (rw stays ends),
          measured,
          elim c [
            | inl (none_left, all) ↦
                inl (none_left, Emptied-later element rest s r s1 l often m all)
            | inr (v, left, moved, found, later) ↦ inr (
              v,
              left,
              moved ++ element ∷ [],
              found,
              Evicted-later element rest s r s1 v left moved l often m later,
            )
          ],
        )
    | inr unused ↦
        let (goes, measured, done) = small_round-Evicted element rest s h l unused in
        (
          some element,
          (small_round element rest s).1,
          rw (p, evict_from_small) (rw goes refl),
          measured,
          inr (element, rest, [], refl, done),
        )
  ]
]
