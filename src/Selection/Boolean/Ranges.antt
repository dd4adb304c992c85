-- ===== src/Selection/Boolean/Ranges.antt =====
-- `from_consecutive_ranges`.
use liquid_cache.Prelude.{
  ℕ, zero, suc, ◌+◌, ◌-◌, ◌≤◌, ◌<◌, ◌≡◌, refl, ap, ◌∙◌, inl, inr, Bool, true, false, ◌&&◌, ◌||◌,
  some, List, [], ◌∷◌, ◌++◌, arith, ◌==◌, ltb, leb, if◌then◌else◌, Bool-cases, length, replicate,
  get_elem?, length-append, length-replicate,
}
use liquid_cache.Selection.Boolean.{
  BooleanSelection, selection_of, append_ranges, from_consecutive_ranges,
}

-- A position is in one of the ranges.
abbrev pub covered : ℕ → List (ℕ × ℕ) → Bool
covered i [] = false
covered i ((start, end) ∷ ranges) = (leb start i && ltb i end) || covered i ranges

-- The ranges go upwards from `last` and do not overlap.
abbrev pub IsOrdered : ℕ → List (ℕ × ℕ) → ℕ → Type 0
IsOrdered last [] total = last ≤ total
IsOrdered last ((start, end) ∷ ranges) total =
    (last ≤ start) × (start ≤ end) × IsOrdered end ranges total

IsOrdered-le :
    (last l : ℕ) (ranges : List (ℕ × ℕ)) (total : ℕ)
    → l ≤ last
    → IsOrdered last ranges total
    → IsOrdered l ranges total
IsOrdered-le last l [] total h o = omega (arith, o)
IsOrdered-le last l ((start, end) ∷ ranges) total h (a, b, o) = (omega (arith, a), b, o)

covered-before :
    (i last : ℕ) (ranges : List (ℕ × ℕ)) (total : ℕ)
    → IsOrdered last ranges total
    → i < last
    → covered i ranges ≡ false
covered-before i last [] total o h = refl
covered-before i last ((start, end) ∷ ranges) total (a, b, o) h =
    ground (arith, covered-before i end ranges total o, a, b)

get_elem?-replicate :
    (n i : ℕ) (x : Bool) (ys : List Bool)
    → get_elem? (replicate n x ++ ys) i ≡ (if ltb i n then some x else get_elem? ys (i - n))
get_elem?-replicate zero i x ys = ground arith
get_elem?-replicate (suc n) zero x ys = ground arith
get_elem?-replicate (suc n) (suc i) x ys = ground (arith, get_elem?-replicate n i x ys)

-- The bits from `last` to `total`.
record Covers (last : ℕ) (ranges : List (ℕ × ℕ)) (total : ℕ) (bits : List Bool) : Type 0 where
  size : last + length bits ≡ total
  bit : (j : ℕ) → last + j < total → get_elem? bits j ≡ some (covered (last + j) ranges)

get_elem?-unset : (n i : ℕ) → i < n → get_elem? (replicate n false) i ≡ some false
get_elem?-unset zero i h = absurd (omega arith)
get_elem?-unset (suc n) zero h = refl
get_elem?-unset (suc n) (suc i) h = get_elem?-unset n i (omega arith)

gap_lem :
    (last start : ℕ)
    → last ≤ start
    → (if ltb last start then replicate (start - last) false else [])
      ≡ replicate (start - last) false
gap_lem last start h = elim (Bool-cases (ltb last start)) [
  | inl gap ↦ rw gap refl
  | inr no_gap ↦ let here : start - last ≡ 0 = ground (arith, no_gap) in rw (no_gap, here) refl
]

-- The gap before a range, and the range.
range-Covers :
    (last start end total : ℕ) (ranges : List (ℕ × ℕ)) (bits : List Bool)
    → last ≤ start
    → start < end
    → IsOrdered end ranges total
    → Covers end ranges total bits
    → Covers last ((start, end) ∷ ranges) total (
        (if ltb last start then replicate (start - last) false else [])
        ++ (replicate (end - start) true ++ bits))
range-Covers last start end total ranges bits a b o c = rw (gap_lem last start a) record {
  size = omega (
    arith,
    c.size,
    length-append (replicate (start - last) false) (replicate (end - start) true ++ bits),
    length-append (replicate (end - start) true) bits,
    length-replicate (start - last) false,
    length-replicate (end - start) true,
  );
  bit = λ j h.
      let k = j - (start - last) - (end - start) in
      let later : end ≤ last + j → get_elem? bits k ≡ some (covered (last + j) ranges) = λ le.
        let at : end + k ≡ last + j = omega arith in
        c.bit k (omega arith) ∙ ap (λ i. some (covered i ranges)) at in
      ground (
        arith,
        later,
        covered-before (last + j) end ranges total o,
        get_elem?-replicate (start - last) j false (replicate (end - start) true ++ bits),
        get_elem?-replicate (end - start) (j - (start - last)) true bits,
      );
}

append_ranges-Covers :
    (last : ℕ) (ranges : List (ℕ × ℕ)) (total : ℕ)
    → IsOrdered last ranges total
    → (bits : List Bool) × (append_ranges last ranges total ≡ some bits)
      × Covers last ranges total bits
unfolding append_ranges
append_ranges-Covers last [] total o = elim (Bool-cases (last == total)) [
  | inl full ↦ (
    [],
    rw full refl,
    record { size = ground (arith, full); bit = λ j h. absurd (ground (arith, full)) },
  )
  | inr short ↦
      let fits : ltb total last ≡ false = ground arith in
      (
        replicate (total - last) false,
        rw (short, fits) refl,
        record {
          size = omega (arith, o, length-replicate (total - last) false);
          bit = λ j h. get_elem?-unset (total - last) j (omega arith);
        },
      )
]
append_ranges-Covers last ((start, end) ∷ ranges) total (a, b, o) =
    let ordered : ltb end start ≡ false = ground arith in
    elim (Bool-cases (end - start == 0)) [
      | inl empty ↦
          let (bits, e, c) =
            append_ranges-Covers last ranges total
              (IsOrdered-le end last ranges total (omega arith) o) in
          (
            bits,
            rw (ordered, empty) e,
            record { size = c.size; bit = λ j h. ground (arith, c.bit j h, empty) },
          )
      | inr some_rows ↦
          let (bits, e, c) = append_ranges-Covers end ranges total o in
          (
            (if ltb last start then replicate (start - last) false else [])
                ++ (replicate (end - start) true ++ bits),
            rw (ordered, some_rows) (rw (e, append_ranges) refl),
            range-Covers last start end total ranges bits a (ground (arith, some_rows)) o c,
          )
    ]

-- From ranges that go upwards without overlap, up to the number of rows, the selection has as many
-- bits as there are rows, and a bit is set exactly where one of the ranges covers the row.
pub from_consecutive_ranges_lem :
    (ranges : List (ℕ × ℕ)) (total_rows : ℕ)
    → IsOrdered 0 ranges total_rows
    → (s : BooleanSelection) × (from_consecutive_ranges ranges total_rows ≡ some s)
      × (length s.selectors.bits ≡ total_rows)
      × ((i : ℕ) → i < total_rows → get_elem? s.selectors.bits i ≡ some (covered i ranges))
unfolding from_consecutive_ranges
from_consecutive_ranges_lem ranges total_rows o =
    let (bits, e, c) = append_ranges-Covers 0 ranges total_rows o in
    let at : (i : ℕ) → 0 + i ≡ i = λ i. omega arith in
    (
      selection_of bits,
      rw (e, from_consecutive_ranges) refl,
      omega (arith, c.size),
      λ i h. c.bit i (omega arith) ∙ ap (λ j. some (covered j ranges)) (at i),
    )
