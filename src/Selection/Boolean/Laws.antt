-- ===== src/Selection/Boolean/Laws.antt =====
-- `and_then` and its fallback, against a recursive definition.
use liquid_cache.Prelude.{
  ℕ, suc, ◌≤◌, ◌≡◌, refl, ap, sym, ◌∙◌, inl, inr, Bool, true, false, ◌&&◌, some, List, [], ◌∷◌,
  ◌++◌, arith, ◌==◌, Bool-cases, length, append_assoc, length-append, take, drop,
}
use liquid_cache.Selection.Rows.{selected}
use liquid_cache.Selection.Boolean.{
  BooleanBuffer, selection_of, finish, refine, BooleanSelection, of_bits, bitwise, intersection,
  positive_iter, set_bit, clear_bits, and_then, len, row_count, boolean_buffer_and_then_fallback,
}

-- The bits of the second selection stand at the set bits of the first.
abbrev pub combine : List Bool → List Bool → List Bool
combine [] o = []
combine (false ∷ s) o = false ∷ combine s o
combine (true ∷ s) [] = true ∷ combine s []
combine (true ∷ s) (p ∷ o) = p ∷ combine s o

set_bit-append :
    (b : Bool) (pre : List Bool) (x : Bool) (s : List Bool)
    → set_bit (length pre) b (pre ++ x ∷ s) ≡ pre ++ b ∷ s
unfolding set_bit
set_bit-append b [] x s = refl
set_bit-append b (y ∷ pre) x s = ap (λ l. y ∷ l) (set_bit-append b pre x s)

-- The loop, where the bits before position `i` are done, and `rest` is behind the window.
clear_bits-combine :
    (i : ℕ) (pre s o rest : List Bool)
    → i ≡ length pre
    → selected s ≤ length o
    → clear_bits (positive_iter i s) o (pre ++ (s ++ rest)) ≡ some (pre ++ (combine s o ++ rest))
unfolding clear_bits positive_iter
clear_bits-combine i pre [] o rest e h = refl
clear_bits-combine i pre (false ∷ s) o rest e h =
    ap (λ l. clear_bits (positive_iter (suc i) s) o l)
      (sym (append_assoc pre (false ∷ []) (s ++ rest)))
    ∙ clear_bits-combine (suc i) (pre ++ false ∷ []) s o rest
        (omega (arith, e, length-append pre (false ∷ []))) h
    ∙ ap some (append_assoc pre (false ∷ []) (combine s o ++ rest))
clear_bits-combine i pre (true ∷ s) [] rest e h = absurd (omega arith)
clear_bits-combine i pre (true ∷ s) (true ∷ o) rest e h =
    ap (λ l. clear_bits (positive_iter (suc i) s) o l)
      (sym (append_assoc pre (true ∷ []) (s ++ rest)))
    ∙ clear_bits-combine (suc i) (pre ++ true ∷ []) s o rest
        (omega (arith, e, length-append pre (true ∷ []))) (omega arith)
    ∙ ap some (append_assoc pre (true ∷ []) (combine s o ++ rest))
clear_bits-combine i pre (true ∷ s) (false ∷ o) rest e h =
    ap (λ l. clear_bits (positive_iter (suc i) s) o l)
      (ap (λ j. set_bit j false (pre ++ true ∷ (s ++ rest))) e
        ∙ set_bit-append false pre true (s ++ rest)
        ∙ sym (append_assoc pre (false ∷ []) (s ++ rest)))
    ∙ clear_bits-combine (suc i) (pre ++ false ∷ []) s o rest
        (omega (arith, e, length-append pre (false ∷ []))) (omega arith)
    ∙ ap some (append_assoc pre (false ∷ []) (combine s o ++ rest))

take-drop_append :
    (xs ys : List Bool) → (take (length xs) (xs ++ ys) ≡ xs) × (drop (length xs) (xs ++ ys) ≡ ys)
take-drop_append [] ys = (ground arith, ground arith)
take-drop_append (x ∷ xs) ys =
    let (front, back) = take-drop_append xs ys in (ap (λ l. x ∷ l) front, back)

finish-append :
    (xs ys : List Bool)
    → finish (length xs) (some (xs ++ ys)) ≡ some (record { before = []; bits = xs; after = ys })
finish-append xs ys =
    let (front, back) = take-drop_append xs ys in
    ap some (
      ap (λ l. record { before = []; bits = l; after = drop (length xs) (xs ++ ys) }) front
      ∙ ap (λ l. record { before = []; bits = xs; after = l }) back)

selected-le : (s : List Bool) → selected s ≤ length s
selected-le [] = omega arith
selected-le (true ∷ s) = omega (arith, selected-le s)
selected-le (false ∷ s) = omega (arith, selected-le s)

-- The fast path: all bits of the first are set.
combine-all : (s o : List Bool) → length s ≡ length o → selected s ≡ length o → combine s o ≡ o
combine-all [] [] e h = refl
combine-all [] (p ∷ o) e h = absurd (omega arith)
combine-all (true ∷ s) [] e h = absurd (omega arith)
combine-all (true ∷ s) (p ∷ o) e h = ap (λ l. p ∷ l) (combine-all s o (omega arith) (omega arith))
combine-all (false ∷ s) o e h = absurd (omega (arith, selected-le s))

bitwise-all :
    (s o : List Bool)
    → length s ≡ length o
    → selected s ≡ length o
    → bitwise (λ x y. x && y) s o ≡ some o
unfolding bitwise
bitwise-all [] [] e h = refl
bitwise-all [] (p ∷ o) e h = absurd (omega arith)
bitwise-all (true ∷ s) [] e h = absurd (omega arith)
bitwise-all (true ∷ s) (p ∷ o) e h = rw (bitwise-all s o (omega arith) (omega arith)) refl
bitwise-all (false ∷ s) o e h = absurd (omega (arith, selected-le s))

length-combine : (s o : List Bool) → length (combine s o) ≡ length s
length-combine [] o = refl
length-combine (false ∷ s) o = ap suc (length-combine s o)
length-combine (true ∷ s) [] = ap suc (length-combine s [])
length-combine (true ∷ s) (p ∷ o) = ap suc (length-combine s o)

-- A buffer at offset 0, whose window is refined.
refine-combine :
    (left right : BooleanBuffer)
    → left.before ≡ []
    → selected left.bits ≤ length right.bits
    → refine left right
      ≡ some (record { before = []; bits = combine left.bits right.bits; after = left.after })
unfolding refine
refine-combine left right e h =
    let whole : clear_bits (positive_iter 0 left.bits) right.bits (left.bits ++ left.after)
        ≡ some (combine left.bits right.bits ++ left.after) =
      clear_bits-combine 0 [] left.bits right.bits left.after refl h in
    ap
      (λ b.
        finish (length left.bits)
          (clear_bits (positive_iter 0 left.bits) right.bits (b ++ (left.bits ++ left.after))))
      e
    ∙ ap (finish (length left.bits)) whole
    ∙ ap (λ n. finish n (some (combine left.bits right.bits ++ left.after)))
        (sym (length-combine left.bits right.bits))
    ∙ finish-append (combine left.bits right.bits) left.after

-- The two implementations and their fast paths put the bits of the second selection at the set
-- bits of the first, and do not panic. The second has as many bits as the first has set bits, and
-- the first is not a slice of a buffer with bits before it.
pub and_then_lem :
    (s o : BooleanSelection)
    → s.selectors.before ≡ []
    → row_count s ≡ len o
    → ((r : BooleanSelection) × (and_then s o ≡ some r)
        × (r.selectors.before ≡ [])
        × (r.selectors.bits ≡ combine s.selectors.bits o.selectors.bits))
      × ((b : BooleanBuffer) × (boolean_buffer_and_then_fallback s.selectors o.selectors ≡ some b)
          × (b.bits ≡ combine s.selectors.bits o.selectors.bits))
unfolding and_then boolean_buffer_and_then_fallback row_count len intersection of_bits
and_then_lem s o whole h =
    let x = s.selectors.bits in
    let y = o.selectors.bits in
    elim (Bool-cases (length x == length y)) [
      | inl same ↦
          let e : length x ≡ length y = ground (arith, same) in
          let all = combine-all x y e h in
          (
            (selection_of y, rw (same, bitwise-all x y e h) refl, refl, sym all),
            (o.selectors, rw same refl, sym all),
          )
      | inr other ↦
          let slow = refine-combine s.selectors o.selectors whole (omega arith) in
          let out : BooleanBuffer = record {
            before = [];
            bits = combine x y;
            after = s.selectors.after;
          } in
          (
            (record { selectors = out }, rw (other, slow) refl, refl, refl),
            (out, rw (other, slow) refl, refl),
          )
    ]

selected-combine : (s o : List Bool) → selected s ≡ length o → selected (combine s o) ≡ selected o
selected-combine [] [] h = refl
selected-combine [] (p ∷ o) h = absurd (omega arith)
selected-combine (false ∷ s) o h = selected-combine s o h
selected-combine (true ∷ s) [] h = absurd (omega arith)
selected-combine (true ∷ s) (true ∷ o) h = ap suc (selected-combine s o (omega arith))
selected-combine (true ∷ s) (false ∷ o) h = selected-combine s o (omega arith)

combine_assoc :
    (s o p : List Bool) → selected s ≡ length o → combine (combine s o) p ≡ combine s (combine o p)
combine_assoc [] [] p h = refl
combine_assoc [] (x ∷ o) p h = absurd (omega arith)
combine_assoc (false ∷ s) o p h = ap (λ l. false ∷ l) (combine_assoc s o p h)
combine_assoc (true ∷ s) [] p h = absurd (omega arith)
combine_assoc (true ∷ s) (false ∷ o) p h = ap (λ l. false ∷ l) (combine_assoc s o p (omega arith))
combine_assoc (true ∷ s) (true ∷ o) [] h = ap (λ l. true ∷ l) (combine_assoc s o [] (omega arith))
combine_assoc (true ∷ s) (true ∷ o) (x ∷ p) h = ap (λ l. x ∷ l) (combine_assoc s o p (omega arith))

-- A selection refined by one predicate and then by another on the rows that are left selects the
-- rows of the selection refined by the two predicates combined, as many as the last selects. None
-- of the steps panics. Each predicate has a bit for each row that the one before it selects, and
-- the first two are not slices of buffers with bits before them.
pub and_then_assoc :
    (s o p : BooleanSelection)
    → s.selectors.before ≡ []
    → o.selectors.before ≡ []
    → row_count s ≡ len o
    → row_count o ≡ len p
    → (so r op q : BooleanSelection) × (and_then s o ≡ some so)
      × (and_then so p ≡ some r)
      × (and_then o p ≡ some op)
      × (and_then s op ≡ some q)
      × (r.selectors.bits ≡ q.selectors.bits)
      × (row_count r ≡ row_count p)
      × (len r ≡ len s)
unfolding row_count len
and_then_assoc s o p sw ow h k =
    let x = s.selectors.bits in
    let y = o.selectors.bits in
    let z = p.selectors.bits in
    let (so, first, so_whole, so_bits) = (and_then_lem s o sw h).0 in
    let kept : selected so.selectors.bits ≡ length z =
      ap selected so_bits ∙ selected-combine x y h ∙ k in
    let (r, second, r_whole, r_bits) = (and_then_lem so p so_whole kept).0 in
    let (op, both, op_whole, op_bits) = (and_then_lem o p ow k).0 in
    let fits : selected x ≡ length op.selectors.bits =
      h ∙ sym (ap length op_bits ∙ length-combine y z) in
    let (q, at_once, q_whole, q_bits) = (and_then_lem s op sw fits).0 in
    (
      so,
      r,
      op,
      q,
      first,
      second,
      both,
      at_once,
      r_bits
          ∙ ap (λ l. combine l z) so_bits
          ∙ combine_assoc x y z h
          ∙ sym (q_bits ∙ ap (combine x) op_bits),
      ap selected r_bits ∙ selected-combine so.selectors.bits z kept,
      ap length r_bits
          ∙ length-combine so.selectors.bits z
          ∙ ap length so_bits
          ∙ length-combine x y,
    )
