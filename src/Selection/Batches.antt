-- ===== src/Selection/Batches.antt =====
-- `take_next_batch`: the batches are the rows of the queue, in order.
use liquid_cache.Prelude.{
  ℕ, zero, suc, ◌+◌, ◌-◌, ◌≤◌, ◌<◌, ◌≡◌, refl, ap, sym, ◌∙◌, inl, inr, Bool, true, false, Option,
  none, some, List, [], ◌∷◌, ◌++◌, arith, append_assoc, append_nil, min, ltb, ◌==◌, if◌then◌else◌,
  replicate, Bool-cases, length, length-append, length-replicate,
}
use liquid_cache.Selection.{RowSelector, row_selector_to_boolean_buffer, take_rows, take_next_batch}
use liquid_cache.Selection.Rows.{replicate-add}

abbrev bits : List RowSelector → List Bool
bits = row_selector_to_boolean_buffer

-- What the loop of a batch returns.
record Taken (batch_size cur : ℕ) (xs rt left : List RowSelector) (total : ℕ) : Type 0 where
  rows : bits rt ++ bits left ≡ bits xs
  taken : total ≡ cur + length (bits rt)
  size : total ≡ min batch_size (cur + length (bits xs))

abbrev rows_of : ℕ → Bool → List Bool
rows_of n skip = if skip then replicate n false else replicate n true

rows_of-add :
    (a b : ℕ) (skip : Bool) (l : List Bool)
    → rows_of (a + b) skip ++ l ≡ rows_of a skip ++ (rows_of b skip ++ l)
rows_of-add a b true l = replicate-add a b false l
rows_of-add a b false l = replicate-add a b true l

length-rows_of : (n : ℕ) (skip : Bool) → length (rows_of n skip) ≡ n
length-rows_of n true = length-replicate n false
length-rows_of n false = length-replicate n true

length-bits :
    (n : ℕ) (skip : Bool) (xs : List RowSelector)
    → length (bits (record { row_count = n; skip = skip } ∷ xs)) ≡ n + length (bits xs)
unfolding row_selector_to_boolean_buffer
length-bits n skip xs =
    omega (arith, length-append (rows_of n skip) (bits xs), length-rows_of n skip)

positive : (m : ℕ) → ltb 0 (suc m) ≡ true
positive m = ground arith

-- The selector that does not fit is split in two.
cut-Taken :
    (batch_size cur n m : ℕ) (skip : Bool) (xs : List RowSelector)
    → cur ≤ batch_size
    → batch_size < n + cur
    → m ≡ batch_size - cur
    → Taken batch_size cur
        (record { row_count = n; skip = skip } ∷ xs)
        (if ltb 0 m then record { row_count = m; skip = skip } ∷ [] else [])
        (record { row_count = n - m; skip = skip } ∷ xs)
        (cur + m)
unfolding row_selector_to_boolean_buffer
cut-Taken batch_size cur n zero skip xs le over e = record {
  rows = ap (λ x. rows_of x skip ++ bits xs) (omega arith);
  taken = omega arith;
  size = omega (arith, length-bits n skip xs);
}
cut-Taken batch_size cur n (suc m) skip xs le over e = rw (positive m) record {
  rows =
      ap (λ l. l ++ (rows_of (n - suc m) skip ++ bits xs)) (append_nil (rows_of (suc m) skip))
      ∙ sym (rows_of-add (suc m) (n - suc m) skip (bits xs))
      ∙ ap (λ x. rows_of x skip ++ bits xs) (omega arith);
  taken = omega (arith, length-bits (suc m) skip []);
  size = omega (arith, length-bits n skip xs);
}

fit-Taken :
    (batch_size cur n : ℕ) (skip : Bool) (xs rt left : List RowSelector) (total : ℕ)
    → Taken batch_size (cur + n) xs rt left total
    → Taken batch_size cur
        (record { row_count = n; skip = skip } ∷ xs)
        (record { row_count = n; skip = skip } ∷ rt)
        left
        total
unfolding row_selector_to_boolean_buffer
fit-Taken batch_size cur n skip xs rt left total t = record {
  rows = append_assoc (rows_of n skip) (bits rt) (bits left) ∙ ap (λ l. rows_of n skip ++ l) t.rows;
  taken = omega (arith, t.taken, length-bits n skip rt);
  size = omega (arith, t.size, length-bits n skip xs);
}

take_rows-Taken :
    (batch_size cur : ℕ) (xs : List RowSelector)
    → cur ≤ batch_size
    → let r = take_rows batch_size cur xs in Taken batch_size cur xs r.0 r.1 r.2
unfolding take_rows row_selector_to_boolean_buffer
take_rows-Taken batch_size cur [] le = record {
  rows = refl;
  taken = omega arith;
  size = omega arith;
}
take_rows-Taken batch_size cur (s ∷ xs) le =
    elim (Bool-cases (ltb batch_size (s.row_count + cur))) [
      | inl over ↦
          rw over (
            cut-Taken batch_size cur s.row_count (batch_size - cur) s.skip xs le (ground arith)
              refl)
      | inr fits ↦
          let r = take_rows batch_size (cur + s.row_count) xs in
          rw fits (
            fit-Taken batch_size cur s.row_count s.skip xs r.0 r.1 r.2
              (take_rows-Taken batch_size (cur + s.row_count) xs (ground arith)))
    ]

-- What the queue and a batch have to do with each other.
pub NextBatch : ℕ → List RowSelector → Option (List RowSelector) × List RowSelector → Type 0
NextBatch batch_size xs (none, left) =
    (bits left ≡ bits xs) × (min batch_size (length (bits xs)) ≡ 0)
NextBatch batch_size xs (some rt, left) =
    (bits rt ++ bits left ≡ bits xs)
    × (length (bits rt) ≡ min batch_size (length (bits xs)))
    × (1 ≤ length (bits rt))

length-zero : (l : List Bool) → length l ≡ 0 → l ≡ []
length-zero [] h = refl
length-zero (x ∷ l) h = absurd (omega arith)

-- A batch followed by what is left of the queue is the queue, row by row. The batch has exactly
-- `batch_size` rows, selected and skipped, or all of them if there are fewer. There is no batch
-- exactly when that is no row, and the queue has then lost none.
pub take_next_batch_lem :
    (xs : List RowSelector) (batch_size : ℕ)
    → NextBatch batch_size xs (take_next_batch xs batch_size)
unfolding NextBatch take_next_batch
take_next_batch_lem xs batch_size =
    let r = take_rows batch_size 0 xs in
    let t = take_rows-Taken batch_size 0 xs (omega arith) in
    elim (Bool-cases (r.2 == 0)) [
      | inl none_taken ↦
          let empty = length-zero (bits r.0) (ground (arith, t.taken)) in
          rw none_taken (ap (λ l. l ++ bits r.1) (sym empty) ∙ t.rows, ground (arith, t.size))
      | inr some_taken ↦
          rw some_taken (t.rows, omega (arith, t.taken, t.size), ground (arith, t.taken))
    ]
