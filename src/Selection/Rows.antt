-- ===== src/Selection/Rows.antt =====
-- What a selection means: a Boolean for each row. The specifications of the offset and the limit.
use liquid_cache.Prelude.{
  ℕ, zero, suc, ◌+◌, ◌≡◌, refl, ap, Bool, true, false, List, [], ◌∷◌, ◌++◌, arith, replicate,
}

-- The number of selected rows.
abbrev pub selected : List Bool → ℕ
selected [] = 0
selected (true ∷ bits) = suc (selected bits)
selected (false ∷ bits) = selected bits

-- The selection without its first `n` selected rows.
abbrev pub skip_first : ℕ → List Bool → List Bool
skip_first n [] = []
skip_first n (false ∷ bits) = false ∷ skip_first n bits
skip_first zero (true ∷ bits) = true ∷ bits
skip_first (suc n) (true ∷ bits) = false ∷ skip_first n bits

-- The selection up to its `n`th selected row.
abbrev pub up_to : ℕ → List Bool → List Bool
up_to zero bits = []
up_to (suc n) [] = []
up_to (suc n) (true ∷ bits) = true ∷ up_to n bits
up_to (suc n) (false ∷ bits) = false ∷ up_to (suc n) bits

zero_add : (n : ℕ) → 0 + n ≡ n
zero_add n = omega arith

suc_add : (m n : ℕ) → suc m + n ≡ suc (m + n)
suc_add m n = omega arith

pub skip_first_zero : (bits : List Bool) → skip_first 0 bits ≡ bits
skip_first_zero [] = refl
skip_first_zero (false ∷ bits) = ap (λ l. false ∷ l) (skip_first_zero bits)
skip_first_zero (true ∷ bits) = refl

pub skip_first-skipped :
    (n m : ℕ) (bits : List Bool)
    → skip_first n (replicate m false ++ bits) ≡ replicate m false ++ skip_first n bits
skip_first-skipped n zero bits = refl
skip_first-skipped n (suc m) bits = ap (λ l. false ∷ l) (skip_first-skipped n m bits)

pub skip_first-selected :
    (n m : ℕ) (bits : List Bool)
    → skip_first (m + n) (replicate m true ++ bits) ≡ replicate m false ++ skip_first n bits
skip_first-selected n zero bits = rw (zero_add n) (refl)
skip_first-selected n (suc m) bits =
    rw (suc_add m n) (ap (λ l. false ∷ l) (skip_first-selected n m bits))

pub skip_first-within :
    (n m : ℕ) (bits : List Bool)
    → skip_first n (replicate (n + m) true ++ bits)
      ≡ replicate n false ++ (replicate m true ++ bits)
skip_first-within zero m bits = rw (zero_add m) (skip_first_zero (replicate m true ++ bits))
skip_first-within (suc n) m bits =
    rw (suc_add n m) (ap (λ l. false ∷ l) (skip_first-within n m bits))

pub up_to-skipped :
    (n m : ℕ) (bits : List Bool)
    → up_to (suc n) (replicate m false ++ bits) ≡ replicate m false ++ up_to (suc n) bits
up_to-skipped n zero bits = refl
up_to-skipped n (suc m) bits = ap (λ l. false ∷ l) (up_to-skipped n m bits)

pub up_to-selected :
    (n m : ℕ) (bits : List Bool)
    → up_to (m + n) (replicate m true ++ bits) ≡ replicate m true ++ up_to n bits
up_to-selected n zero bits = rw (zero_add n) (refl)
up_to-selected n (suc m) bits = rw (suc_add m n) (ap (λ l. true ∷ l) (up_to-selected n m bits))

pub up_to-within :
    (n m : ℕ) (bits : List Bool) → up_to n (replicate (n + m) true ++ bits) ≡ replicate n true
up_to-within zero m bits = refl
up_to-within (suc n) m bits = rw (suc_add n m) (ap (λ l. true ∷ l) (up_to-within n m bits))

pub selected-skipped :
    (m : ℕ) (bits : List Bool) → selected (replicate m false ++ bits) ≡ selected bits
selected-skipped zero bits = refl
selected-skipped (suc m) bits = selected-skipped m bits

pub selected-selected :
    (m : ℕ) (bits : List Bool) → selected (replicate m true ++ bits) ≡ m + selected bits
selected-selected zero bits = rw (zero_add (selected bits)) (refl)
selected-selected (suc m) bits = rw (suc_add m (selected bits)) (ap suc (selected-selected m bits))

pub replicate-add :
    (a b : ℕ) (x : Bool) (bits : List Bool)
    → replicate (a + b) x ++ bits ≡ replicate a x ++ (replicate b x ++ bits)
replicate-add zero b x bits = rw (zero_add b) (refl)
replicate-add (suc a) b x bits = rw (suc_add a b) (ap (λ l. x ∷ l) (replicate-add a b x bits))
