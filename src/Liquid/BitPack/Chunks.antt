-- ===== src/Liquid/BitPack/Chunks.antt =====
-- The loop over blocks of Liquid/BitPack.antt: packing whole blocks and unpacking them again.
use liquid_cache.Prelude.{
  ℕ, zero, suc, ◌+◌, ◌*◌, ◌≤◌, ◌≡◌, refl, sym, ap, ◌∙◌, List, [], ◌∷◌, ◌++◌, length, take, drop,
  arith, append_assoc, append_nil, length-drop,
}
use liquid_cache.Liquid.BitPack.{for_each_chunk}

module _ {ℓ} {A : Type ℓ} where
  drop_nil : (n : ℕ) → drop {A = A} n [] ≡ []
  drop_nil zero = refl
  drop_nil (suc n) = refl

  pub drop-drop : (a b : ℕ) (xs : List A) → drop b (drop a xs) ≡ drop (a + b) xs
  drop-drop zero b xs = ap (λ k. drop k xs) (omega arith)
  drop-drop (suc a) b [] = drop_nil b ∙ sym (drop_nil (suc a + b))
  drop-drop (suc a) b (x ∷ xs) =
      let e : suc (a + b) ≡ suc a + b = omega arith in
      drop-drop a b xs ∙ ap (λ k. drop k (x ∷ xs)) e

  pub take_all : (n : ℕ) (xs : List A) → length xs ≡ n → take n xs ≡ xs
  take_all zero [] h = refl
  take_all zero (x ∷ xs) h = absurd (omega arith)
  take_all (suc n) [] h = refl
  take_all (suc n) (x ∷ xs) h = ap (λ l. x ∷ l) (take_all n xs (omega arith))

  pub take-append : (n : ℕ) (xs ys : List A) → n ≤ length xs → take n (xs ++ ys) ≡ take n xs
  take-append zero xs ys h = refl
  take-append (suc n) [] ys h = absurd (omega arith)
  take-append (suc n) (x ∷ xs) ys h = ap (λ l. x ∷ l) (take-append n xs ys (omega arith))

  pub drop-append : (n : ℕ) (xs ys : List A) → n ≤ length xs → drop n (xs ++ ys) ≡ drop n xs ++ ys
  drop-append zero xs ys h = refl
  drop-append (suc n) [] ys h = absurd (omega arith)
  drop-append (suc n) (x ∷ xs) ys h = drop-append n xs ys (omega arith)

  pub drop_all : (n : ℕ) (xs : List A) → length xs ≡ n → drop n xs ≡ []
  drop_all zero [] h = refl
  drop_all zero (x ∷ xs) h = absurd (omega arith)
  drop_all (suc n) [] h = refl
  drop_all (suc n) (x ∷ xs) h = drop_all n xs (omega arith)

  pub take_append_drop : (n : ℕ) (xs : List A) → take n xs ++ drop n xs ≡ xs
  take_append_drop zero xs = refl
  take_append_drop (suc n) [] = refl
  take_append_drop (suc n) (x ∷ xs) = ap (λ l. x ∷ l) (take_append_drop n xs)

-- The loop by recursion on what is left of the list.
abbrev pub chunks : (List ℕ → List ℕ) → ℕ → ℕ → List ℕ → List ℕ
chunks f size zero xs = []
chunks f size (suc n) xs = f (take size xs) ++ chunks f size n (drop size xs)

pub for_each_chunk-eq-chunks :
    (f : List ℕ → List ℕ) (size n i : ℕ) (xs : List ℕ)
    → for_each_chunk f size n i xs ≡ chunks f size n (drop (i * size) xs)
unfolding for_each_chunk
for_each_chunk-eq-chunks f size zero i xs = refl
for_each_chunk-eq-chunks f size (suc n) i xs =
    let next : i * size + size ≡ (i + 1) * size = omega arith in
    ap (λ l. f (take size (drop (i * size) xs)) ++ l)
      (rw (drop-drop (i * size) size xs, next) (for_each_chunk-eq-chunks f size n (i + 1) xs))

-- Whole blocks of a list, and one block more in place of what follows them.
pub chunks-append :
    (f : List ℕ → List ℕ) (size n : ℕ) (whole rest last : List ℕ)
    → length whole ≡ n * size
    → length last ≡ size
    → chunks f size n (whole ++ rest) ++ f last ≡ chunks f size (suc n) (whole ++ last)
chunks-append f size zero [] rest last h k = rw (take_all size last k, append_nil (f last)) refl
chunks-append f size zero (x ∷ whole) rest last h k = absurd (omega arith)
chunks-append f size (suc n) whole rest last h k =
    let le : size ≤ length whole = omega arith in
    let left : length (drop size whole) ≡ n * size = omega (arith, length-drop size whole) in
    rw
      (
        take-append size whole rest le,
        take-append size whole last le,
        drop-append size whole rest le,
        drop-append size whole last le,
      )
      (append_assoc (f (take size whole)) _ (f last)
        ∙ ap (λ l. f (take size whole) ++ l)
            (chunks-append f size n (drop size whole) rest last left k))
