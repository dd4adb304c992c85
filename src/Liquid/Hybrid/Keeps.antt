-- ===== src/Liquid/Hybrid/Keeps.antt =====
-- What a selection keeps of a list of slots (Liquid/Hybrid/Access.antt).
use liquid_cache.Prelude.{ℕ, ◌≡◌, refl, ap, Bool, true, false, none, some, List, [], ◌∷◌}
use liquid_cache.Liquid.{Slot}
use liquid_cache.Liquid.Primitive.{map_values, logical, Valids, All}
use liquid_cache.Liquid.Hybrid.Access.{keep}

pub keep-All :
    (P : ℕ → Type 0) (selection : List Bool) (xs : List Slot) → All P xs → All P (keep selection xs)
keep-All P selection [] h = tt
keep-All P [] (x ∷ xs) h = tt
keep-All P (true ∷ selection) ((valid, v) ∷ xs) h = (h.0, keep-All P selection xs h.1)
keep-All P (false ∷ selection) ((valid, v) ∷ xs) h = keep-All P selection xs h.1

pub keep_Valids :
    (P : ℕ → Type 0) (selection : List Bool) (xs : List Slot)
    → Valids P xs
    → Valids P (keep selection xs)
keep_Valids P selection [] h = tt
keep_Valids P [] (x ∷ xs) h = tt
keep_Valids P (true ∷ selection) ((true, v) ∷ xs) h = (h.0, keep_Valids P selection xs h.1)
keep_Valids P (true ∷ selection) ((false, v) ∷ xs) h = keep_Valids P selection xs h
keep_Valids P (false ∷ selection) ((true, v) ∷ xs) h = keep_Valids P selection xs h.1
keep_Valids P (false ∷ selection) ((false, v) ∷ xs) h = keep_Valids P selection xs h

pub keep-map_values :
    (g : ℕ → ℕ) (selection : List Bool) (xs : List Slot)
    → keep selection (map_values g xs) ≡ map_values g (keep selection xs)
keep-map_values g selection [] = refl
keep-map_values g [] (x ∷ xs) = refl
keep-map_values g (true ∷ selection) ((valid, v) ∷ xs) =
    ap (λ l. (valid, g v) ∷ l) (keep-map_values g selection xs)
keep-map_values g (false ∷ selection) ((valid, v) ∷ xs) = keep-map_values g selection xs

pub keep-logical :
    (selection : List Bool) (xs : List Slot)
    → logical (keep selection xs) ≡ keep selection (logical xs)
keep-logical selection [] = refl
keep-logical [] ((true, v) ∷ xs) = refl
keep-logical [] ((false, v) ∷ xs) = refl
keep-logical (true ∷ selection) ((true, v) ∷ xs) = ap (λ l. some v ∷ l) (keep-logical selection xs)
keep-logical (true ∷ selection) ((false, v) ∷ xs) = ap (λ l. none ∷ l) (keep-logical selection xs)
keep-logical (false ∷ selection) ((true, v) ∷ xs) = keep-logical selection xs
keep-logical (false ∷ selection) ((false, v) ∷ xs) = keep-logical selection xs
