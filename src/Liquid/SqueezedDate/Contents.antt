-- ===== src/Liquid/SqueezedDate/Contents.antt =====
-- The components that a squeezed array gives, by what the encoded array holds.
use mathlib.Core.Path.{subst}
use liquid_cache.Prelude.{
  ℕ, ◌<◌, ◌≡◌, refl, sym, ap, ◌∙◌, true, false, Option, none, some, List, [], ◌∷◌,
}
use liquid_cache.Prelude.Int.{ℤ}
use liquid_cache.Liquid.{PrimitiveType, uint32, modulus, Slot}
use liquid_cache.Liquid.BitPack.{BitPacking, PacksLosslessly}
use liquid_cache.Liquid.Primitive.{LiquidPrimitiveArray, to_arrow_array, logical, Valids, InRange}
use liquid_cache.Liquid.Dates.{Date32Field}
use liquid_cache.Liquid.SqueezedDate.{component_of, squeeze_components, to_component_date32}
use liquid_cache.Liquid.SqueezedDate.Components.{
  IsSmall, logical_ints, components, to_component_date32-squeeze_components,
}
use liquid_cache.Liquid.SqueezedDate.Small.{component_of-IsSmall}

-- Equal arrays have equal components, and small ones if either has.
of_logical : (ℕ → ℤ) → List (Option ℕ) → List (Option ℤ)
of_logical component [] = []
of_logical component (none ∷ values) = none ∷ of_logical component values
of_logical component (some v ∷ values) = some (component v) ∷ of_logical component values

of_logical-eq :
    (component : ℕ → ℤ) (xs : List Slot)
    → components component xs ≡ of_logical component (logical xs)
unfolding of_logical
of_logical-eq component [] = refl
of_logical-eq component ((true, v) ∷ slots) =
    ap (λ l. some (component v) ∷ l) (of_logical-eq component slots)
of_logical-eq component ((false, v) ∷ slots) = ap (λ l. none ∷ l) (of_logical-eq component slots)

-- A property of the values that are not null, by what the array holds.
ValidsOf : (ℕ → Type 0) → List (Option ℕ) → Type 0
ValidsOf P [] = Unit
ValidsOf P (none ∷ values) = ValidsOf P values
ValidsOf P (some v ∷ values) = P v × ValidsOf P values

to_values : (P : ℕ → Type 0) (xs : List Slot) → Valids P xs → ValidsOf P (logical xs)
unfolding ValidsOf
to_values P [] h = tt
to_values P ((true, v) ∷ slots) h = (h.0, to_values P slots h.1)
to_values P ((false, v) ∷ slots) h = to_values P slots h

of_values : (P : ℕ → Type 0) (xs : List Slot) → ValidsOf P (logical xs) → Valids P xs
unfolding ValidsOf
of_values P [] h = tt
of_values P ((true, v) ∷ slots) h = (h.0, of_values P slots h.1)
of_values P ((false, v) ∷ slots) h = of_values P slots h

Valids_same :
    (P : ℕ → Type 0) (xs ys : List Slot) → logical xs ≡ logical ys → Valids P xs → Valids P ys
Valids_same P xs ys e h = of_values P ys (subst (ValidsOf P) e (to_values P xs h))

InRange-Valids :
    (t : PrimitiveType) (P : ℕ → Type 0) (xs : List Slot)
    → ((v : ℕ) → v < modulus t → P v)
    → InRange t xs
    → Valids P xs
InRange-Valids t P [] g r = tt
InRange-Valids t P ((true, v) ∷ slots) g r = (g v r.0, InRange-Valids t P slots g r.1)
InRange-Valids t P ((false, v) ∷ slots) g r = InRange-Valids t P slots g r.1

components-logical :
    (component : ℕ → ℤ) (xs ys : List Slot)
    → logical xs ≡ logical ys
    → components component xs ≡ components component ys
components-logical component xs ys e =
    of_logical-eq component xs ∙ ap (of_logical component) e ∙ sym (of_logical-eq component ys)

-- What a squeezed array holds depends on the encoded array only through what that decodes to.
pub squeezed_components :
    (t : PrimitiveType) (f g : BitPacking)
    → PacksLosslessly uint32 g
    → (array : List Slot) (a : LiquidPrimitiveArray) (field : Date32Field) (component : ℕ → ℤ)
    → InRange t array
    → logical (to_arrow_array t f a) ≡ logical array
    → component_of t field ≡ some component
    → logical_ints
        (to_component_date32 g (squeeze_components g t field component (to_arrow_array t f a)))
      ≡ components component array
squeezed_components t f g laws array a field component r same c =
    let small =
      Valids_same (λ v. IsSmall (component v)) array (to_arrow_array t f a) (sym same)
        (InRange-Valids t (λ v. IsSmall (component v)) array
          (λ v lt. component_of-IsSmall t field component v lt c) r) in
    to_component_date32-squeeze_components g laws t field component (to_arrow_array t f a) small
    ∙ components-logical component (to_arrow_array t f a) array same
