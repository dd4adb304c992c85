-- ===== src/Liquid/SqueezedDate/Small.antt =====
-- The sizes of the components of day numbers of 32 bits.
use mathlib.Core.Path.{subst}
use liquid_cache.Prelude.{
  ℕ, ◌^◌, ◌<◌, ◌≡◌, refl, ap, Bool, true, false, Option, none, some, arith, leb, if◌then◌else◌, inl,
  inr, ◌⊎◌,
}
use liquid_cache.Prelude.Int.{ℤ, pos, negsuc, pos_part, neg_part, ◌+ℤ◌, ◌-ℤ◌, +ℤ_parts}
use liquid_cache.Liquid.{PrimitiveType, date32, value, modulus, is_unsigned}
use liquid_cache.Liquid.Dates.{
  Date32Field, year, month, day, day_of_week, component_from_days, ymd_from_epoch_days, era_of,
  mul_i64, as_i32, year_of_era,
}
use liquid_cache.Liquid.Dates.Eras.{era_of-days, year_of_era_lem}
use liquid_cache.Liquid.Dates.Calendar.{IsI32, ymd_from_epoch_days_bounds}
use liquid_cache.Liquid.Dates.Lossy.{weekday_lt}
use liquid_cache.Liquid.SqueezedDate.{
  TimeUnit, component_of, timestamp_unit, timestamp_to_days_since_epoch,
}
use liquid_cache.Liquid.SqueezedDate.Components.{IsSmall}

-- The era of a day number of 32 bits, at most a million years from the epoch.
small_era :
    (e : ℤ)
    → pos_part (mul_i64 e 146097) < 2 ^ 32
    → neg_part (mul_i64 e 146097) < 2 ^ 32
    → (pos_part (mul_i64 e 400) < 2 ^ 24) × (neg_part (mul_i64 e 400) < 2 ^ 24)
unfolding mul_i64 ◌-ℤ◌
small_era (pos n) p q = (omega arith, omega arith)
small_era (negsuc n) p q = (ground arith, ground arith)

signs : (z : ℤ) → (pos_part z ≡ 0) ⊎ (neg_part z ≡ 0)
signs (pos n) = inr refl
signs (negsuc n) = inl refl

pick : (b : Bool) (x y : ℤ) → IsSmall x → IsSmall y → IsSmall (if b then x else y)
pick true x y p q = p
pick false x y p q = q

year-IsSmall : (days : ℤ) → IsI32 days → IsSmall (ymd_from_epoch_days days).0
unfolding ymd_from_epoch_days
year-IsSmall days h =
    let z = days +ℤ pos 719468 in
    let e = era_of z 146097 in
    let era = era_of-days z in
    let doe = pos_part (z -ℤ mul_i64 e 146097) in
    let yl = year_of_era_lem doe era.1 in
    let zp = +ℤ_parts days (pos 719468) in
    let m = mul_i64 e 146097 in
    let s = small_era e (omega (arith, signs z, signs m)) (omega (arith, signs z, signs m)) in
    let y = pos (year_of_era doe) +ℤ mul_i64 e 400 in
    let yp = +ℤ_parts (pos (year_of_era doe)) (mul_i64 e 400) in
    let y1 = +ℤ_parts y (pos 1) in
    let plain : IsSmall y = (omega (arith, signs y), omega (arith, signs y)) in
    let next : IsSmall (y +ℤ pos 1) =
      (omega (arith, signs (y +ℤ pos 1), signs y), omega (arith, signs (y +ℤ pos 1), signs y)) in
    pick (leb _ 2) (y +ℤ pos 1) y next plain

component-IsSmall :
    (field : Date32Field) (days : ℤ) → IsI32 days → IsSmall (component_from_days field days)
unfolding component_from_days
component-IsSmall year days h = year-IsSmall days h
component-IsSmall month days h = omega (arith, ymd_from_epoch_days_bounds days)
component-IsSmall day days h = omega (arith, ymd_from_epoch_days_bounds days)
component-IsSmall day_of_week days h = omega (arith, weekday_lt days)

date32_IsI32 : (v : ℕ) → v < modulus date32 → IsI32 (value date32 v)
unfolding value modulus is_unsigned
date32_IsI32 v h = ground arith

as_i32-IsI32 : (z : ℤ) → IsI32 (as_i32 z)
unfolding as_i32 value modulus is_unsigned
as_i32-IsI32 (pos n) = ground arith
as_i32-IsI32 (negsuc n) = ground arith

timestamp_IsI32 : (z : ℤ) (unit : TimeUnit) → IsI32 (timestamp_to_days_since_epoch z unit)
unfolding timestamp_to_days_since_epoch
timestamp_IsI32 z unit = as_i32-IsI32 _

some_inj {ℓ} : {A : Type ℓ} {a b : A} → some a ≡ some b → a ≡ b
some_inj e = cc

-- the component of a timestamp
abbrev by_unit : PrimitiveType → Date32Field → Option TimeUnit → Option (ℕ → ℤ)
by_unit t field o = elim o [
  | none ↦ none
  | some unit ↦
      some (λ v. component_from_days field (timestamp_to_days_since_epoch (value t v) unit))
]

by_unit-IsSmall :
    (t : PrimitiveType) (field : Date32Field) (o : Option TimeUnit) (component : ℕ → ℤ) (v : ℕ)
    → by_unit t field o ≡ some component
    → IsSmall (component v)
by_unit-IsSmall t field none component v e = cc
by_unit-IsSmall t field (some unit) component v e =
    let at : component_from_days field (timestamp_to_days_since_epoch (value t v) unit)
        ≡ component v =
      ap (λ (g : ℕ → ℤ). g v) (some_inj e) in
    subst IsSmall at (component-IsSmall field _ (timestamp_IsI32 (value t v) unit))

pub component_of-IsSmall :
    (t : PrimitiveType) (field : Date32Field) (component : ℕ → ℤ) (v : ℕ)
    → v < modulus t
    → component_of t field ≡ some component
    → IsSmall (component v)
unfolding component_of
component_of-IsSmall date32 field component v h e =
    let at : component_from_days field (value date32 v) ≡ component v =
      ap (λ (g : ℕ → ℤ). g v) (some_inj e) in
    subst IsSmall at (component-IsSmall field (value date32 v) (date32_IsI32 v h))
component_of-IsSmall t field component v h e =
    by_unit-IsSmall t field (timestamp_unit t) component v e
