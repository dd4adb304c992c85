-- ===== src/Liquid/SqueezedDate/OfDays.antt =====
-- The days of dates and timestamps, and their components in the calendar.
use mathlib.Core.Path.{subst}
use liquid_cache.Prelude.{
  ℕ, ◌≡◌, refl, sym, ap, ◌∙◌, true, false, Option, none, some, List, [], ◌∷◌, arith,
}
use liquid_cache.Prelude.Int.{ℤ, pos, negsuc, ◌+ℤ◌, ◌-ℤ◌, ◌≤ℤ◌, ◌<ℤ◌}
use liquid_cache.Liquid.{PrimitiveType, date32, value, Slot}
use liquid_cache.Liquid.Primitive.{Valids}
use liquid_cache.Liquid.Dates.{Date32Field, component_from_days, mul_i64, as_i32}
use liquid_cache.Liquid.Dates.Calendar.{IsI32, as_i32_lem}
use liquid_cache.Liquid.Dates.OnDay.{IsComponent, ComponentFits, component_from_days-IsComponent}
use liquid_cache.Liquid.SqueezedDate.{
  TimeUnit, component_of, timestamp_unit, timestamp_to_days_since_epoch, ticks_per_day, div_euclid,
}
use liquid_cache.Liquid.SqueezedDate.Components.{components}

-- The day of a value: the value itself for a date, and for a timestamp the day that begins at most
-- the value after the epoch and ends later.
abbrev pub InDay : ℕ → ℤ → ℤ → Type 0
InDay ticks days z = (mul_i64 days ticks ≤ℤ z) × (z <ℤ mul_i64 days ticks +ℤ pos ticks)

abbrev pub IsDay : PrimitiveType → ℕ → ℤ → Type 0
IsDay date32 v days = days ≡ value date32 v
IsDay PrimitiveType.timestamp_second v days =
    InDay 86400 days (value PrimitiveType.timestamp_second v)
IsDay PrimitiveType.timestamp_millisecond v days =
    InDay 86400000 days (value PrimitiveType.timestamp_millisecond v)
IsDay PrimitiveType.timestamp_microsecond v days =
    InDay 86400000000 days (value PrimitiveType.timestamp_microsecond v)
IsDay PrimitiveType.timestamp_nanosecond v days =
    InDay 86400000000000 days (value PrimitiveType.timestamp_nanosecond v)
IsDay _ v days = ⊥

-- The types of dates and of timestamps.
abbrev pub HasDays : PrimitiveType → Type 0
HasDays date32 = Unit
HasDays PrimitiveType.timestamp_second = Unit
HasDays PrimitiveType.timestamp_millisecond = Unit
HasDays PrimitiveType.timestamp_microsecond = Unit
HasDays PrimitiveType.timestamp_nanosecond = Unit
HasDays _ = ⊥

-- An array of components, null where the array of values is, for the days of the values.
abbrev pub AreComponents : Date32Field → (ℕ → ℤ) → List Slot → List (Option ℤ) → Type 0
AreComponents field days [] [] = Unit
AreComponents field days ((true, v) ∷ slots) (some c ∷ out) =
    IsComponent field (days v) c × AreComponents field days slots out
AreComponents field days ((false, v) ∷ slots) (none ∷ out) = AreComponents field days slots out
AreComponents field days _ _ = ⊥

div_euclid-InDay :
    (unit : TimeUnit) (z days : ℤ)
    → InDay (ticks_per_day unit) days z
    → div_euclid z (ticks_per_day unit) ≡ days
unfolding div_euclid ticks_per_day mul_i64 ◌+ℤ◌ ◌-ℤ◌
div_euclid-InDay TimeUnit.second (pos n) (pos k) h = ground arith
div_euclid-InDay TimeUnit.second (pos n) (negsuc k) h = ground arith
div_euclid-InDay TimeUnit.second (negsuc n) (pos k) h = ground arith
div_euclid-InDay TimeUnit.second (negsuc n) (negsuc k) h = ground arith
div_euclid-InDay TimeUnit.millisecond (pos n) (pos k) h = ground arith
div_euclid-InDay TimeUnit.millisecond (pos n) (negsuc k) h = ground arith
div_euclid-InDay TimeUnit.millisecond (negsuc n) (pos k) h = ground arith
div_euclid-InDay TimeUnit.millisecond (negsuc n) (negsuc k) h = ground arith
div_euclid-InDay TimeUnit.microsecond (pos n) (pos k) h = ground arith
div_euclid-InDay TimeUnit.microsecond (pos n) (negsuc k) h = ground arith
div_euclid-InDay TimeUnit.microsecond (negsuc n) (pos k) h = ground arith
div_euclid-InDay TimeUnit.microsecond (negsuc n) (negsuc k) h = ground arith
div_euclid-InDay TimeUnit.nanosecond (pos n) (pos k) h = ground arith
div_euclid-InDay TimeUnit.nanosecond (pos n) (negsuc k) h = ground arith
div_euclid-InDay TimeUnit.nanosecond (negsuc n) (pos k) h = ground arith
div_euclid-InDay TimeUnit.nanosecond (negsuc n) (negsuc k) h = ground arith

timestamp-InDay :
    (unit : TimeUnit) (z days : ℤ)
    → InDay (ticks_per_day unit) days z
    → IsI32 days
    → timestamp_to_days_since_epoch z unit ≡ days
unfolding timestamp_to_days_since_epoch
timestamp-InDay unit z days h r = ap as_i32 (div_euclid-InDay unit z days h) ∙ as_i32_lem days r

abbrev Follows : PrimitiveType → Date32Field → (ℕ → ℤ) → Type 0
Follows t field component =
    (v : ℕ) (days : ℤ) → IsDay t v days → IsI32 days → component v ≡ component_from_days field days

pub component_of-Follows :
    (t : PrimitiveType) (field : Date32Field)
    → HasDays t
    → (component : ℕ → ℤ) × (component_of t field ≡ some component) × Follows t field component
unfolding component_of timestamp_unit ticks_per_day
component_of-Follows date32 field h = (
  λ v. component_from_days field (value date32 v),
  refl,
  λ v days d r. ap (component_from_days field) (sym d),
)
component_of-Follows PrimitiveType.timestamp_second field h = (
  λ v. component_from_days field (timestamp_to_days_since_epoch (value _ v) TimeUnit.second),
  refl,
  λ v days d r. ap (component_from_days field) (timestamp-InDay TimeUnit.second _ days d r),
)
component_of-Follows PrimitiveType.timestamp_millisecond field h = (
  λ v. component_from_days field (timestamp_to_days_since_epoch (value _ v) TimeUnit.millisecond),
  refl,
  λ v days d r. ap (component_from_days field) (timestamp-InDay TimeUnit.millisecond _ days d r),
)
component_of-Follows PrimitiveType.timestamp_microsecond field h = (
  λ v. component_from_days field (timestamp_to_days_since_epoch (value _ v) TimeUnit.microsecond),
  refl,
  λ v days d r. ap (component_from_days field) (timestamp-InDay TimeUnit.microsecond _ days d r),
)
component_of-Follows PrimitiveType.timestamp_nanosecond field h = (
  λ v. component_from_days field (timestamp_to_days_since_epoch (value _ v) TimeUnit.nanosecond),
  refl,
  λ v days d r. ap (component_from_days field) (timestamp-InDay TimeUnit.nanosecond _ days d r),
)
component_of-Follows _ field h = absurd h

pub components-AreComponents :
    (t : PrimitiveType) (field : Date32Field) (component days : ℕ → ℤ)
    → Follows t field component
    → (slots : List Slot)
    → Valids (λ v. IsDay t v (days v) × IsI32 (days v) × ComponentFits field (days v)) slots
    → AreComponents field days slots (components component slots)
components-AreComponents t field component days follows [] h = tt
components-AreComponents t field component days follows ((true, v) ∷ slots) h =
    let (is_day, range, fits) = h.0 in
    (
      subst (IsComponent field (days v)) (sym (follows v (days v) is_day range))
          (component_from_days-IsComponent field (days v) fits),
      components-AreComponents t field component days follows slots h.1,
    )
components-AreComponents t field component days follows ((false, v) ∷ slots) h =
    components-AreComponents t field component days follows slots h
