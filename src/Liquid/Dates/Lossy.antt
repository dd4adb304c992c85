-- ===== src/Liquid/Dates/Lossy.antt =====
-- The components that `to_arrow_date32_lossy` puts into dates (Liquid/Dates.antt).
use liquid_cache.Prelude.{
  ℕ, zero, suc, ◌+◌, ◌≤◌, ◌<◌, ◌^◌, ◌≡◌, refl, ap, arith, ◌==◌, Bool, true, false, Bool-cases, inl,
  inr, if◌then◌else◌,
}
use liquid_cache.Prelude.Int.{ℤ, pos, negsuc, ◌+ℤ◌, ◌-ℤ◌}
use liquid_cache.Liquid.Dates.{
  as_u32, ymd_from_epoch_days, ymd_to_epoch_days, civil_days, component_from_days, lossy_days,
  Date32Field, year, month, day, day_of_week, rem_euclid7, day_of_week_sunday0, as_i32,
}
use liquid_cache.Liquid.Dates.Calendar.{january, ymd_from_epoch_days_bounds, IsI32, as_i32_lem}

-- A test of `count` numbers in a row.
passes : (ℕ → Bool) → ℕ → ℕ → Bool
passes test first zero = true
passes test first (suc count) =
    let others = passes test (first + 1) count in if test first then others else false

passes_lem :
    (test : ℕ → Bool) (first count : ℕ)
    → passes test first count ≡ true
    → (k : ℕ) → first ≤ k
    → k < first + count
    → test k ≡ true
unfolding passes
passes_lem test first zero all k low high = absurd (omega arith)
passes_lem test first (suc count) all k low high = elim (Bool-cases (k == first)) [
  | inl here ↦ let same : k ≡ first = ground arith in rw same (ground arith)
  | inr later ↦
      let others : passes test (first + 1) count ≡ true = ground arith in
      let above : first + 1 ≤ k = ground arith in
      passes_lem test (first + 1) count others k above (omega arith)
]

-- the month of the first of each month of 1970, and the day of each day of its January
month_back : ℕ → Bool
month_back m = (ymd_from_epoch_days (ymd_to_epoch_days (pos 1970) m 1)).1 == m

day_back : ℕ → Bool
day_back d = (ymd_from_epoch_days (ymd_to_epoch_days (pos 1970) 1 d)).2 == d

month_table : passes month_back 1 12 ≡ true
unfolding passes month_back ymd_from_epoch_days ymd_to_epoch_days ◌+ℤ◌ ◌-ℤ◌
month_table = refl

day_table : passes day_back 1 31 ≡ true
unfolding passes day_back ymd_from_epoch_days ymd_to_epoch_days ◌+ℤ◌ ◌-ℤ◌
day_table = refl

month_back_lem :
    (m : ℕ) → 1 ≤ m → m ≤ 12 → (ymd_from_epoch_days (ymd_to_epoch_days (pos 1970) m 1)).1 ≡ m
unfolding month_back
month_back_lem m p q = ground (arith, passes_lem month_back 1 12 month_table m)

day_back_lem :
    (d : ℕ) → 1 ≤ d → d ≤ 31 → (ymd_from_epoch_days (ymd_to_epoch_days (pos 1970) 1 d)).2 ≡ d
unfolding day_back
day_back_lem d p q = ground (arith, passes_lem day_back 1 31 day_table d)

pub rem_euclid7-lt : (z : ℤ) → rem_euclid7 z < 7
unfolding rem_euclid7
rem_euclid7-lt (pos n) = omega arith
rem_euclid7-lt (negsuc n) = omega arith

-- the weekday of each of the first days of 1970 that stand for weekdays
weekday_back : ℕ → Bool
weekday_back w = day_of_week_sunday0 (lossy_days day_of_week (pos w)) == w

weekday_table : passes weekday_back 0 7 ≡ true
unfolding passes weekday_back day_of_week_sunday0 lossy_days ◌+ℤ◌ ◌-ℤ◌
weekday_table = refl

weekday_back_lem : (w : ℕ) → w < 7 → day_of_week_sunday0 (lossy_days day_of_week (pos w)) ≡ w
unfolding weekday_back
weekday_back_lem w h = ground (arith, passes_lem weekday_back 0 7 weekday_table w)

pub weekday_lt : (days : ℤ) → day_of_week_sunday0 days < 7
unfolding day_of_week_sunday0
weekday_lt days = rem_euclid7-lt (as_i32 (days +ℤ pos 4))

-- The date of a year is its first of January, which is a day number of 32 bits for all years but the
-- first that has such numbers.
abbrev pub LossyFits : Date32Field → ℤ → Type 0
LossyFits year c = IsI32 (civil_days c 1 1)
LossyFits _ c = Unit

january_cast :
    (y : ℤ) → IsI32 (civil_days y 1 1) → (ymd_from_epoch_days (ymd_to_epoch_days y 1 1)).0 ≡ y
unfolding ymd_to_epoch_days
january_cast y h = rw (as_i32_lem (civil_days y 1 1) h) (january y)

as_u32_lem : (n : ℕ) → n < 2 ^ 32 → as_u32 (pos n) ≡ n
unfolding as_u32
as_u32_lem n h = omega arith

-- Whatever the field and the day number of 32 bits, the date that stands for the day's component has
-- that component, unless the first of January of the year of the day is not a day number of 32 bits.
-- The weekday is that of a release build: for the last four day numbers its sum wraps.
pub component_from_days-lossy_days :
    (field : Date32Field) (days : ℤ)
    → IsI32 days
    → LossyFits field (component_from_days field days)
    → component_from_days field (lossy_days field (component_from_days field days))
      ≡ component_from_days field days
unfolding component_from_days lossy_days
component_from_days-lossy_days year days range h = january_cast (ymd_from_epoch_days days).0 h
component_from_days-lossy_days month days range h =
    let b = ymd_from_epoch_days_bounds days in
    let m = (ymd_from_epoch_days days).1 in
    rw (as_u32_lem m (omega (arith, b))) (ap pos (month_back_lem m b.0 b.1))
component_from_days-lossy_days day days range h =
    let b = ymd_from_epoch_days_bounds days in
    let d = (ymd_from_epoch_days days).2 in
    rw (as_u32_lem d (omega (arith, b))) (ap pos (day_back_lem d b.2 b.3))
component_from_days-lossy_days day_of_week days range h =
    ap pos (weekday_back_lem (day_of_week_sunday0 days) (weekday_lt days))
