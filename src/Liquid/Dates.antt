-- ===== src/Liquid/Dates.antt =====
-- The calendar functions of src/storage/src/liquid_array/squeezed_date32_array.rs. Days and years are
-- integers. What the source computes in `i64`, which does not overflow, is an integer here, or a
-- number where it is not negative; a sum in `i32` wraps.
pub mod Eras
pub mod Calendar
pub mod Lossy
pub mod Years
pub mod Months
pub mod Days
pub mod OnDay
use liquid_cache.Liquid.{value, int32, is_unsigned, modulus}
use liquid_cache.Prelude.{ℕ, suc, ◌+◌, ◌-◌, ◌*◌, ◌/◌, ◌%◌, ◌^◌, Bool, ltb, leb, if◌then◌else◌}
use liquid_cache.Prelude.Int.{ℤ, pos, negsuc, pos_part, ◌+ℤ◌, ◌-ℤ◌, leb_ℤ, ltb_ℤ}

pub data Date32Field : Type 0 where
  year month day day_of_week : Date32Field

-- Division of an `i64` by a positive constant rounds towards zero.
unfoldable pub div_i64 : ℤ → ℕ → ℤ
div_i64 (pos n) c = pos (n / c)
div_i64 (negsuc n) c = pos 0 -ℤ pos (suc n / c)

unfoldable pub mul_i64 : ℤ → ℕ → ℤ
mul_i64 (pos n) c = pos (n * c)
mul_i64 (negsuc n) c = pos 0 -ℤ pos (suc n * c)

-- `if z >= 0 { z / c } else { (z - (c - 1)) / c }`
unfoldable pub era_of : ℤ → ℕ → ℤ
unfolding div_i64
era_of z c = if leb_ℤ (pos 0) z then div_i64 z c else div_i64 (z -ℤ pos (c - 1)) c

-- the year of the era, the month counted from March and the day of the month, of a day of the era
unfoldable pub year_of_era : ℕ → ℕ
year_of_era doe = (doe - doe / 1460 + doe / 36524 - doe / 146096) / 365

unfoldable pub days_before : ℕ → ℕ
days_before yoe = 365 * yoe + yoe / 4 - yoe / 100

unfoldable pub ymd_from_epoch_days : ℤ → ℤ × ℕ × ℕ
unfolding era_of mul_i64 year_of_era days_before
ymd_from_epoch_days days_since_epoch =
    let z = days_since_epoch +ℤ pos 719468 in
    let era = era_of z 146097 in
    let doe = pos_part (z -ℤ mul_i64 era 146097) in
    let yoe = year_of_era doe in
    let y = pos yoe +ℤ mul_i64 era 400 in
    let doy = doe - days_before yoe in
    let mp = (5 * doy + 2) / 153 in
    let d = doy - (153 * mp + 2) / 5 + 1 in
    let m = if ltb mp 10 then mp + 3 else mp - 9 in (if leb m 2 then y +ℤ pos 1 else y, m, d)

-- `as u32` and `as i32`: the two's complement pattern of an integer in 32 bits, and that pattern as
-- an integer again
unfoldable pub as_u32 : ℤ → ℕ
as_u32 (pos n) = n % 2 ^ 32
as_u32 (negsuc n) = 2 ^ 32 - 1 - n % 2 ^ 32

unfoldable pub as_i32 : ℤ → ℤ
unfolding as_u32
as_i32 z = value int32 (as_u32 z)

-- `rem_euclid(7)`
unfoldable pub rem_euclid7 : ℤ → ℕ
rem_euclid7 (pos n) = n % 7
rem_euclid7 (negsuc n) = 6 - n % 7

-- The sum is of `i32`: it wraps in a release build, and panics in a debug build, for the last four
-- days that an `i32` numbers.
unfoldable pub day_of_week_sunday0 : ℤ → ℕ
unfolding rem_euclid7 as_i32 value is_unsigned modulus
day_of_week_sunday0 days_since_epoch = rem_euclid7 (as_i32 (days_since_epoch +ℤ pos 4))

unfoldable pub component_from_days : Date32Field → ℤ → ℤ
unfolding ymd_from_epoch_days day_of_week_sunday0
component_from_days year days = (ymd_from_epoch_days days).0
component_from_days month days = pos (ymd_from_epoch_days days).1
component_from_days day days = pos (ymd_from_epoch_days days).2
component_from_days day_of_week days = pos (day_of_week_sunday0 days)

-- the `i64` that `ymd_to_epoch_days` casts
unfoldable pub civil_days : ℤ → ℕ → ℕ → ℤ
unfolding era_of mul_i64
civil_days year' month' day' =
    let y = if leb month' 2 then year' -ℤ pos 1 else year' in
    let era = era_of y 400 in
    let yoe = pos_part (y -ℤ mul_i64 era 400) in
    let mp = if ltb 2 month' then month' - 3 else month' + 9 in
    let doy = (153 * mp + 2) / 5 + day' - 1 in
    let doe = yoe * 365 + yoe / 4 - yoe / 100 + doy in mul_i64 era 146097 +ℤ pos doe -ℤ pos 719468

unfoldable pub ymd_to_epoch_days : ℤ → ℕ → ℕ → ℤ
unfolding civil_days as_i32 value is_unsigned modulus
ymd_to_epoch_days year' month' day' = as_i32 (civil_days year' month' day')

abbrev pub i32_max : ℤ
i32_max = pos (2 ^ 31 - 1)

abbrev pub i32_min : ℤ
i32_min = negsuc (2 ^ 31 - 1)

-- `saturating_add` of `i32`
unfoldable pub saturating_add : ℤ → ℤ → ℤ
saturating_add a b =
    let sum = a +ℤ b in
    if ltb_ℤ i32_max sum then i32_max else if ltb_ℤ sum i32_min then i32_min else sum

-- The day that `to_arrow_date32_lossy` gives for a component.
unfoldable pub lossy_days : Date32Field → ℤ → ℤ
unfolding ymd_to_epoch_days saturating_add as_u32
lossy_days year c = ymd_to_epoch_days c 1 1
lossy_days month c = ymd_to_epoch_days (pos 1970) (as_u32 c) 1
lossy_days day c = ymd_to_epoch_days (pos 1970) 1 (as_u32 c)
lossy_days day_of_week c = saturating_add (ymd_to_epoch_days (pos 1970) 1 4) c
