-- ===== src/Liquid/Dates/Calendar.antt =====
-- The conversions between days and dates of Liquid/Dates.antt, in both directions.
use liquid_cache.Prelude.{
  ℕ, ◌+◌, ◌-◌, ◌*◌, ◌/◌, ◌^◌, ◌≤◌, ◌<◌, ◌≡◌, refl, ap, ◌∙◌, arith, ltb, leb, if◌then◌else◌,
  Bool-cases, inl, inr,
}
use liquid_cache.Prelude.Int.{
  ℤ, pos, negsuc, pos_part, neg_part, ◌+ℤ◌, ◌-ℤ◌, +ℤ_parts, -ℤ_parts, eq_of_parts,
}
use liquid_cache.Liquid.{value, modulus, is_unsigned}
use liquid_cache.Liquid.Dates.{
  year_of_era, days_before, era_of, mul_i64, ymd_from_epoch_days, civil_days, ymd_to_epoch_days,
  as_i32,
}
use liquid_cache.Liquid.Dates.Eras.{
  year_of_era_lem, month_lem, year_of_era-january, era_of-days, era_of-years, era_of-days_sum,
  era_of-years_sum,
}

add_sub : (y : ℤ) → y +ℤ pos 1 -ℤ pos 1 ≡ y
add_sub y =
    eq_of_parts (y +ℤ pos 1 -ℤ pos 1) y
      (omega (arith, +ℤ_parts y (pos 1), -ℤ_parts (y +ℤ pos 1) (pos 1)))

sub_add : (y : ℤ) → y -ℤ pos 1 +ℤ pos 1 ≡ y
sub_add y =
    eq_of_parts (y -ℤ pos 1 +ℤ pos 1) y
      (omega (arith, -ℤ_parts y (pos 1), +ℤ_parts (y -ℤ pos 1) (pos 1)))

-- What is left of a sum without one of its parts.
pub rest_of_sum : (a : ℤ) (r : ℕ) → pos_part (pos r +ℤ a -ℤ a) ≡ r
rest_of_sum a r = ap pos_part (
    eq_of_parts (pos r +ℤ a -ℤ a) (pos r)
      (omega (arith, +ℤ_parts (pos r) a, -ℤ_parts (pos r +ℤ a) a)))

-- The month of the calendar, from the month counted from March.
abbrev month_of : ℕ → ℕ
month_of mp = if ltb mp 10 then mp + 3 else mp - 9

abbrev civil_year : ℤ → ℕ → ℤ
civil_year y mp = if leb (month_of mp) 2 then y +ℤ pos 1 else y

-- The day of a date of an era.
to_lem :
    (e : ℤ) (yoe mp d : ℕ)
    → yoe < 400
    → mp < 12
    → civil_days (civil_year (pos yoe +ℤ mul_i64 e 400) mp) (month_of mp) d
      ≡ mul_i64 e 146097
        +ℤ pos (yoe * 365 + yoe / 4 - yoe / 100 + ((153 * mp + 2) / 5 + d - 1))
        -ℤ pos 719468
unfolding civil_days
to_lem e yoe mp d h k =
    let y = pos yoe +ℤ mul_i64 e 400 in
    let y_eq : (if leb (month_of mp) 2 then civil_year y mp -ℤ pos 1 else civil_year y mp) ≡ y =
      elim (Bool-cases (leb (month_of mp) 2)) [
        | inl early ↦ rw early (add_sub y)
        | inr late ↦ rw late
      ] in
    let mp_eq : (if ltb 2 (month_of mp) then month_of mp - 3 else month_of mp + 9) ≡ mp =
      ground arith in
    rw (y_eq, era_of-years_sum e yoe h, rest_of_sum (mul_i64 e 400) yoe, mp_eq)

pub shifted :
    (days m : ℤ) (doe : ℕ)
    → pos_part (days +ℤ pos 719468) + neg_part m ≡ pos_part m + doe + neg_part (days +ℤ pos 719468)
    → m +ℤ pos doe -ℤ pos 719468 ≡ days
shifted days m doe h = eq_of_parts (m +ℤ pos doe -ℤ pos 719468) days (
    omega (
      arith,
      +ℤ_parts days (pos 719468),
      +ℤ_parts m (pos doe),
      -ℤ_parts (m +ℤ pos doe) (pos 719468),
    ))

pub back : (s : ℤ) → s -ℤ pos 719468 +ℤ pos 719468 ≡ s
back s =
    eq_of_parts (s -ℤ pos 719468 +ℤ pos 719468) s
      (omega (arith, -ℤ_parts s (pos 719468), +ℤ_parts (s -ℤ pos 719468) (pos 719468)))

pub +ℤ_comm : (a b : ℤ) → a +ℤ b ≡ b +ℤ a
+ℤ_comm a b = eq_of_parts (a +ℤ b) (b +ℤ a) (omega (arith, +ℤ_parts a b, +ℤ_parts b a))

civil_days-ymd_from_epoch_days :
    (days : ℤ) → let (y, m, d) = ymd_from_epoch_days days in civil_days y m d ≡ days
unfolding ymd_from_epoch_days days_before
civil_days-ymd_from_epoch_days days =
    let z = days +ℤ pos 719468 in
    let e = era_of z 146097 in
    let era = era_of-days z in
    let doe = pos_part (z -ℤ mul_i64 e 146097) in
    let yoe = year_of_era doe in
    let yl = year_of_era_lem doe era.1 in
    let doy = doe - days_before yoe in
    let ml = month_lem doy (omega arith) in
    let mp = (5 * doy + 2) / 153 in
    let d = doy - (153 * mp + 2) / 5 + 1 in
    let within : yoe * 365 + yoe / 4 - yoe / 100 + ((153 * mp + 2) / 5 + d - 1) ≡ doe =
      omega arith in
    to_lem e yoe mp d yl.0 ml.0
    ∙ ap (λ r. mul_i64 e 146097 +ℤ pos r -ℤ pos 719468) within
    ∙ shifted days (mul_i64 e 146097) doe era.0

-- The parts of every date are in range.
pub ymd_from_epoch_days_bounds :
    (days : ℤ) → let (y, m, d) = ymd_from_epoch_days days in (1 ≤ m) × (m ≤ 12) × (1 ≤ d) × (d ≤ 31)
unfolding ymd_from_epoch_days days_before
ymd_from_epoch_days_bounds days =
    let z = days +ℤ pos 719468 in
    let era = era_of-days z in
    let doe = pos_part (z -ℤ mul_i64 (era_of z 146097) 146097) in
    let yl = year_of_era_lem doe era.1 in
    let doy = doe - days_before (year_of_era doe) in
    let ml = month_lem doy (omega arith) in (ground arith, ground arith, omega arith, omega arith)

-- The year of a day 306 of a year that starts in March.
january_of :
    (e : ℤ) (yoe : ℕ)
    → yoe < 400
    → (ymd_from_epoch_days
        (mul_i64 e 146097 +ℤ pos (yoe * 365 + yoe / 4 - yoe / 100 + 306) -ℤ pos 719468)).0
      ≡ pos yoe +ℤ mul_i64 e 400 +ℤ pos 1
unfolding ymd_from_epoch_days days_before
january_of e yoe h =
    let doe = yoe * 365 + yoe / 4 - yoe / 100 + 306 in
    let z_eq : mul_i64 e 146097 +ℤ pos doe -ℤ pos 719468 +ℤ pos 719468
        ≡ mul_i64 e 146097 +ℤ pos doe =
      back (mul_i64 e 146097 +ℤ pos doe) in
    let rest : pos_part (mul_i64 e 146097 +ℤ pos doe -ℤ mul_i64 e 146097) ≡ doe =
      ap (λ s. pos_part (s -ℤ mul_i64 e 146097)) (+ℤ_comm (mul_i64 e 146097) (pos doe))
      ∙ rest_of_sum (mul_i64 e 146097) doe in
    let yoe_eq = year_of_era-january yoe h in
    let doy_eq : doe - (365 * yoe + yoe / 4 - yoe / 100) ≡ 306 = omega arith in
    rw (z_eq, era_of-days_sum e doe (omega arith), rest, yoe_eq, doy_eq) refl

-- A day number of 32 bits, and the cast to one.
abbrev pub IsI32 : ℤ → Type 0
IsI32 z = (pos_part z < 2 ^ 31) × (neg_part z ≤ 2 ^ 31)

pub as_i32_lem : (z : ℤ) → IsI32 z → as_i32 z ≡ z
unfolding as_i32 value modulus is_unsigned
as_i32_lem (pos n) h = ground arith
as_i32_lem (negsuc n) h = ground arith

-- Turning a day number of 32 bits into a date and back gives the day, before the epoch as well as
-- after it.
pub ymd_to_epoch_days-ymd_from_epoch_days :
    (days : ℤ)
    → IsI32 days
    → let (y, m, d) = ymd_from_epoch_days days in ymd_to_epoch_days y m d ≡ days
unfolding ymd_to_epoch_days
ymd_to_epoch_days-ymd_from_epoch_days days h =
    rw (civil_days-ymd_from_epoch_days days) (as_i32_lem days h)

-- The first of January of every year is in that year.
pub january : (y : ℤ) → (ymd_from_epoch_days (civil_days y 1 1)).0 ≡ y
unfolding civil_days
january y =
    let p = y -ℤ pos 1 in
    let e = era_of p 400 in
    let era = era_of-years p in
    let yoe = pos_part (p -ℤ mul_i64 e 400) in
    january_of e yoe era.1
    ∙ eq_of_parts (pos yoe +ℤ mul_i64 e 400 +ℤ pos 1) y (
        omega (
          arith,
          era.0,
          +ℤ_parts (pos yoe) (mul_i64 e 400),
          +ℤ_parts (pos yoe +ℤ mul_i64 e 400) (pos 1),
          -ℤ_parts y (pos 1),
        ))
