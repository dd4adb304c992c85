-- ===== src/Liquid/Dates/Days.antt =====
-- The dates of one day and of the next (Liquid/Dates.antt).
use mathlib.Core.Path.{subst}
use liquid_cache.Prelude.{
  ℕ, ◌+◌, ◌-◌, ◌≤◌, ◌<◌, ◌≡◌, refl, ap, arith, ltb, inl, inr, ◌∙◌, sym, Bool-cases,
}
use liquid_cache.Prelude.Int.{ℤ, pos, negsuc, pos_part, ◌+ℤ◌, ◌-ℤ◌, +ℤ_parts, -ℤ_parts, eq_of_parts}
use liquid_cache.Liquid.Dates.{ymd_from_epoch_days, year_of_era, days_before, era_of, mul_i64}
use liquid_cache.Liquid.Dates.Eras.{year_of_era_lem, era_of-days, era_of-days_sum}
use liquid_cache.Liquid.Dates.Calendar.{
  +ℤ_comm, back, rest_of_sum, shifted, ymd_from_epoch_days_bounds,
}
use liquid_cache.Liquid.Dates.Years.{is_leap_number, year_length_399, year_step, doy_in_year}
use liquid_cache.Liquid.Dates.Months.{
  Date, IsDate, date_at, day_at, day_in_month, is_leap, length_at, month_at, month_length,
  next_date, step_in_year, step_to_march,
}

-- The day of an era, as a day number.
abbrev day_of : ℤ → ℕ → ℤ
day_of e doe = mul_i64 e 146097 +ℤ pos doe -ℤ pos 719468

ymd_from_epoch_days-day_of :
    (e : ℤ) (doe : ℕ)
    → doe < 146097
    → ymd_from_epoch_days (day_of e doe)
      ≡ date_at e (year_of_era doe) (doe - days_before (year_of_era doe))
unfolding ymd_from_epoch_days
ymd_from_epoch_days-day_of e doe h =
    let era = mul_i64 e 146097 in
    let rest : pos_part (era +ℤ pos doe -ℤ era) ≡ doe =
      ap (λ s. pos_part (s -ℤ era)) (+ℤ_comm era (pos doe)) ∙ rest_of_sum era doe in
    rw (back (era +ℤ pos doe), era_of-days_sum e doe h, rest) refl

day_of-next : (e : ℤ) (doe : ℕ) → day_of e doe +ℤ pos 1 ≡ day_of e (doe + 1)
day_of-next e doe =
    let era = mul_i64 e 146097 in
    eq_of_parts (day_of e doe +ℤ pos 1) (day_of e (doe + 1)) (
      omega (
        arith,
        +ℤ_parts era (pos doe),
        -ℤ_parts (era +ℤ pos doe) (pos 719468),
        +ℤ_parts (day_of e doe) (pos 1),
        +ℤ_parts era (pos (doe + 1)),
        -ℤ_parts (era +ℤ pos (doe + 1)) (pos 719468),
      ))

-- The era after.
next_era :
    (e : ℤ)
    → (mul_i64 e 146097 +ℤ pos 146097 ≡ mul_i64 (e +ℤ pos 1) 146097 +ℤ pos 0)
      × (pos 400 +ℤ mul_i64 e 400 ≡ pos 0 +ℤ mul_i64 (e +ℤ pos 1) 400)
unfolding mul_i64 ◌+ℤ◌ ◌-ℤ◌
next_era (pos n) = ground arith
next_era (negsuc n) = ground arith

next_in_era :
    (e : ℤ) (doe : ℕ)
    → doe + 1 < 146097
    → next_date (ymd_from_epoch_days (day_of e doe)) ≡ ymd_from_epoch_days (day_of e (doe + 1))
next_in_era e doe h =
    let y = year_of_era doe in
    let doy = doe - days_before y in
    let few = (year_of_era_lem doe (omega arith)).0 in
    ap next_date (ymd_from_epoch_days-day_of e doe (omega arith))
    ∙ elim (year_step doe y h refl) [
      | inl (a, b, c) ↦
          step_in_year e y doy few c
          ∙ ap (date_at e y) (sym b)
          ∙ ap (λ k. date_at e k (doe + 1 - days_before k)) (sym a)
      | inr (a, b, c) ↦
          step_to_march e e y (y + 1) doy few b refl
          ∙ ap (date_at e (y + 1)) (sym c)
          ∙ ap (λ k. date_at e k (doe + 1 - days_before k)) (sym a)
    ]
    ∙ sym (ymd_from_epoch_days-day_of e (doe + 1) h)

era_ends : (year_of_era 146096 ≡ 399) × (146096 - days_before 399 ≡ 365) × (year_of_era 0 ≡ 0)
unfolding year_of_era days_before
era_ends = (refl, refl, refl)

next_over_era :
    (e : ℤ)
    → next_date (ymd_from_epoch_days (day_of e 146096))
      ≡ ymd_from_epoch_days (day_of (e +ℤ pos 1) 0)
unfolding days_before
next_over_era e =
    let (last, doy, first) = era_ends in
    ap next_date (ymd_from_epoch_days-day_of e 146096 (omega arith))
    ∙ ap (λ k. next_date (date_at e k (146096 - days_before k))) last
    ∙ ap (λ k. next_date (date_at e 399 k)) doy
    ∙ step_to_march e (e +ℤ pos 1) 399 0 365 (omega arith) (sym year_length_399) (next_era e).1
    ∙ ap (λ k. date_at (e +ℤ pos 1) k (0 - days_before k)) (sym first)
    ∙ sym (ymd_from_epoch_days-day_of (e +ℤ pos 1) 0 (omega arith))

-- The date of the next day is the next date, for every day of every year.
pub next_date-ymd_from_epoch_days :
    (days : ℤ) → next_date (ymd_from_epoch_days days) ≡ ymd_from_epoch_days (days +ℤ pos 1)
next_date-ymd_from_epoch_days days =
    let z = days +ℤ pos 719468 in
    let e = era_of z 146097 in
    let era = era_of-days z in
    let doe = pos_part (z -ℤ mul_i64 e 146097) in
    let at : day_of e doe ≡ days = shifted days (mul_i64 e 146097) doe era.0 in
    let step : next_date (ymd_from_epoch_days (day_of e doe))
        ≡ ymd_from_epoch_days (day_of e (doe + 1)) =
      elim (Bool-cases (ltb (doe + 1) 146097)) [
        | inl inside ↦ next_in_era e doe (ground arith)
        | inr outside ↦
            let last : doe ≡ 146096 = ground (arith, era.1) in
            ap (λ k. next_date (ymd_from_epoch_days (day_of e k))) last
            ∙ next_over_era e
            ∙ ap (λ m. ymd_from_epoch_days (m -ℤ pos 719468)) (sym (next_era e).0)
            ∙ ap (λ k. ymd_from_epoch_days (day_of e (k + 1))) (sym last)
      ] in
    ap (λ n. next_date (ymd_from_epoch_days n)) (sym at)
    ∙ step
    ∙ ap ymd_from_epoch_days (sym (day_of-next e doe) ∙ ap (λ n. n +ℤ pos 1) at)

pub ymd_from_epoch_days-IsDate : (days : ℤ) → IsDate (ymd_from_epoch_days days)
ymd_from_epoch_days-IsDate days =
    let z = days +ℤ pos 719468 in
    let e = era_of z 146097 in
    let era = era_of-days z in
    let doe = pos_part (z -ℤ mul_i64 e 146097) in
    let y = year_of_era doe in
    let doy = doe - days_before y in
    let at : day_of e doe ≡ days = shifted days (mul_i64 e 146097) doe era.0 in
    let date : date_at e y doy ≡ ymd_from_epoch_days days =
      sym (ymd_from_epoch_days-day_of e doe era.1) ∙ ap ymd_from_epoch_days at in
    let inside = day_in_month (is_leap_number (y + 1)) doy (doy_in_year doe y era.1 refl) in
    let long = length_at e y doy (year_of_era_lem doe era.1).0 in
    let b = ymd_from_epoch_days_bounds days in
    let known : day_at doy ≤ month_length (is_leap (date_at e y doy).0) (month_at doy) =
      omega (arith, inside, long) in
    let last : (ymd_from_epoch_days days).2
        ≤ month_length (is_leap (ymd_from_epoch_days days).0) (ymd_from_epoch_days days).1 =
      subst (λ (q : Date). q.2 ≤ month_length (is_leap q.0) q.1) date known in
    (b.0, b.1, b.2, last)
