-- ===== src/Liquid/Dates/Years.antt =====
-- The years of an era (Liquid/Dates.antt), day by day.
use mathlib.Core.Path.{subst}
use liquid_cache.Prelude.{
  ℕ, ◌+◌, ◌-◌, ◌%◌, ◌≤◌, ◌<◌, ◌≡◌, refl, arith, ◌==◌, ltb, Bool, not, ◌&&◌, ◌||◌, inl, inr, ◌⊎◌,
  if◌then◌else◌, sym, Bool-cases,
}
use liquid_cache.Liquid.Dates.{year_of_era, days_before}
use liquid_cache.Liquid.Dates.Eras.{year_of_era_lem}

unfoldable pub is_leap_number : ℕ → Bool
is_leap_number n = (n % 4 == 0) && (not (n % 100 == 0) || (n % 400 == 0))

year_of_era_unique :
    (doe y : ℕ) → y < 400 → days_before y ≤ doe → doe < days_before (y + 1) → year_of_era doe ≡ y
unfolding days_before year_of_era
year_of_era_unique doe y h a b = omega arith

year_of_era-upper :
    (doe : ℕ) → doe < 146097 → (doe < days_before (year_of_era doe + 1)) ⊎ (doe ≡ 146096)
unfolding days_before year_of_era
year_of_era-upper doe h = omega arith

days_before-next :
    (y : ℕ)
    → y < 399
    → days_before (y + 1) ≡ days_before y + (if is_leap_number (y + 1) then 366 else 365)
unfolding days_before is_leap_number
days_before-next y h = ground arith

abbrev year_length : ℕ → ℕ
year_length k = if is_leap_number k then 366 else 365

last_year : (doe : ℕ) → doe < 146097 → days_before 399 ≤ doe → year_of_era doe ≡ 399
unfolding year_of_era days_before
last_year doe h k = omega arith

pub year_length_399 : year_length (399 + 1) ≡ 366
unfolding is_leap_number
year_length_399 = refl

days_before_399 : (days_before 399 ≡ 145731) × (days_before 400 ≡ 146096)
unfolding days_before
days_before_399 = (refl, refl)

days_before-rises : (y : ℕ) → days_before y < days_before (y + 1)
unfolding days_before
days_before-rises y = omega arith

days_before_mono : (y : ℕ) → y < 400 → days_before y ≤ 145731
unfolding days_before
days_before_mono y h = omega arith

-- The next day of an era is one of the same year from March, or the first of the next year.
pub year_step :
    (doe y : ℕ)
    → doe + 1 < 146097
    → year_of_era doe ≡ y
    → ((year_of_era (doe + 1) ≡ y)
        × (doe + 1 - days_before y ≡ doe - days_before y + 1)
        × (doe - days_before y + 1 < year_length (y + 1)))
      ⊎ ((year_of_era (doe + 1) ≡ y + 1)
          × (doe - days_before y + 1 ≡ year_length (y + 1))
          × (doe + 1 - days_before (y + 1) ≡ 0))
year_step doe y h e =
    let bounds = year_of_era_lem doe (omega arith) in
    let low : days_before y ≤ doe = subst (λ k. days_before k ≤ doe) e bounds.1 in
    let few : y < 400 = subst (λ k. k < 400) e bounds.0 in
    elim (Bool-cases (ltb y 399)) [
      | inl early ↦
          let y_lt : y < 399 = ground arith in
          let long = days_before-next y y_lt in
          let top : (doe < days_before (y + 1)) ⊎ (doe ≡ 146096) =
            subst (λ k. (doe < days_before (k + 1)) ⊎ (doe ≡ 146096)) e
              (year_of_era-upper doe (omega arith)) in
          elim (Bool-cases (ltb (doe + 1) (days_before (y + 1)))) [
            | inl inside ↦
                let lt : doe + 1 < days_before (y + 1) = ground arith in
                inl (
                  year_of_era_unique (doe + 1) y few (omega arith) lt,
                  omega arith,
                  omega (arith, long),
                )
            | inr outside ↦
                let ends : doe + 1 ≡ days_before (y + 1) = ground (arith, top) in
                let y1 : y + 1 < 400 = omega arith in
                let above = days_before-rises (y + 1) in
                inr (
                  year_of_era_unique (doe + 1) (y + 1) y1 (omega arith) (omega arith),
                  omega (arith, long, ends),
                  omega arith,
                )
          ]
      | inr late ↦
          let y_eq : y ≡ 399 = ground arith in
          let low' : days_before 399 ≤ doe = subst (λ k. days_before k ≤ doe) y_eq low in
          let d = days_before_399 in
          let goal : ((year_of_era (doe + 1) ≡ 399)
              × (doe + 1 - days_before 399 ≡ doe - days_before 399 + 1)
              × (doe - days_before 399 + 1 < year_length (399 + 1))) =
            (last_year (doe + 1) h (omega arith), omega arith, omega (arith, d, year_length_399)) in
          inl (
            subst
              (λ k.
                (year_of_era (doe + 1) ≡ k)
                × (doe + 1 - days_before k ≡ doe - days_before k + 1)
                × (doe - days_before k + 1 < year_length (k + 1)))
              (sym y_eq) goal)
    ]

pub doy_in_year :
    (doe y : ℕ) → doe < 146097 → year_of_era doe ≡ y → doe - days_before y < year_length (y + 1)
doy_in_year doe y h e =
    let bounds = year_of_era_lem doe h in
    let low : days_before y ≤ doe = subst (λ k. days_before k ≤ doe) e bounds.1 in
    let few : y < 400 = subst (λ k. k < 400) e bounds.0 in
    let top : (doe < days_before (y + 1)) ⊎ (doe ≡ 146096) =
      subst (λ k. (doe < days_before (k + 1)) ⊎ (doe ≡ 146096)) e (year_of_era-upper doe h) in
    elim (Bool-cases (ltb y 399)) [
      | inl early ↦
          let y_lt : y < 399 = ground arith in
          let rises = days_before_mono (y + 1) (omega arith) in
          let long = days_before-next y y_lt in ground (arith, top, long, rises)
      | inr late ↦
          let y_eq : y ≡ 399 = ground arith in
          let goal : doe - days_before 399 < year_length (399 + 1) =
            omega (arith, days_before_399, year_length_399) in
          subst (λ k. doe - days_before k < year_length (k + 1)) (sym y_eq) goal
    ]
