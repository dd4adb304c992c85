-- ===== src/Liquid/Dates/Months.antt =====
-- The months of a year (Liquid/Dates.antt) day by day, and the date after a date.
use mathlib.Core.Path.{subst}
use liquid_cache.Prelude.{
  ℕ, suc, ◌+◌, ◌-◌, ◌*◌, ◌/◌, ◌≤◌, ◌<◌, ◌≡◌, refl, ap, arith, ◌==◌, ltb, leb, Bool, true, false,
  ◌||◌, inl, inr, ◌⊎◌, if◌then◌else◌, ◌∙◌, sym, Bool-cases,
}
use liquid_cache.Prelude.Int.{ℤ, pos, negsuc, ◌+ℤ◌, ◌-ℤ◌, +ℤ_parts, eq_of_parts}
use liquid_cache.Liquid.Dates.{mul_i64}
use liquid_cache.Liquid.Dates.Years.{is_leap_number}

unfoldable pub is_leap : ℤ → Bool
unfolding is_leap_number
is_leap (pos n) = is_leap_number n
is_leap (negsuc n) = is_leap_number (suc n)

is_leap-era : (e : ℤ) (k : ℕ) → k ≤ 400 → is_leap (pos k +ℤ mul_i64 e 400) ≡ is_leap_number k
unfolding is_leap mul_i64 ◌+ℤ◌ ◌-ℤ◌
is_leap-era (pos n) k h = ground arith
is_leap-era (negsuc n) k h = ground arith

abbrev pub Date : Type 0
Date = ℤ × ℕ × ℕ

unfoldable pub month_length : Bool → ℕ → ℕ
month_length leap m =
    if m == 2
    then (if leap then 29 else 28)
    else if (m == 4) || ((m == 6) || ((m == 9) || (m == 11)))
    then 30
    else 31

-- The date of the day after.
unfoldable pub next_date : Date → Date
unfolding month_length is_leap
next_date (y, m, d) =
    if ltb d (month_length (is_leap y) m)
    then (y, m, d + 1)
    else if m == 12
    then (y +ℤ pos 1, 1, 1)
    else (y, m + 1, 1)

abbrev pub month_at : ℕ → ℕ
month_at doy = let mp = (5 * doy + 2) / 153 in if ltb mp 10 then mp + 3 else mp - 9

abbrev pub day_at : ℕ → ℕ
day_at doy = doy - (153 * ((5 * doy + 2) / 153) + 2) / 5 + 1

-- The date of a day of a year of an era, both counted from March.
abbrev pub date_at : ℤ → ℕ → ℕ → Date
date_at e yoe doy =
    let y = pos yoe +ℤ mul_i64 e 400 in
    (if leb (month_at doy) 2 then y +ℤ pos 1 else y, month_at doy, day_at doy)

-- The next day of the same year from March.
month_step :
    (leap : Bool) (doy : ℕ)
    → doy + 1 < (if leap then 366 else 365)
    → ((day_at doy < month_length leap (month_at doy))
        × (month_at (doy + 1) ≡ month_at doy)
        × (day_at (doy + 1) ≡ day_at doy + 1))
      ⊎ (((month_length leap (month_at doy) ≤ day_at doy)
            × (leb (month_at doy + 1) 2 ≡ leb (month_at doy) 2)
            × (month_at doy + 1 ≤ 12)
            × (month_at (doy + 1) ≡ month_at doy + 1)
            × (day_at (doy + 1) ≡ 1))
          ⊎ ((month_length leap (month_at doy) ≤ day_at doy)
              × (month_at doy ≡ 12)
              × (month_at (doy + 1) ≡ 1)
              × (day_at (doy + 1) ≡ 1)))
unfolding month_length
month_step true doy h = ground arith
month_step false doy h = ground arith

+1_move : (a : ℕ) (b : ℤ) → pos a +ℤ b +ℤ pos 1 ≡ pos (a + 1) +ℤ b
+1_move a b =
    eq_of_parts (pos a +ℤ b +ℤ pos 1) (pos (a + 1) +ℤ b)
      (omega (arith, +ℤ_parts (pos a) b, +ℤ_parts (pos a +ℤ b) (pos 1), +ℤ_parts (pos (a + 1)) b))

length_other : (a b : Bool) (m : ℕ) → ¬ (m ≡ 2) → month_length a m ≡ month_length b m
unfolding month_length
length_other a b m h = ground arith

-- The length of the month of a date, by the year of the era.
pub length_at :
    (e : ℤ) (yoe doy : ℕ)
    → yoe < 400
    → month_length (is_leap (date_at e yoe doy).0) (month_at doy)
      ≡ month_length (is_leap_number (yoe + 1)) (month_at doy)
length_at e yoe doy h = elim (Bool-cases (month_at doy == 2)) [
  | inl feb ↦
      let early : leb (month_at doy) 2 ≡ true = ground arith in
      rw early (
        ap (λ l. month_length l (month_at doy))
          (ap is_leap (+1_move yoe (mul_i64 e 400)) ∙ is_leap-era e (yoe + 1) (omega arith)))
  | inr other ↦
      length_other (is_leap (date_at e yoe doy).0) (is_leap_number (yoe + 1)) (month_at doy)
        (λ f. ground arith)
]

same_date :
    {y y' : ℤ} {m m' d d' : ℕ} → y ≡ y' → m ≡ m' → d ≡ d' → ◌≡◌ {A = Date} (y, m, d) (y', m', d')
same_date a b c = cc

next_date-day :
    (y : ℤ) (m d : ℕ) → d < month_length (is_leap y) m → next_date (y, m, d) ≡ (y, m, d + 1)
unfolding next_date
next_date-day y m d h =
    let t : ltb d (month_length (is_leap y) m) ≡ true = ground arith in rw (t, next_date) refl

next_date-month :
    (y : ℤ) (m d : ℕ)
    → month_length (is_leap y) m ≤ d
    → m + 1 ≤ 12
    → next_date (y, m, d) ≡ (y, m + 1, 1)
unfolding next_date
next_date-month y m d h k =
    let t : ltb d (month_length (is_leap y) m) ≡ false = ground arith in
    let u : m == 12 ≡ false = ground arith in rw (t, u, next_date) refl

next_date-year :
    (y : ℤ) (d : ℕ) → month_length (is_leap y) 12 ≤ d → next_date (y, 12, d) ≡ (y +ℤ pos 1, 1, 1)
unfolding next_date
next_date-year y d h =
    let t : ltb d (month_length (is_leap y) 12) ≡ false = ground arith in rw (t, next_date) refl

abbrev civil : ℤ → ℕ → ℤ
civil y m = if leb m 2 then y +ℤ pos 1 else y

-- `month_step` for the dates of an era.
pub step_in_year :
    (e : ℤ) (yoe doy : ℕ)
    → yoe < 400
    → doy + 1 < (if is_leap_number (yoe + 1) then 366 else 365)
    → next_date (date_at e yoe doy) ≡ date_at e yoe (doy + 1)
step_in_year e yoe doy h k =
    let y = pos yoe +ℤ mul_i64 e 400 in
    let m = month_at doy in
    let long = length_at e yoe doy h in
    elim (month_step (is_leap_number (yoe + 1)) doy k) [
      | inl (a, b, c) ↦
          next_date-day (civil y m) m (day_at doy) (omega (arith, long))
          ∙ same_date (ap (civil y) (sym b)) (sym b) (sym c)
      | inr (inl (a, b, b', c, d)) ↦
          next_date-month (civil y m) m (day_at doy) (omega (arith, long)) b'
          ∙ same_date (ap (λ t. if t then y +ℤ pos 1 else y) (sym b) ∙ ap (civil y) (sym c)) (sym c)
              (sym d)
      | inr (inr (a, b, c, d)) ↦
          let long' : month_length (is_leap (civil y m)) 12 ≤ day_at doy =
            subst (λ n. month_length (is_leap (civil y m)) n ≤ day_at doy) b
              (omega (arith, long)) in
          ap (λ n. next_date (civil y m, n, day_at doy)) b
          ∙ next_date-year (civil y m) (day_at doy) long'
          ∙ same_date (ap (λ n. civil y n +ℤ pos 1) b ∙ ap (civil y) (sym c)) (sym c) (sym d)
    ]

february_ends :
    (leap : Bool) (doy : ℕ)
    → doy + 1 ≡ (if leap then 366 else 365)
    → (month_at doy ≡ 2) × (month_length leap 2 ≤ day_at doy)
unfolding month_length
february_ends true doy h = ground arith
february_ends false doy h = ground arith

-- The last day of February, and the first of March of the year after it counted from March.
pub step_to_march :
    (e e' : ℤ) (yoe yoe' doy : ℕ)
    → yoe < 400
    → doy + 1 ≡ (if is_leap_number (yoe + 1) then 366 else 365)
    → pos (yoe + 1) +ℤ mul_i64 e 400 ≡ pos yoe' +ℤ mul_i64 e' 400
    → next_date (date_at e yoe doy) ≡ date_at e' yoe' 0
step_to_march e e' yoe yoe' doy h k same =
    let y = pos yoe +ℤ mul_i64 e 400 in
    let m = month_at doy in
    let (feb, last) = february_ends (is_leap_number (yoe + 1)) doy k in
    let long : month_length (is_leap (civil y m)) m ≤ day_at doy =
      let given : month_length (is_leap_number (yoe + 1)) m ≤ day_at doy =
        subst (λ n. month_length (is_leap_number (yoe + 1)) n ≤ day_at doy) (sym feb) last in
      omega (arith, length_at e yoe doy h) in
    next_date-month (civil y m) m (day_at doy) long (omega (arith, feb))
    ∙ same_date (ap (civil y) feb ∙ +1_move yoe (mul_i64 e 400) ∙ same) (ap (λ n. n + 1) feb) refl

-- A date of the calendar.
abbrev pub IsDate : Date → Type 0
IsDate (y, m, d) = (1 ≤ m) × (m ≤ 12) × (1 ≤ d) × (d ≤ month_length (is_leap y) m)

pub day_in_month :
    (leap : Bool) (doy : ℕ)
    → doy < (if leap then 366 else 365)
    → day_at doy ≤ month_length leap (month_at doy)
unfolding month_length
day_in_month true doy h = ground arith
day_in_month false doy h = ground arith
