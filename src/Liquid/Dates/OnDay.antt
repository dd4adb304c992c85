-- ===== src/Liquid/Dates/OnDay.antt =====
-- The calendar as a relation between dates, weekdays and day numbers, and the components of a day
-- (Liquid/Dates.antt) against it.
use mathlib.Core.Path.{subst}
use liquid_cache.Prelude.{
  ℕ, zero, suc, ◌+◌, ◌≤◌, ◌<◌, ◌≡◌, refl, sym, ap, ◌∙◌, arith, ◌==◌, if◌then◌else◌, ltb, Bool-cases,
  inl, inr, ◌⊎◌,
}
use liquid_cache.Prelude.Int.{ℤ, pos, negsuc, pos_part, neg_part, ◌+ℤ◌, ◌-ℤ◌, +ℤ_parts, eq_of_parts}
use liquid_cache.Liquid.Dates.{
  Date32Field, year, month, day, day_of_week, ymd_from_epoch_days, component_from_days,
  day_of_week_sunday0, rem_euclid7,
}
use liquid_cache.Liquid.Dates.Calendar.{IsI32, as_i32_lem}
use liquid_cache.Liquid.Dates.Lossy.{rem_euclid7-lt}
use liquid_cache.Liquid.Dates.Months.{month_length, is_leap, Date, IsDate, next_date}
use liquid_cache.Liquid.Dates.Days.{next_date-ymd_from_epoch_days, ymd_from_epoch_days-IsDate}

abbrev pub next_weekday : ℕ → ℕ
next_weekday w = if w == 6 then 0 else w + 1

-- The first of January 1970, a Thursday, is day 0, and a day has the number after that of the day
-- before it, before the epoch too.
pub data OnDay : Date → ℕ → ℤ → Type 0 where
  epoch : OnDay (pos 1970, 1, 1) 4 (pos 0)
  after :
      {date : Date} {w : ℕ} {days : ℤ}
      → OnDay date w days
      → OnDay (next_date date) (next_weekday w) (days +ℤ pos 1)
  before :
      {date : Date} {w : ℕ} {days : ℤ}
      → IsDate date
      → w < 7
      → OnDay (next_date date) (next_weekday w) (days +ℤ pos 1)
      → OnDay date w days

abbrev weekday : ℤ → ℕ
weekday days = rem_euclid7 (days +ℤ pos 4)

rem_euclid7-next : (z : ℤ) → next_weekday (rem_euclid7 z) ≡ rem_euclid7 (z +ℤ pos 1)
unfolding rem_euclid7 ◌+ℤ◌
rem_euclid7-next (pos n) = ground arith
rem_euclid7-next (negsuc n) = ground arith

swap : (a : ℤ) → a +ℤ pos 4 +ℤ pos 1 ≡ a +ℤ pos 1 +ℤ pos 4
swap a = eq_of_parts (a +ℤ pos 4 +ℤ pos 1) (a +ℤ pos 1 +ℤ pos 4) (
    omega (
      arith,
      +ℤ_parts a (pos 4),
      +ℤ_parts (a +ℤ pos 4) (pos 1),
      +ℤ_parts a (pos 1),
      +ℤ_parts (a +ℤ pos 1) (pos 4),
    ))

weekday-next : (days : ℤ) → next_weekday (weekday days) ≡ weekday (days +ℤ pos 1)
weekday-next days = rem_euclid7-next (days +ℤ pos 4) ∙ ap rem_euclid7 (swap days)

abbrev Placed : ℤ → Type 0
Placed days = OnDay (ymd_from_epoch_days days) (weekday days) days

placed_after : (days next : ℤ) → days +ℤ pos 1 ≡ next → Placed days → Placed next
placed_after days next e p = subst Placed e (
    subst (λ d. OnDay d (weekday (days +ℤ pos 1)) (days +ℤ pos 1))
      (next_date-ymd_from_epoch_days days)
      (subst (λ w. OnDay (next_date (ymd_from_epoch_days days)) w (days +ℤ pos 1))
        (weekday-next days) (after p)))

placed_before : (days next : ℤ) → days +ℤ pos 1 ≡ next → Placed next → Placed days
placed_before days next e p =
    before (ymd_from_epoch_days-IsDate days) (rem_euclid7-lt (days +ℤ pos 4)) (
      subst (λ w. OnDay (next_date (ymd_from_epoch_days days)) w (days +ℤ pos 1))
        (sym (weekday-next days))
        (subst (λ d. OnDay d (weekday (days +ℤ pos 1)) (days +ℤ pos 1))
          (sym (next_date-ymd_from_epoch_days days)) (subst Placed (sym e) p)))

suc_days : (n : ℕ) → pos n +ℤ pos 1 ≡ pos (suc n)
unfolding ◌+ℤ◌
suc_days n = ground arith

pre_days : (n : ℕ) → negsuc (suc n) +ℤ pos 1 ≡ negsuc n
unfolding ◌+ℤ◌
pre_days n = ground arith

placed_epoch : Placed (pos 0)
unfolding ymd_from_epoch_days rem_euclid7 ◌+ℤ◌ ◌-ℤ◌
placed_epoch = epoch

minus_one : negsuc 0 +ℤ pos 1 ≡ pos 0
unfolding ◌+ℤ◌
minus_one = refl

placed : (days : ℤ) → Placed days
placed (pos zero) = placed_epoch
placed (pos (suc n)) = placed_after (pos n) (pos (suc n)) (suc_days n) (placed (pos n))
placed (negsuc zero) = placed_before (negsuc 0) (pos 0) minus_one placed_epoch
placed (negsuc (suc n)) = placed_before (negsuc (suc n)) (negsuc n) (pre_days n) (placed (negsuc n))

-- The components of the date and the weekday of a day.
abbrev pub IsComponent : Date32Field → ℤ → ℤ → Type 0
IsComponent year days c = (m d w : ℕ) × OnDay (c, m, d) w days
IsComponent month days c = (y : ℤ) × (m d w : ℕ) × (c ≡ pos m) × OnDay (y, m, d) w days
IsComponent day days c = (y : ℤ) × (m d w : ℕ) × (c ≡ pos d) × OnDay (y, m, d) w days
IsComponent day_of_week days c = (date : Date) × (w : ℕ) × (c ≡ pos w) × OnDay date w days

-- The sum in the weekday fits an `i32`, for all but the last four day numbers.
abbrev pub ComponentFits : Date32Field → ℤ → Type 0
ComponentFits day_of_week days = IsI32 (days +ℤ pos 4)
ComponentFits _ days = Unit

pub component_from_days-IsComponent :
    (field : Date32Field) (days : ℤ)
    → ComponentFits field days
    → IsComponent field days (component_from_days field days)
unfolding component_from_days day_of_week_sunday0
component_from_days-IsComponent year days h =
    ((ymd_from_epoch_days days).1, (ymd_from_epoch_days days).2, weekday days, placed days)
component_from_days-IsComponent month days h =
    let (y, m, d) = ymd_from_epoch_days days in (y, m, d, weekday days, refl, placed days)
component_from_days-IsComponent day days h =
    let (y, m, d) = ymd_from_epoch_days days in (y, m, d, weekday days, refl, placed days)
component_from_days-IsComponent day_of_week days h = (
  ymd_from_epoch_days days,
  weekday days,
  ap (λ z. pos (rem_euclid7 z)) (as_i32_lem (days +ℤ pos 4) h),
  placed days,
)

next_year_inj : (y z : ℤ) → y +ℤ pos 1 ≡ z +ℤ pos 1 → y ≡ z
next_year_inj y z e =
    eq_of_parts y z
      (omega (arith, +ℤ_parts y (pos 1), +ℤ_parts z (pos 1), ap pos_part e, ap neg_part e))

-- What `next_date` does to a date of the calendar.
abbrev NextCases : Date → Type 0
NextCases (y, m, d) =
    (next_date (y, m, d) ≡ (y, m, d + 1))
    ⊎ (((m + 1 ≤ 12) × (d ≡ month_length (is_leap y) m) × (next_date (y, m, d) ≡ (y, m + 1, 1)))
        ⊎ ((m ≡ 12) × (d ≡ 31) × (next_date (y, m, d) ≡ (y +ℤ pos 1, 1, 1))))

next_date-cases : (a : Date) → IsDate a → NextCases a
unfolding next_date month_length
next_date-cases (y, m, d) h = elim (Bool-cases (ltb d (month_length (is_leap y) m))) [
  | inl inside ↦ inl (rw (inside, next_date) refl)
  | inr last ↦ elim (Bool-cases (m == 12)) [
    | inl december ↦ inr (inr (ground arith, ground arith, rw (last, december, next_date) refl))
    | inr other ↦ inr (inl (ground arith, ground arith, rw (last, other, next_date) refl))
  ]
]

triple : (a b : Date) → a ≡ b → (a.0 ≡ b.0) × (a.1 ≡ b.1) × (a.2 ≡ b.2)
triple a b e = (ap (λ (q : Date). q.0) e, ap (λ (q : Date). q.1) e, ap (λ (q : Date). q.2) e)

same_date : (y z : ℤ) (m n d c : ℕ) → y ≡ z → m ≡ n → d ≡ c → ◌≡◌ {A = Date} (y, m, d) (z, n, c)
same_date y z m n d c a b e = cc

next_date-inj : (a b : Date) → IsDate a → IsDate b → next_date a ≡ next_date b → a ≡ b
next_date-inj (y, m, d) (z, n, c) p q e = elim (next_date-cases (y, m, d) p) [
  | inl k ↦ elim (next_date-cases (z, n, c) q) [
    | inl k' ↦
        let (ey, em, ed) = triple (y, m, d + 1) (z, n, c + 1) (sym k ∙ e ∙ k') in
        same_date y z m n d c ey em (omega (arith, ed))
    | inr (inl (r, l, k')) ↦
        let (ey, em, ed) = triple (y, m, d + 1) (z, n + 1, 1) (sym k ∙ e ∙ k') in
        absurd (omega (arith, ed, p))
    | inr (inr (r, l, k')) ↦
        let (ey, em, ed) = triple (y, m, d + 1) (z +ℤ pos 1, 1, 1) (sym k ∙ e ∙ k') in
        absurd (omega (arith, ed, p))
  ]
  | inr (inl (r, l, k)) ↦ elim (next_date-cases (z, n, c) q) [
    | inl k' ↦
        let (ey, em, ed) = triple (y, m + 1, 1) (z, n, c + 1) (sym k ∙ e ∙ k') in
        absurd (omega (arith, ed, q))
    | inr (inl (r', l', k')) ↦
        let (ey, em, ed) = triple (y, m + 1, 1) (z, n + 1, 1) (sym k ∙ e ∙ k') in
        let months : m ≡ n = omega (arith, em) in
        same_date y z m n d c ey months (
          l
          ∙ ap (λ x. month_length (is_leap x) m) ey
          ∙ ap (month_length (is_leap z)) months
          ∙ sym l')
    | inr (inr (r', l', k')) ↦
        let (ey, em, ed) = triple (y, m + 1, 1) (z +ℤ pos 1, 1, 1) (sym k ∙ e ∙ k') in
        absurd (omega (arith, em, p))
  ]
  | inr (inr (r, l, k)) ↦ elim (next_date-cases (z, n, c) q) [
    | inl k' ↦
        let (ey, em, ed) = triple (y +ℤ pos 1, 1, 1) (z, n, c + 1) (sym k ∙ e ∙ k') in
        absurd (omega (arith, ed, q))
    | inr (inl (r', l', k')) ↦
        let (ey, em, ed) = triple (y +ℤ pos 1, 1, 1) (z, n + 1, 1) (sym k ∙ e ∙ k') in
        absurd (omega (arith, em, q))
    | inr (inr (r', l', k')) ↦
        let (ey, em, ed) = triple (y +ℤ pos 1, 1, 1) (z +ℤ pos 1, 1, 1) (sym k ∙ e ∙ k') in
        same_date y z m n d c (next_year_inj y z ey) (r ∙ sym r') (l ∙ sym l')
  ]
]

next_weekday-inj : (v w : ℕ) → v < 7 → w < 7 → next_weekday v ≡ next_weekday w → v ≡ w
next_weekday-inj v w p q e = ground arith

epoch_date : (ymd_from_epoch_days (pos 0) ≡ (pos 1970, 1, 1)) × (weekday (pos 0) ≡ 4)
unfolding ymd_from_epoch_days rem_euclid7 ◌+ℤ◌ ◌-ℤ◌
epoch_date = (refl, refl)

-- Every day has one date and one weekday, those that the functions compute.
pub OnDay-unique :
    (date : Date) (w : ℕ) (days : ℤ)
    → OnDay date w days
    → (ymd_from_epoch_days days ≡ date) × (rem_euclid7 (days +ℤ pos 4) ≡ w)
OnDay-unique _ _ _ epoch = epoch_date
OnDay-unique _ _ _ (after {date} {w} {days} p) =
    let (a, b) = OnDay-unique date w days p in
    (
      sym (next_date-ymd_from_epoch_days days) ∙ ap next_date a,
      sym (weekday-next days) ∙ ap next_weekday b,
    )
OnDay-unique _ _ _ (before {date} {w} {days} is_date lt p) =
    let (a, b) = OnDay-unique (next_date date) (next_weekday w) (days +ℤ pos 1) p in
    (
      next_date-inj (ymd_from_epoch_days days) date (ymd_from_epoch_days-IsDate days) is_date
          (next_date-ymd_from_epoch_days days ∙ a),
      next_weekday-inj (weekday days) w (rem_euclid7-lt (days +ℤ pos 4)) lt (weekday-next days ∙ b),
    )
