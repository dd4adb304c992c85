-- ===== src/Liquid/Dates/Eras.antt =====
-- Days of an era of 400 years (Liquid/Dates.antt): their years and the parts of their dates.
use liquid_cache.Prelude.{ℕ, ◌+◌, ◌-◌, ◌*◌, ◌/◌, ◌≤◌, ◌<◌, ◌≡◌, arith}
use liquid_cache.Prelude.Int.{ℤ, pos, negsuc, pos_part, neg_part, ◌+ℤ◌, ◌-ℤ◌}
use liquid_cache.Liquid.Dates.{year_of_era, days_before, era_of, div_i64, mul_i64}

-- A day of the era lies in the year that is computed for it.
pub year_of_era_lem :
    (doe : ℕ)
    → doe < 146097
    → (year_of_era doe < 400)
      × (days_before (year_of_era doe) ≤ doe)
      × (doe < days_before (year_of_era doe) + 366)
unfolding year_of_era days_before
year_of_era_lem doe h = omega arith

-- A day of the year, counted from the first of March, is in the month that is computed for it.
pub month_lem :
    (doy : ℕ)
    → doy < 366
    → ((5 * doy + 2) / 153 < 12)
      × ((153 * ((5 * doy + 2) / 153) + 2) / 5 ≤ doy)
      × (doy < (153 * ((5 * doy + 2) / 153) + 2) / 5 + 31)
month_lem doy h = omega arith

-- The first of January of a year of the era, which is day 306 from the first of March before.
pub year_of_era-january :
    (yoe : ℕ) → yoe < 400 → year_of_era (yoe * 365 + yoe / 4 - yoe / 100 + 306) ≡ yoe
unfolding year_of_era
year_of_era-january yoe h = omega arith

-- Floored division: the era and the rest of an integer, at each of the two lengths.
pub era_of-days :
    (z : ℤ)
    → let m = mul_i64 (era_of z 146097) 146097 in
      (pos_part z + neg_part m ≡ pos_part m + pos_part (z -ℤ m) + neg_part z)
      × (pos_part (z -ℤ m) < 146097)
unfolding era_of div_i64 mul_i64 ◌-ℤ◌
era_of-days (pos n) = ground arith
era_of-days (negsuc n) = ground arith

pub era_of-years :
    (z : ℤ)
    → let m = mul_i64 (era_of z 400) 400 in
      (pos_part z + neg_part m ≡ pos_part m + pos_part (z -ℤ m) + neg_part z)
      × (pos_part (z -ℤ m) < 400)
unfolding era_of div_i64 mul_i64 ◌-ℤ◌
era_of-years (pos n) = ground arith
era_of-years (negsuc n) = ground arith

-- The era of a sum of an era and a rest.
pub era_of-days_sum : (e : ℤ) (r : ℕ) → r < 146097 → era_of (mul_i64 e 146097 +ℤ pos r) 146097 ≡ e
unfolding era_of div_i64 mul_i64 ◌-ℤ◌ ◌+ℤ◌
era_of-days_sum (pos n) r h = ground arith
era_of-days_sum (negsuc n) r h = ground arith

pub era_of-years_sum : (e : ℤ) (r : ℕ) → r < 400 → era_of (pos r +ℤ mul_i64 e 400) 400 ≡ e
unfolding era_of div_i64 mul_i64 ◌-ℤ◌ ◌+ℤ◌
era_of-years_sum (pos n) r h = ground arith
era_of-years_sum (negsuc n) r h = ground arith
