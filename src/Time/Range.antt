-- ===== src/Time/Range.antt =====
-- The seconds whose year has four digits: the first second of the year 10000 is 253402300800.
use super_victor.Prelude.{ℕ, ◌+◌, ◌-◌, ◌*◌, ◌/◌, ◌≤◌, ◌<◌, arith}
use super_victor.Time.Civil.{day_of_year, month_of, civil_from_days, era_days, epoch_shift}
use super_victor.Time.Civil.RoundTrip.{doe-IsDayOfYear}

abbrev pub day_10000 : ℕ
day_10000 = 2932897

abbrev pub second_10000 : ℕ
second_10000 = 253402300800

early_month : (doy : ℕ) → doy < 306 → 3 ≤ month_of doy
unfolding month_of
early_month doy h = ground arith

late_month : (doy : ℕ) → 306 ≤ doy → doy < 366 → month_of doy ≤ 2
unfolding month_of
late_month doy h k = ground arith

module _ (n : ℕ) where
  pub year-lt : n < day_10000 → (civil_from_days n).year < 10000
  unfolding civil_from_days
  year-lt h =
      let z = n + epoch_shift in
      let doe = z - z / era_days * era_days in
      let y = doe-IsDayOfYear doe (omega arith) in ground (arith, y, early_month (day_of_year doe))

  pub year-ge : day_10000 ≤ n → 10000 ≤ (civil_from_days n).year
  unfolding civil_from_days
  year-ge h =
      let z = n + epoch_shift in
      let doe = z - z / era_days * era_days in
      let y = doe-IsDayOfYear doe (omega arith) in ground (arith, y, late_month (day_of_year doe))
