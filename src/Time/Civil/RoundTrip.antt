-- ===== src/Time/Civil/RoundTrip.antt =====
-- `days_from_civil` undoes `civil_from_days`, and the other way round on the dates of the calendar.
use super_victor.Prelude.{
  ℕ, ◌+◌, ◌-◌, ◌*◌, ◌/◌, ◌%◌, ◌≤◌, ◌<◌, ◌≡◌, ◌∙◌, ap, arith, leb, if◌then◌else◌,
}
use super_victor.Prelude.Int.{pos}
use super_victor.Time.Civil.{
  year_of_era, day_of_year, month_of, day_of, civil_from_days, days_from_civil, era_days,
  epoch_shift,
}

-- The days of an era before its year `yoe`.
abbrev pub era_start : ℕ → ℕ
era_start yoe = 365 * yoe + yoe / 4 - yoe / 100

-- What the closed formula for the year of the era finds.
pub record IsYearOfEra (doe yoe : ℕ) : Type 0 where
  pub year_in : yoe < 400
  pub from : era_start yoe ≤ doe
  pub within : doe ≤ era_start yoe + 365
  pub before : doe < era_start (yoe + 1) + (yoe + 1) / 400

pub year_of_era-IsYearOfEra : (doe : ℕ) → doe < era_days → IsYearOfEra doe (year_of_era doe)
unfolding year_of_era
year_of_era-IsYearOfEra doe h = omega arith

-- The month and day of a day of the March-based year, and the day again from these.
pub record IsMonthDay (doy m d : ℕ) : Type 0 where
  pub month_in : (1 ≤ m) × (m ≤ 12)
  pub day_in : (1 ≤ d) × (d ≤ 31)
  pub back : (153 * ((m + 9) % 12) + 2) / 5 + d - 1 ≡ doy

pub doy-IsMonthDay : (doy : ℕ) → doy < 366 → IsMonthDay doy (month_of doy) (day_of doy)
unfolding month_of day_of
doy-IsMonthDay doy h = ground arith

-- `days_from_civil` on a year that does not end before year 0.
pub days_from_civil-pos :
    (yoe era m d : ℕ)
    → yoe < 400
    → epoch_shift ≤ era * era_days + (era_start yoe + ((153 * ((m + 9) % 12) + 2) / 5 + d - 1))
    → days_from_civil (pos (yoe + era * 400 + (if leb m 2 then 1 else 0))) m d
      ≡ pos (
          era * era_days + (era_start yoe + ((153 * ((m + 9) % 12) + 2) / 5 + d - 1)) - epoch_shift)
unfolding days_from_civil
days_from_civil-pos yoe era m d h late = ground arith

pub record IsDayOfYear (doe : ℕ) : Type 0 where
  pub year : IsYearOfEra doe (year_of_era doe)
  pub day_in : day_of_year doe < 366
  pub split : era_start (year_of_era doe) + day_of_year doe ≡ doe

pub doe-IsDayOfYear : (doe : ℕ) → doe < era_days → IsDayOfYear doe
unfolding day_of_year
doe-IsDayOfYear doe h = ground (arith, year_of_era-IsYearOfEra doe h)

days_from_civil-doe :
    (era doe : ℕ)
    → doe < era_days
    → epoch_shift ≤ era * era_days + doe
    → days_from_civil
        (pos (year_of_era doe + era * 400 + (if leb (month_of (day_of_year doe)) 2 then 1 else 0)))
        (month_of (day_of_year doe))
        (day_of (day_of_year doe))
      ≡ pos (era * era_days + doe - epoch_shift)
days_from_civil-doe era doe h late =
    let y = doe-IsDayOfYear doe h in
    let md = doy-IsMonthDay (day_of_year doe) y.day_in in
    days_from_civil-pos (year_of_era doe) era (month_of (day_of_year doe))
      (day_of (day_of_year doe)) y.year.year_in (rw (md.back, y.split) late)
    ∙ ap pos (rw (md.back, y.split))

-- Every day number is read back from its civil date.
pub days_from_civil-civil_from_days :
    (n : ℕ)
    → days_from_civil
        (pos (civil_from_days n).year)
        (civil_from_days n).month
        (civil_from_days n).day
      ≡ pos n
unfolding civil_from_days
days_from_civil-civil_from_days n =
    days_from_civil-doe ((n + epoch_shift) / era_days) _ (omega arith) (omega arith)
    ∙ ap pos (omega arith)
