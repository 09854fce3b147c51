-- ===== src/Time/Civil.antt =====
-- The calendar arithmetic of supervictor/endpoint/src/time.rs: `civil_from_days` inside
-- `format_rfc3339` and `days_from_civil` inside `parse_rfc3339_unix`. The proofs are in the child
-- modules. A day count from a `u64` of seconds is below 2 ^ 48, so the `i64` arithmetic does not
-- overflow; it is that of ℕ where no intermediate value is negative, and of ℤ elsewhere.
pub mod Gregorian
pub mod RoundTrip
pub mod Counting
use super_victor.Prelude.{ℕ, ◌+◌, ◌-◌, ◌*◌, ◌/◌, ◌%◌, ltb, leb, if◌then◌else◌}
use super_victor.Prelude.Int.{ℤ, pos, pos_part, ◌+ℤ◌, ◌-ℤ◌, ◌*ℤ◌, div_euclid}

pub record CivilDate : Type 0 where
  pub year : ℕ
  pub month : ℕ
  pub day : ℕ

-- Year of the era of a day of the era, `yoe`.
unfoldable pub year_of_era : ℕ → ℕ
year_of_era doe = (doe - doe / 1460 + doe / 36524 - doe / 146096) / 365

-- Day of the March-based year, `doy`.
unfoldable pub day_of_year : ℕ → ℕ
day_of_year doe = let yoe = year_of_era doe in doe - (365 * yoe + yoe / 4 - yoe / 100)

-- Month and day from the day of the March-based year.
unfoldable pub month_of : ℕ → ℕ
month_of doy = let mp = (5 * doy + 2) / 153 in if ltb mp 10 then mp + 3 else mp - 9

unfoldable pub day_of : ℕ → ℕ
day_of doy = let mp = (5 * doy + 2) / 153 in doy - (153 * mp + 2) / 5 + 1

abbrev pub epoch_shift : ℕ
epoch_shift = 719468

abbrev pub era_days : ℕ
era_days = 146097

unfoldable pub civil_from_days : ℕ → CivilDate
civil_from_days days =
    let z = days + epoch_shift in
    let era = z / era_days in
    let doe = z - era * era_days in
    let month = month_of (day_of_year doe) in
    record {
      year = year_of_era doe + era * 400 + (if leb month 2 then 1 else 0);
      month = month;
      day = day_of (day_of_year doe);
    }

-- `day` is at least 1 where this is called. `yoe` is the remainder of a Euclidean division, so it
-- is not negative.
unfoldable pub days_from_civil : ℤ → ℕ → ℕ → ℤ
unfolding ◌+ℤ◌ ◌-ℤ◌ ◌*ℤ◌ div_euclid
days_from_civil year month day =
    let y = year -ℤ pos (if leb month 2 then 1 else 0) in
    let era = div_euclid y 400 in
    let yoe = pos_part (y -ℤ era *ℤ pos 400) in
    let mp = (month + 9) % 12 in
    let doy = (153 * mp + 2) / 5 + day - 1 in
    let doe = yoe * 365 + yoe / 4 - yoe / 100 + doy in
    era *ℤ pos era_days +ℤ pos doe -ℤ pos epoch_shift
