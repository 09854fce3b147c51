-- ===== src/Time/Tests.antt =====
-- Tests of the timestamps.
use super_victor.Prelude.{◌≡◌, refl, true, some, none, arith}
use super_victor.Time.RoundTrip.{parse-format}
use super_victor.Time.Order.{format_rfc3339_le}
use super_victor.Prelude.Order.{le_text}
use super_victor.Time.Late.{parse-format_late}
use super_victor.Time.Civil.{CivilDate}
use super_victor.Time.Civil.Gregorian.{IsDate, days_in_month, is_leap}
use super_victor.Time.Civil.Counting.{calendar, civil_from_days-eq-calendar}
use super_victor.Prelude.Text.{codes, as_bytes}
use super_victor.Prelude.Decimal.{padded, parse_signed, parse_unsigned}
use super_victor.Time.Civil.{
  days_from_civil, civil_from_days, month_of, day_of, day_of_year, year_of_era,
}
use super_victor.Time.Offset.{split_offset, frac_ok, off_ok}
use super_victor.Time.{
  fraction, date_time, format_rfc3339, has_layout, get, in_range, seconds_of, finish, parse_fields,
  parse_rfc3339_unix,
}

formats :
    (format_rfc3339 0 0 ≡ codes "1970-01-01T00:00:00+00:00")
    × (format_rfc3339 1783707723 123456000 ≡ codes "2026-07-10T18:22:03.123456+00:00")
unfolding format_rfc3339 civil_from_days date_time fraction padded month_of day_of day_of_year
    year_of_era
formats = (refl, refl)

parses :
    (parse_rfc3339_unix (codes "2026-07-10T18:22:03.123456+00:00") ≡ some 1783707723)
    × (parse_rfc3339_unix (codes "2026-+7-+1T+1:00:00") ≡ some 1782867600)
    × (parse_rfc3339_unix (codes "2026-07-10T18:22:03+01:00") ≡ none)
unfolding parse_rfc3339_unix has_layout as_bytes parse_fields get finish in_range seconds_of
    split_offset frac_ok off_ok days_from_civil parse_signed parse_unsigned
parses = (refl, refl, refl)

parse-format_example : parse_rfc3339_unix (format_rfc3339 1783707723 123456000) ≡ some 1783707723
parse-format_example = parse-format 1783707723 123456000 (omega arith) (omega arith)

parse-format_late_example : parse_rfc3339_unix (format_rfc3339 253402300800 0) ≡ none
parse-format_late_example = parse-format_late 253402300800 0 (omega arith) (omega arith)

civil_from_days-eq-calendar_example : civil_from_days 60 ≡ calendar 60
civil_from_days-eq-calendar_example = civil_from_days-eq-calendar 60

abbrev leap_day : CivilDate
leap_day = record { year = 2024; month = 2; day = 29 }

leap_day-IsDate : IsDate leap_day
unfolding days_in_month is_leap
leap_day-IsDate = record { month_in = omega arith; day_in = omega arith }

format_rfc3339_le_example :
    le_text (format_rfc3339 1783707723 5) (format_rfc3339 1783707724 120000000) ≡ true
format_rfc3339_le_example =
    format_rfc3339_le 1783707723 5 1783707724 120000000 (omega arith) (omega arith) (omega arith)
      (omega arith)
