-- ===== src/Time/Civil/Counting.antt =====
-- `civil_from_days` counts the days of the Gregorian calendar, and is undone by its inverse.
use super_victor.Prelude.{
  ℕ, zero, suc, ◌+◌, ◌-◌, ◌*◌, ◌/◌, ◌%◌, ◌≤◌, ◌<◌, ◌≡◌, refl, ◌∙◌, sym, ap, arith, leb,
  if◌then◌else◌,
}
use super_victor.Prelude.Int.{pos}
use super_victor.Time.Civil.{
  CivilDate, year_of_era, day_of_year, month_of, day_of, civil_from_days, days_from_civil, era_days,
  epoch_shift,
}
use super_victor.Time.Civil.RoundTrip.{
  era_start, doe-IsDayOfYear, doy-IsMonthDay, days_from_civil-pos,
}
use super_victor.Time.Civil.Gregorian.{
  is_leap, days_in_month, IsDate, next_day, year_start, month_start, march_year, ordinal,
  ordinal-next_day,
}

-- `civil_from_days` with the epoch shift taken off.
abbrev civil_from_ordinal : ℕ → CivilDate
civil_from_ordinal z =
    let doe = z - z / era_days * era_days in
    let month = month_of (day_of_year doe) in
    record {
      year = year_of_era doe + z / era_days * 400 + (if leb month 2 then 1 else 0);
      month = month;
      day = day_of (day_of_year doe);
    }

-- The closed formula finds the only year of the era that holds the day.
year_of_era_unique :
    (yoe doe : ℕ)
    → yoe < 400
    → era_start yoe ≤ doe
    → doe < era_start (yoe + 1) + (yoe + 1) / 400
    → year_of_era doe ≡ yoe
unfolding year_of_era
year_of_era_unique yoe doe h lo hi = omega arith

doy_bound :
    (c : CivilDate)
    → IsDate c
    → 1 ≤ c.year
    → march_year c % 400 < 400
      × (month_start c.month + c.day - 1 < (if is_leap (march_year c + 1) then 366 else 365))
unfolding month_start days_in_month is_leap
doy_bound c v h = ground arith

month_of-month_start :
    (y m d : ℕ)
    → 1 ≤ m
    → m ≤ 12
    → 1 ≤ d
    → d ≤ days_in_month y m
    → (month_of (month_start m + d - 1) ≡ m) × (day_of (month_start m + d - 1) ≡ d)
unfolding month_of day_of month_start days_in_month
month_of-month_start y m d lo hi dlo dhi = ground arith

day_of_year-eq :
    (yoe doy : ℕ)
    → year_of_era (era_start yoe + doy) ≡ yoe
    → day_of_year (era_start yoe + doy) ≡ doy
unfolding day_of_year
day_of_year-eq yoe doy e = rw e (omega arith)

civil_from_ordinal-parts :
    (c : CivilDate) (yoe era doy : ℕ) (z : ℕ)
    → yoe < 400
    → z ≡ era * era_days + (era_start yoe + doy)
    → era_start yoe + doy < era_start (yoe + 1) + (yoe + 1) / 400
    → month_of doy ≡ c.month
    → day_of doy ≡ c.day
    → c.year ≡ yoe + era * 400 + (if leb c.month 2 then 1 else 0)
    → civil_from_ordinal z ≡ c
civil_from_ordinal-parts c yoe era doy z h zh before m d y =
    let e1 : z / era_days ≡ era = omega arith in
    let e2 : z - z / era_days * era_days ≡ era_start yoe + doy = omega arith in
    let e3 = year_of_era_unique yoe (era_start yoe + doy) h (omega arith) before in
    let e4 = day_of_year-eq yoe doy e3 in rw (e2, e1, e3, e4, m, d) (ground arith)

leap_room :
    (y doy : ℕ)
    → doy < (if is_leap (y + 1) then 366 else 365)
    → era_start (y % 400) + doy < era_start (y % 400 + 1) + (y % 400 + 1) / 400
unfolding is_leap
leap_room y doy h = ground arith

-- The inverse on the dates of the calendar.
civil_from_ordinal-ordinal :
    (c : CivilDate) → IsDate c → 1 ≤ c.year → civil_from_ordinal (ordinal c) ≡ c
unfolding ordinal year_start
civil_from_ordinal-ordinal c v h =
    let md =
      month_of-month_start c.year c.month c.day v.month_in.0 v.month_in.1 v.day_in.0 v.day_in.1 in
    let doy = doy_bound c v h in
    civil_from_ordinal-parts c (march_year c % 400) (march_year c / 400)
      (month_start c.month + c.day - 1) _ (omega arith) (omega arith)
      (leap_room (march_year c) _ doy.1) md.0 md.1 (ground arith)

-- The length of the month is right also at the end of February.
day_in_month :
    (y doy : ℕ)
    → doy < (if is_leap (y + 1) then 366 else 365)
    → day_of doy ≤ days_in_month (y + (if leb (month_of doy) 2 then 1 else 0)) (month_of doy)
unfolding month_of day_of days_in_month
day_in_month y doy h = ground arith

room_leap :
    (yoe era doy : ℕ)
    → yoe < 400
    → era_start yoe + doy < era_start (yoe + 1) + (yoe + 1) / 400
    → doy < (if is_leap (yoe + era * 400 + 1) then 366 else 365)
unfolding is_leap
room_leap yoe era doy h before = ground arith

march_year_of :
    (yoe era m d : ℕ)
    → march_year
        (record { year = yoe + era * 400 + (if leb m 2 then 1 else 0); month = m; day = d })
      ≡ yoe + era * 400
march_year_of yoe era m d = ground arith

year_start-era :
    (yoe era : ℕ) → yoe < 400 → year_start (yoe + era * 400) ≡ era * era_days + era_start yoe
unfolding year_start
year_start-era yoe era h = ground arith

-- What `civil_from_days` returns is a date of the calendar.
pub civil_from_days-IsDate : (n : ℕ) → IsDate (civil_from_days n) × (1 ≤ (civil_from_days n).year)
unfolding civil_from_days
civil_from_days-IsDate n =
    let z = n + epoch_shift in
    let doe = z - z / era_days * era_days in
    let y = doe-IsDayOfYear doe (omega arith) in
    let md = doy-IsMonthDay (day_of_year doe) y.day_in in
    let room =
      room_leap (year_of_era doe) (z / era_days) (day_of_year doe) y.year.year_in
        (rw y.split y.year.before) in
    let fits = day_in_month (year_of_era doe + z / era_days * 400) (day_of_year doe) room in
    (record { month_in = md.month_in; day_in = (md.day_in.0, fits) }, omega arith)

ordinal-civil_from_days : (n : ℕ) → ordinal (civil_from_days n) ≡ n + epoch_shift
unfolding civil_from_days ordinal month_start
ordinal-civil_from_days n =
    let z = n + epoch_shift in
    let doe = z - z / era_days * era_days in
    let y = doe-IsDayOfYear doe (omega arith) in
    let md = doy-IsMonthDay (day_of_year doe) y.day_in in
    rw
      (
        march_year_of (year_of_era doe) (z / era_days) (month_of (day_of_year doe)) 0,
        year_start-era (year_of_era doe) (z / era_days) y.year.year_in,
        md.back,
      )
      (omega (arith, y.split))

next_day-IsDate : (c : CivilDate) → IsDate c → IsDate (next_day c)
unfolding next_day days_in_month
next_day-IsDate c v = ground arith

year-next_day : (c : CivilDate) → 1 ≤ c.year → 1 ≤ (next_day c).year
unfolding next_day
year-next_day c h = ground arith

civil_from_days-shift : (n : ℕ) → civil_from_days n ≡ civil_from_ordinal (n + epoch_shift)
unfolding civil_from_days
civil_from_days-shift n = refl

pub civil_from_days-suc : (n : ℕ) → civil_from_days (suc n) ≡ next_day (civil_from_days n)
civil_from_days-suc n =
    let (v, h) = civil_from_days-IsDate n in
    let c = civil_from_days n in
    let count : ordinal (next_day c) ≡ suc n + epoch_shift =
      omega (arith, ordinal-next_day c v h, ordinal-civil_from_days n) in
    civil_from_days-shift (suc n)
    ∙ ap civil_from_ordinal (sym count)
    ∙ civil_from_ordinal-ordinal (next_day c) (next_day-IsDate c v) (year-next_day c h)

-- The day after `n` days from 1970-01-01, by counting.
unfoldable pub calendar : ℕ → CivilDate
calendar zero = record { year = 1970; month = 1; day = 1 }
calendar (suc n) = next_day (calendar n)

-- The date that `format_rfc3339` computes for a day number is the one that counting days from
-- 1970-01-01 by the leap rule and the lengths of the months arrives at, for every day number.
pub civil_from_days-eq-calendar : (n : ℕ) → civil_from_days n ≡ calendar n
unfolding calendar
civil_from_days-eq-calendar zero =
    unfold civil_from_days year_of_era day_of_year month_of day_of in refl
civil_from_days-eq-calendar (suc n) =
    civil_from_days-suc n ∙ ap next_day (civil_from_days-eq-calendar n)

late-year_start : (y : ℕ) → 1969 ≤ y → 719162 ≤ year_start y
unfolding year_start
late-year_start y h = omega arith

later-year_start : (y : ℕ) → 1970 ≤ y → epoch_shift ≤ year_start y
unfolding year_start
later-year_start y h = omega arith

epoch-le-ordinal : (c : CivilDate) → IsDate c → 1970 ≤ c.year → epoch_shift ≤ ordinal c
unfolding ordinal month_start
epoch-le-ordinal c v h =
    ground (arith, late-year_start (march_year c), later-year_start (march_year c))

days_from_civil-ordinal :
    (c : CivilDate)
    → IsDate c
    → 1970 ≤ c.year
    → (days_from_civil (pos c.year) c.month c.day ≡ pos (ordinal c - epoch_shift))
      × (epoch_shift ≤ ordinal c)
unfolding ordinal year_start month_start
days_from_civil-ordinal c v h =
    let late = epoch-le-ordinal c v h in
    let e : c.year
        ≡ march_year c % 400 + march_year c / 400 * 400 + (if leb c.month 2 then 1 else 0) =
      ground arith in
    (
      ap (λ y. days_from_civil (pos y) c.month c.day) e
          ∙ days_from_civil-pos (march_year c % 400) (march_year c / 400) c.month c.day
              (omega arith) (omega arith)
          ∙ ap pos (omega arith),
      late,
    )

-- Every date of the calendar from 1970 on has a day number, which `parse_rfc3339_unix` computes and
-- from which `format_rfc3339` computes the date again.
pub civil_from_days-days_from_civil :
    (c : CivilDate)
    → IsDate c
    → 1970 ≤ c.year
    → (n : ℕ) × (days_from_civil (pos c.year) c.month c.day ≡ pos n) × (civil_from_days n ≡ c)
civil_from_days-days_from_civil c v h =
    let (e, le) = days_from_civil-ordinal c v h in
    let back : ordinal c - epoch_shift + epoch_shift ≡ ordinal c = omega arith in
    (
      ordinal c - epoch_shift,
      e,
      civil_from_days-shift (ordinal c - epoch_shift)
          ∙ ap civil_from_ordinal back
          ∙ civil_from_ordinal-ordinal c v (omega arith),
    )
