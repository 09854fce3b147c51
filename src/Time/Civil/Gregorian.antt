-- ===== src/Time/Civil/Gregorian.antt =====
-- The Gregorian calendar, described by its leap rule and the lengths of its months.
use super_victor.Prelude.{
  ℕ, ◌+◌, ◌-◌, ◌*◌, ◌/◌, ◌%◌, ◌≤◌, ◌≡◌, ◌≢◌, refl, Bool, ◌&&◌, ◌||◌, not, arith, ltb, leb, ◌==◌,
  if◌then◌else◌,
}
use super_victor.Time.Civil.{CivilDate, era_days}
use super_victor.Time.Civil.RoundTrip.{era_start}

unfoldable pub is_leap : ℕ → Bool
is_leap y = (y % 4 == 0 && not (y % 100 == 0)) || y % 400 == 0

unfoldable pub days_in_month : ℕ → ℕ → ℕ
days_in_month y m =
    if m == 2
    then (if is_leap y then 29 else 28)
    else if m == 4 || m == 6 || m == 9 || m == 11
    then 30
    else 31

pub record IsDate (c : CivilDate) : Type 0 where
  pub month_in : (1 ≤ c.month) × (c.month ≤ 12)
  pub day_in : (1 ≤ c.day) × (c.day ≤ days_in_month c.year c.month)

unfoldable pub next_day : CivilDate → CivilDate
next_day c =
    if ltb c.day (days_in_month c.year c.month)
    then record c { day = c.day + 1 }
    else if ltb c.month 12
    then record c { month = c.month + 1; day = 1 }
    else record { year = c.year + 1; month = 1; day = 1 }

-- Days from 0000-03-01 to March 1st of year `y`.
unfoldable pub year_start : ℕ → ℕ
year_start y = y / 400 * era_days + era_start (y % 400)

year_start-suc :
    (y : ℕ) → year_start (y + 1) ≡ year_start y + (if is_leap (y + 1) then 366 else 365)
unfolding year_start is_leap
year_start-suc y = ground arith

-- Days from March 1st to the first of the month.
unfoldable pub month_start : ℕ → ℕ
month_start m = (153 * ((m + 9) % 12) + 2) / 5

abbrev next_month : ℕ → ℕ
next_month m = if ltb m 12 then m + 1 else 1

month_start-next_month :
    (y m : ℕ)
    → 1 ≤ m
    → m ≤ 12
    → m ≢ 2
    → month_start (next_month m) ≡ month_start m + days_in_month y m
unfolding month_start days_in_month
month_start-next_month y m lo hi h = ground arith

february : (month_start 2 ≡ 337) × (month_start 3 ≡ 0)
unfolding month_start
february = (refl, refl)

-- March-based year of a date.
abbrev pub march_year : CivilDate → ℕ
march_year c = c.year - (if leb c.month 2 then 1 else 0)

-- Days from 0000-03-01.
unfoldable pub ordinal : CivilDate → ℕ
ordinal c = year_start (march_year c) + (month_start c.month + c.day - 1)

-- The last day of February.
next_day-february :
    (y d : ℕ)
    → 1 ≤ y
    → days_in_month y 2 ≤ d
    → d ≤ days_in_month y 2
    → year_start y + 0 ≡ year_start (y - 1) + (337 + d - 1) + 1
unfolding days_in_month
next_day-february y d h lo hi =
    let e : y - 1 + 1 ≡ y = omega arith in
    let step = rw e at (year_start-suc (y - 1)) in ground arith

pub ordinal-next_day :
    (c : CivilDate) → IsDate c → 1 ≤ c.year → ordinal (next_day c) ≡ ordinal c + 1
unfolding ordinal next_day
ordinal-next_day c v h = ground (
  arith,
  february,
  month_start-next_month c.year c.month,
  next_day-february c.year c.day,
  year_start-suc (c.year - 1),
)
