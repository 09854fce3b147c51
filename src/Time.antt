-- ===== src/Time.antt =====
-- supervictor/endpoint/src/time.rs: `format_rfc3339` and `parse_rfc3339_unix`. A text is its
-- characters; the parser works on its UTF-8 bytes, as the code does. The calendar is in `Civil`,
-- the round trip in `RoundTrip`.
pub mod Civil
pub mod Offset
pub mod Layout
pub mod RoundTrip
pub mod Tail
pub mod Order
pub mod Range
pub mod Late
mod Tests
use mathlib.Core.List.{flatten}
use super_victor.Prelude.{
  ℕ, zero, suc, ◌+◌, ◌-◌, ◌*◌, ◌/◌, ◌%◌, ◌^◌, Bool, true, false, ◌&&◌, ◌||◌, not, Option, none,
  some, List, [], ◌∷◌, ◌++◌, ltb, leb, ◌==◌, if◌then◌else◌, ◌>>=◌, length, get_or, take, drop, all,
}
use super_victor.Prelude.Text.{Text, codes, as_bytes, ◌≟◌}
use super_victor.Prelude.Int.{ℤ, pos, negsuc, pos_part, ltb_ℤ}
use super_victor.Prelude.Decimal.{
  decimal, padded, is_ascii_digit, parse_unsigned, parse_signed, fixed,
}
use super_victor.Time.Civil.{CivilDate, civil_from_days, days_from_civil}
use super_victor.Time.Offset.{split_offset, frac_ok, off_ok}

-- The fraction that `format_rfc3339` prints: 0, 3, 6 or 9 digits.
unfoldable pub fraction : ℕ → Text
unfolding padded
fraction nanos =
    if nanos == 0
    then []
    else if nanos % 1000000 == 0
    then b'.' ∷ padded 3 (nanos / 1000000)
    else if nanos % 1000 == 0
    then b'.' ∷ padded 6 (nanos / 1000)
    else b'.' ∷ padded 9 nanos

-- `{year:04}-{month:02}-{day:02}T{hour:02}:{min:02}:{sec:02}`
unfoldable pub date_time : CivilDate → ℕ → ℕ → ℕ → Text
date_time c hour min sec =
    padded 4 c.year
    ++ (b'-' ∷ padded 2 c.month)
    ++ (b'-' ∷ padded 2 c.day)
    ++ (b'T' ∷ padded 2 hour)
    ++ (b':' ∷ padded 2 min)
    ++ (b':' ∷ padded 2 sec)

unfoldable pub format_rfc3339 : ℕ → ℕ → Text
format_rfc3339 unix_secs nanos =
    let days = unix_secs / 86400 in
    let secs_of_day = unix_secs % 86400 in
    date_time (civil_from_days days) (secs_of_day / 3600) (secs_of_day % 3600 / 60)
      (secs_of_day % 60)
    ++ fraction nanos
    ++ codes "+00:00"

-- `str::is_char_boundary` on the bytes: not before a continuation byte.
unfoldable pub is_char_boundary : List ℕ → ℕ → Bool
is_char_boundary b i =
    i == length b || (ltb i (length b) && not (leb 128 (get_or b i 0) && ltb (get_or b i 0) 192))

-- `s.get(i..j)`
unfoldable pub get : List ℕ → ℕ → ℕ → Option Text
unfolding is_char_boundary
get b i j =
    if is_char_boundary b i && is_char_boundary b j then some (take (j - i) (drop i b)) else none

abbrev pub i64_top : ℕ
i64_top = 2 ^ 63 - 1

abbrev pub u64_top : ℕ
u64_top = 2 ^ 64 - 1

-- The first test of `parse_rfc3339_unix`: the length and the separators.
unfoldable pub has_layout : List ℕ → Bool
has_layout b = not (
    ltb (length b) 19
    || not (get_or b 4 0 == b'-')
    || not (get_or b 7 0 == b'-')
    || (not (get_or b 10 0 == b'T') && not (get_or b 10 0 == b' '))
    || not (get_or b 13 0 == b':')
    || not (get_or b 16 0 == b':'))

-- The second test, on the numbers.
unfoldable pub in_range : ℤ → ℤ → ℕ → ℕ → ℕ → Bool
in_range month day hour min sec = not (
    ltb_ℤ month (pos 1)
    || ltb_ℤ (pos 12) month
    || ltb_ℤ day (pos 1)
    || ltb_ℤ (pos 31) day
    || ltb 23 hour
    || ltb 59 min
    || ltb 60 sec)

-- The last test and the result. A day count of a 4-character year is far below 2 ^ 64 / 86400.
unfoldable pub seconds_of : ℤ → ℕ → ℕ → ℕ → Option ℕ
seconds_of (pos days) hour min sec = some (days * 86400 + hour * 3600 + min * 60 + sec)
seconds_of (negsuc _) hour min sec = none

-- From the numbers and the text behind the seconds.
unfoldable pub finish : ℤ → ℤ → ℤ → ℕ → ℕ → ℕ → Text → Option ℕ
finish year month day hour min sec rest =
    let (frac, off) = split_offset rest in
    if not (in_range month day hour min sec)
    then none
    else if not (frac_ok frac) || not (off_ok off)
    then none
    else seconds_of (days_from_civil year (pos_part month) (pos_part day)) hour min sec

unfoldable pub parse_fields : List ℕ → Option ℕ
parse_fields b = do
  year_text ← get b 0 4
  year ← parse_signed i64_top year_text
  month_text ← get b 5 7
  month ← parse_signed i64_top month_text
  day_text ← get b 8 10
  day ← parse_signed i64_top day_text
  hour_text ← get b 11 13
  hour ← parse_unsigned u64_top hour_text
  min_text ← get b 14 16
  min ← parse_unsigned u64_top min_text
  sec_text ← get b 17 19
  sec ← parse_unsigned u64_top sec_text
  finish year month day hour min sec (drop 19 b)

unfoldable pub parse_rfc3339_unix : Text → Option ℕ
parse_rfc3339_unix s = let b = as_bytes s in if has_layout b then parse_fields b else none

-- `now_rfc3339`: the clock is read once; a clock before 1970 counts as 1970.
unfoldable pub now_rfc3339 : Option (ℕ × ℕ) → Text
now_rfc3339 (some (secs, nanos)) = format_rfc3339 secs nanos
now_rfc3339 none = format_rfc3339 0 0
