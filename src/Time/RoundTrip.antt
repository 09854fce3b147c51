-- ===== src/Time/RoundTrip.antt =====
-- `parse_rfc3339_unix` undoes `format_rfc3339` as long as the year has four digits, and refuses its
-- text from the year 10000 on.
use super_victor.Prelude.{
  ℕ, suc, ◌/◌, ◌%◌, ◌^◌, ◌<◌, ◌≡◌, refl, ap, true, some, [], ◌∷◌, ◌++◌, ◌⊎◌, inl, inr, arith, ◌==◌,
  all, append_assoc, lt→ltb, All-append, Bool-cases,
}
use super_victor.Prelude.Text.{Text, codes, as_bytes-ascii, IsAscii, ≟_iff}
use super_victor.Prelude.Int.{pos}
use super_victor.Prelude.Decimal.{fixed, is_ascii_digit}
use super_victor.Prelude.Decimal.Laws.{
  fixed-IsNumeric, fixed-IsAscii, fixed-ne-nil, padded-fixed, IsNumeric,
}
use super_victor.Time.Civil.{CivilDate, civil_from_days}
use super_victor.Time.Civil.RoundTrip.{days_from_civil-civil_from_days}
use super_victor.Time.Civil.Counting.{civil_from_days-IsDate}
use super_victor.Time.Civil.Gregorian.{days_in_month}
use super_victor.Time.Offset.{split_offset, frac_ok, off_ok}
use super_victor.Time.Range.{second_10000, year-lt}
use super_victor.Time.Layout.{
  Fits, spelled, spelled-IsAscii, has_layout-spelled, parse_fields-spelled,
}
use super_victor.Time.{
  fraction, date_time, format_rfc3339, in_range, seconds_of, finish, parse_rfc3339_unix,
}

-- The fraction is empty, or a dot and digits.
fraction_shape :
    (nanos : ℕ)
    → nanos < 10 ^ 9
    → (fraction nanos ≡ []) ⊎ ((w : ℕ) × (n : ℕ) × (fraction nanos ≡ b'.' ∷ fixed (suc w) n))
unfolding fraction
fraction_shape nanos h = elim (Bool-cases (nanos == 0)) [
  | inl e ↦ inl (rw e)
  | inr e ↦ elim (Bool-cases (nanos % 1000000 == 0)) [
    | inl e1 ↦ inr (2, nanos / 1000000, rw (e, e1, lt→ltb (nanos / 1000000) 1000 (omega arith)))
    | inr e1 ↦ elim (Bool-cases (nanos % 1000 == 0)) [
      | inl e2 ↦ inr (5, nanos / 1000, rw (e, e1, e2, lt→ltb (nanos / 1000) 1000000 (omega arith)))
      | inr e2 ↦ inr (8, nanos, rw (e, e1, e2, lt→ltb nanos 1000000000 h))
    ]
  ]
]

split_offset-digits :
    (ds : Text) (off : Text) → IsNumeric ds → split_offset (ds ++ b'+' ∷ off) ≡ (ds, b'+' ∷ off)
unfolding split_offset
split_offset-digits [] off h = refl
split_offset-digits (c ∷ ds) off h = ground (arith, split_offset-digits ds off h.1)

all-digits : (ds : Text) → IsNumeric ds → all is_ascii_digit ds ≡ true
all-digits [] h = refl
all-digits (c ∷ ds) h = ground (arith, all-digits ds h.1)

pub record IsTail (nanos : ℕ) : Type 0 where
  pub ascii : IsAscii (fraction nanos ++ codes "+00:00")
  split : split_offset (fraction nanos ++ codes "+00:00") ≡ (fraction nanos, codes "+00:00")
  accepted : frac_ok (fraction nanos) ≡ true

dot_ok : (w n : ℕ) → frac_ok (b'.' ∷ fixed (suc w) n) ≡ true
unfolding frac_ok
dot_ok w n =
    ground (
      arith,
      all-digits _ (fixed-IsNumeric (suc w) n),
      ≟_iff (fixed (suc w) n) [],
      fixed-ne-nil w n,
    )

dot_split :
    (ds off : Text)
    → IsNumeric ds
    → split_offset (b'.' ∷ (ds ++ b'+' ∷ off)) ≡ (b'.' ∷ ds, b'+' ∷ off)
unfolding split_offset
dot_split ds off h = rw (split_offset-digits ds off h)

pub fraction-IsTail : (nanos : ℕ) → nanos < 10 ^ 9 → IsTail nanos
fraction-IsTail nanos h = elim (fraction_shape nanos h) [
  | inl e ↦ record {
    ascii = rw e (omega arith);
    split = rw e (unfold split_offset in refl);
    accepted = rw e (unfold frac_ok in refl);
  }
  | inr (w, n, e) ↦ record {
    ascii =
        rw e
          (omega arith, All-append _ (fixed (suc w) n) _ (fixed-IsAscii (suc w) n) (omega arith));
    split = rw e (dot_split (fixed (suc w) n) _ (fixed-IsNumeric (suc w) n));
    accepted = rw e (dot_ok w n);
  }
]

-- The text in the layout of the parser, when the year has four digits.
pub format-spelled :
    (c : CivilDate) (hour min sec : ℕ) (tail : Text)
    → Fits c hour min sec
    → date_time c hour min sec ++ tail ≡ spelled c hour min sec tail
unfolding date_time spelled
format-spelled c hour min sec tail f =
    rw
      (
        padded-fixed 4 c.year f.year,
        padded-fixed 2 c.month f.month,
        padded-fixed 2 c.day f.day,
        padded-fixed 2 hour f.hour_in,
        padded-fixed 2 min f.min_in,
        padded-fixed 2 sec f.sec_in,
      )
      (unfold fixed in refl)

module _ (secs : ℕ) where
  abbrev pub hour : ℕ
  hour = secs % 86400 / 3600

  abbrev pub minute : ℕ
  minute = secs % 86400 % 3600 / 60

  abbrev pub second : ℕ
  second = secs % 86400 % 60

  abbrev pub date : CivilDate
  date = civil_from_days (secs / 86400)

  date-in_range : in_range (pos date.month) (pos date.day) hour minute second ≡ true
  unfolding in_range days_in_month
  date-in_range = ground (arith, (civil_from_days-IsDate (secs / 86400)).0)

  pub date-Fits : secs < second_10000 → Fits date hour minute second
  unfolding days_in_month
  date-Fits h = ground (arith, year-lt (secs / 86400), (civil_from_days-IsDate (secs / 86400)).0)

  finish-date :
      (nanos : ℕ)
      → nanos < 10 ^ 9
      → finish
          (pos date.year)
          (pos date.month)
          (pos date.day)
          hour
          minute
          second
          (fraction nanos ++ codes "+00:00")
        ≡ some secs
  unfolding finish seconds_of off_ok
  finish-date nanos h =
      let t = fraction-IsTail nanos h in
      rw (t.split, date-in_range, t.accepted, days_from_civil-civil_from_days (secs / 86400))
        (ap some (omega arith))

abbrev pub tail : ℕ → Text
tail nanos = fraction nanos ++ codes "+00:00"

pub format_rfc3339-eq :
    (secs nanos : ℕ)
    → format_rfc3339 secs nanos
      ≡ date_time (date secs) (hour secs) (minute secs) (second secs) ++ tail nanos
unfolding format_rfc3339
format_rfc3339-eq secs nanos = append_assoc _ (fraction nanos) _

-- A timestamp before the year 10000 is read back from its print, whatever the fraction.
pub parse-format :
    (secs nanos : ℕ)
    → secs < second_10000
    → nanos < 10 ^ 9
    → parse_rfc3339_unix (format_rfc3339 secs nanos) ≡ some secs
unfolding parse_rfc3339_unix
parse-format secs nanos h k =
    let t = fraction-IsTail nanos k in
    let fits = date-Fits secs h in
    let ascii =
      spelled-IsAscii (date secs) (hour secs) (minute secs) (second secs) (tail nanos) t.ascii in
    rw (
      format_rfc3339-eq,
      format-spelled (date secs) (hour secs) (minute secs) (second secs) (tail nanos) fits,
      as_bytes-ascii _ ascii,
      has_layout-spelled (date secs) (hour secs) (minute secs) (second secs) (tail nanos),
      parse_fields-spelled (date secs) (hour secs) (minute secs) (second secs) (tail nanos) fits
          t.ascii,
      finish-date secs nanos k,
    )
