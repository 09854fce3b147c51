-- ===== src/Time/Late.antt =====
-- From the year 10000 on the year is printed with five digits or more, and the parser, which wants a
-- dash behind four, returns nothing.
use super_victor.Prelude.{
  ℕ, zero, suc, ◌/◌, ◌^◌, ◌≤◌, ◌<◌, ◌≡◌, false, none, List, [], ◌∷◌, ◌++◌, arith, ltb, length,
  get_or, append_assoc, All-append, Bool-cases, inl, inr, ◌≢◌,
}
use super_victor.Prelude.Text.{Text, as_bytes-ascii, IsAscii}
use super_victor.Prelude.Decimal.{padded, decimal}
use super_victor.Prelude.Decimal.Laws.{
  IsNumeric, decimal-IsNumeric, fixed-IsNumeric, IsNumeric-IsAscii, length-decimal-ge,
}
use super_victor.Time.Range.{second_10000, year-ge}
use super_victor.Time.RoundTrip.{
  fraction-IsTail, format_rfc3339-eq, date, hour, minute, second, tail,
}
use super_victor.Time.{date_time, format_rfc3339, has_layout, parse_rfc3339_unix}

padded-IsNumeric : (w n : ℕ) → IsNumeric (padded w n)
unfolding padded
padded-IsNumeric w n = elim (Bool-cases (ltb n (10 ^ w))) [
  | inl e ↦ rw e (fixed-IsNumeric w n)
  | inr e ↦ rw e (decimal-IsNumeric n)
]

padded-decimal : (w n : ℕ) → 10 ^ w ≤ n → padded w n ≡ decimal n
unfolding padded
padded-decimal w n h = ground arith

get_or-digit :
    (ds rest : List ℕ) (i : ℕ) → IsNumeric ds → i < length ds → get_or (ds ++ rest) i 0 ≢ b'-'
get_or-digit [] rest i h lt = absurd (omega arith)
get_or-digit (c ∷ ds) rest zero h lt = omega arith
get_or-digit (c ∷ ds) rest (suc i) h lt = get_or-digit ds rest i h.1 (omega arith)

no_layout : (b : List ℕ) → get_or b 4 0 ≢ b'-' → has_layout b ≡ false
unfolding has_layout
no_layout b h = ground arith

module _ (secs nanos : ℕ) where
  -- What follows the year.
  abbrev rest : Text
  rest =
      (b'-' ∷ padded 2 (date secs).month)
      ++ ((b'-' ∷ padded 2 (date secs).day)
          ++ ((b'T' ∷ padded 2 (hour secs))
              ++ ((b':' ∷ padded 2 (minute secs))
                  ++ ((b':' ∷ padded 2 (second secs)) ++ tail nanos))))

  format-rest : format_rfc3339 secs nanos ≡ padded 4 (date secs).year ++ rest
  unfolding date_time
  format-rest = rw format_rfc3339-eq (simp append_assoc)

  with_sign : (c w n : ℕ) (s : Text) → c < 128 → IsAscii s → IsAscii ((c ∷ padded w n) ++ s)
  with_sign c w n s hc h =
      (hc, All-append _ (padded w n) s (IsNumeric-IsAscii _ (padded-IsNumeric w n)) h)

  rest-IsAscii : nanos < 10 ^ 9 → IsAscii rest
  rest-IsAscii h = with_sign b'-' 2 (date secs).month _ (omega arith) (
      with_sign b'-' 2 (date secs).day _ (omega arith) (
        with_sign b'T' 2 (hour secs) _ (omega arith) (
          with_sign b':' 2 (minute secs) _ (omega arith)
            (with_sign b':' 2 (second secs) _ (omega arith) (fraction-IsTail nanos h).ascii))))

  -- The print of a timestamp of the year 10000 or later is refused, whatever the fraction.
  pub parse-format_late :
      second_10000 ≤ secs → nanos < 10 ^ 9 → parse_rfc3339_unix (format_rfc3339 secs nanos) ≡ none
  unfolding parse_rfc3339_unix
  parse-format_late h k =
      let year = (date secs).year in
      let late : 10000 ≤ year = year-ge (secs / 86400) (omega arith) in
      let digits = decimal-IsNumeric year in
      rw (
        format-rest,
        padded-decimal 4 year late,
        as_bytes-ascii _
            (All-append _ (decimal year) rest (IsNumeric-IsAscii _ digits) (rest-IsAscii k)),
        no_layout (decimal year ++ rest)
            (get_or-digit (decimal year) rest 4 digits (length-decimal-ge 4 year late)),
      )
