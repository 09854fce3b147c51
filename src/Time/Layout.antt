-- ===== src/Time/Layout.antt =====
-- Timestamps of the printed layout, as `parse_rfc3339_unix` reads them: the texts of its slices and
-- the numbers in them.
use super_victor.Prelude.{
  ℕ, zero, suc, ◌-◌, ◌^◌, ◌≤◌, ◌<◌, ◌≡◌, refl, true, some, List, [], ◌∷◌, ◌++◌, arith, length,
  get_or, take, drop,
}
use native.Mathlib.Nat.{le_trans}
use super_victor.Prelude.Text.{Text, IsAscii}
use super_victor.Prelude.Int.{pos}
use super_victor.Prelude.Decimal.{fixed, parse_signed, parse_unsigned}
use super_victor.Prelude.Decimal.Laws.{
  parse_signed-digits, parse_unsigned-digits, parse_digits-fixed, fixed-ne-nil,
}
use super_victor.Time.Civil.{CivilDate}
use super_victor.Time.{is_char_boundary, get, i64_top, u64_top, has_layout, finish, parse_fields}

get_or-ascii : (b : List ℕ) (i : ℕ) → IsAscii b → get_or b i 0 < 128
get_or-ascii [] i h = omega arith
get_or-ascii (c ∷ b) zero h = h.0
get_or-ascii (c ∷ b) (suc i) h = get_or-ascii b i h.1

boundary-ascii : (b : List ℕ) (i : ℕ) → IsAscii b → i ≤ length b → is_char_boundary b i ≡ true
unfolding is_char_boundary
boundary-ascii b i h k = ground (arith, get_or-ascii b i h)

get-ascii :
    (b : List ℕ) (i j : ℕ)
    → IsAscii b
    → i ≤ length b
    → j ≤ length b
    → get b i j ≡ some (take (j - i) (drop i b))
get-ascii b i j h hi hj = unfold get in rw (boundary-ascii b i h hi, boundary-ascii b j h hj)

parse_signed-fixed :
    (w n : ℕ) → n < 10 ^ suc w → n ≤ i64_top → parse_signed i64_top (fixed (suc w) n) ≡ some (pos n)
parse_signed-fixed w n h fits =
    parse_signed-digits i64_top _ n (fixed-ne-nil w n) (parse_digits-fixed i64_top (suc w) n h fits)

parse_unsigned-fixed :
    (w n : ℕ) → n < 10 ^ suc w → n ≤ u64_top → parse_unsigned u64_top (fixed (suc w) n) ≡ some n
parse_unsigned-fixed w n h fits =
    parse_unsigned-digits u64_top _ n (fixed-ne-nil w n)
      (parse_digits-fixed u64_top (suc w) n h fits)

-- The numbers of `date_time` have the printed width.
pub record Fits (c : CivilDate) (hour min sec : ℕ) : Type 0 where
  pub year : c.year < 10000
  pub month : c.month < 100
  pub day : c.day < 100
  pub hour_in : hour < 100
  pub min_in : min < 100
  pub sec_in : sec < 100

-- The text of `date_time`, with a tail.
unfoldable pub spelled : CivilDate → ℕ → ℕ → ℕ → Text → Text
spelled c hour min sec tail =
    fixed 4 c.year
    ++ (b'-' ∷ fixed 2 c.month)
    ++ (b'-' ∷ fixed 2 c.day)
    ++ (b'T' ∷ fixed 2 hour)
    ++ (b':' ∷ fixed 2 min)
    ++ (b':' ∷ fixed 2 sec)
    ++ tail

module _ (c : CivilDate) (hour min sec : ℕ) (tail : Text) where
  pub spelled-IsAscii : IsAscii tail → IsAscii (spelled c hour min sec tail)
  unfolding spelled fixed
  spelled-IsAscii h = ground arith

  pub has_layout-spelled : has_layout (spelled c hour min sec tail) ≡ true
  unfolding spelled fixed has_layout
  has_layout-spelled = ground arith

  abbrev pub text : List ℕ
  text = spelled c hour min sec tail

  19-le-length : 19 ≤ length text
  unfolding spelled fixed
  19-le-length = omega arith

  -- The slices that the parser takes are the printed numbers.
  record Slices : Type 0 where
    year : get text 0 4 ≡ some (fixed 4 c.year)
    month : get text 5 7 ≡ some (fixed 2 c.month)
    day : get text 8 10 ≡ some (fixed 2 c.day)
    hour_is : get text 11 13 ≡ some (fixed 2 hour)
    min_is : get text 14 16 ≡ some (fixed 2 min)
    sec_is : get text 17 19 ≡ some (fixed 2 sec)
    rest : drop 19 text ≡ tail

  text-Slices : IsAscii tail → Slices
  unfolding spelled fixed
  text-Slices h =
      let ascii = spelled-IsAscii h in
      let room = λ (i : ℕ) (small : i ≤ 19). le_trans small 19-le-length in
      record {
        year = get-ascii text 0 4 ascii (room 0 (omega arith)) (room 4 (omega arith));
        month = get-ascii text 5 7 ascii (room 5 (omega arith)) (room 7 (omega arith));
        day = get-ascii text 8 10 ascii (room 8 (omega arith)) (room 10 (omega arith));
        hour_is = get-ascii text 11 13 ascii (room 11 (omega arith)) (room 13 (omega arith));
        min_is = get-ascii text 14 16 ascii (room 14 (omega arith)) (room 16 (omega arith));
        sec_is = get-ascii text 17 19 ascii (room 17 (omega arith)) (room 19 (omega arith));
        rest = refl;
      }

  pub parse_fields-spelled :
      Fits c hour min sec
      → IsAscii tail
      → parse_fields text ≡ finish (pos c.year) (pos c.month) (pos c.day) hour min sec tail
  unfolding parse_fields
  parse_fields-spelled f h =
      let s = text-Slices h in
      rw (
        s.year,
        s.month,
        s.day,
        s.hour_is,
        s.min_is,
        s.sec_is,
        s.rest,
        parse_signed-fixed 3 c.year f.year (omega arith),
        parse_signed-fixed 1 c.month f.month (omega arith),
        parse_signed-fixed 1 c.day f.day (omega arith),
        parse_unsigned-fixed 1 hour f.hour_in (omega arith),
        parse_unsigned-fixed 1 min f.min_in (omega arith),
        parse_unsigned-fixed 1 sec f.sec_in (omega arith),
      )
