-- ===== src/Prelude/Decimal.antt =====
-- Decimal numbers as the standard library prints and parses them.
pub mod Laws
use Prim.Native.Nat.{ℕ, zero, suc, ◌+◌, ◌-◌, ◌*◌, ◌/◌, ◌%◌, ◌^◌}
use mathlib.Core.Bool.{Bool, true, false, ◌&&◌}
use mathlib.Core.List.{[], ◌∷◌, ◌++◌}
use mathlib.Core.Option.{Option, none, some}
use mathlib.Core.Option
use super_victor.Prelude.Tests.{ltb, leb, ◌==◌, if◌then◌else◌}
use super_victor.Prelude.Text.{Text}
use super_victor.Prelude.Int.{ℤ, pos, negsuc}

-- The last `w` digits, with leading zeros.
unfoldable pub fixed : ℕ → ℕ → Text
fixed zero n = []
fixed (suc w) n = fixed w (n / 10) ++ (48 + n % 10) ∷ []

unfoldable pub decimal_fuel : ℕ → ℕ → Text
decimal_fuel zero n = []
decimal_fuel (suc f) n =
    let rest = decimal_fuel f (n / 10) ++ (48 + n % 10) ∷ [] in
    if ltb n 10 then (48 + n) ∷ [] else rest

-- `format!("{n}")`; a number has fewer digits than it counts units, so the fuel is enough.
unfoldable pub decimal : ℕ → Text
unfolding decimal_fuel
decimal n = decimal_fuel (suc n) n

-- `format!("{n:0w$}")`
unfoldable pub padded : ℕ → ℕ → Text
unfolding fixed
padded w n = if ltb n (10 ^ w) then fixed w n else decimal n

-- `u8::is_ascii_digit`
abbrev pub is_ascii_digit : ℕ → Bool
is_ascii_digit c = leb 48 c && leb c 57

-- The digits of `parse`, with the overflow checks of a type whose largest value is `top`.
unfoldable pub parse_digits : ℕ → Text → ℕ → Option ℕ
parse_digits top [] n = some n
parse_digits top (c ∷ s) n =
    let m = n * 10 + (c - 48) in
    let rest = parse_digits top s m in if is_ascii_digit c && leb m top then rest else none

-- A number has a digit.
unfoldable pub parse_digits1 : ℕ → Text → Option ℕ
unfolding parse_digits
parse_digits1 top [] = none
parse_digits1 top (c ∷ s) = parse_digits top (c ∷ s) 0

-- `parse` of an unsigned type: an optional plus sign.
unfoldable pub parse_unsigned : ℕ → Text → Option ℕ
unfolding parse_digits1
parse_unsigned top [] = none
parse_unsigned top (c ∷ s) = if c == b'+' then parse_digits1 top s else parse_digits1 top (c ∷ s)

abbrev pub negated : ℕ → ℤ
negated zero = pos 0
negated (suc n) = negsuc n

-- `parse` of a signed type whose values run from `-top - 1` to `top`: an optional sign.
unfoldable pub parse_signed : ℕ → Text → Option ℤ
unfolding parse_digits1
parse_signed top [] = none
parse_signed top (c ∷ s) =
    if c == b'+'
    then Option.map pos (parse_digits1 top s)
    else if c == b'-'
    then Option.map negated (parse_digits1 (suc top) s)
    else Option.map pos (parse_digits1 top (c ∷ s))
