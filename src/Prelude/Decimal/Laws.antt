-- ===== src/Prelude/Decimal/Laws.antt =====
-- Printed numbers are read back.
use Prim.Native.Nat.{ℕ, zero, suc, ◌+◌, ◌-◌, ◌*◌, ◌/◌, ◌%◌, ◌^◌, ◌≤◌, ◌<◌}
use mathlib.Core.Path.{◌≡◌, refl, ap}
use mathlib.Core.List.{[], ◌∷◌, ◌++◌}
use mathlib.Core.Option.{some}
use mathlib.Core.Logic.{◌≢◌, inl, inr}
use mathlib.Core.List.{concat-ne-nil}
use native.Mathlib.Omega.{arith}
use native.Mathlib.Nat.{pow-suc}
use super_victor.Prelude.Tests.{ltb, ◌>>=◌, Bool-cases, lt→ltb}
use super_victor.Prelude.Text.{Text, IsAscii}
use super_victor.Prelude.Lists.{All, All-append, length, length-append}
use super_victor.Prelude.Int.{pos}
use super_victor.Prelude.Decimal.{
  fixed, decimal_fuel, decimal, padded, parse_digits, parse_unsigned, parse_signed,
}

pub parse_digits-append :
    (top : ℕ) (s t : Text) (n : ℕ)
    → parse_digits top (s ++ t) n ≡ (parse_digits top s n >>= λ m. parse_digits top t m)
unfolding parse_digits
parse_digits-append top [] t n = refl
parse_digits-append top (c ∷ s) t n =
    ground (arith, parse_digits-append top s t (n * 10 + (c - 48)))

pub parse_digits-fixed :
    (top w n : ℕ) → n < 10 ^ w → n ≤ top → parse_digits top (fixed w n) 0 ≡ some n
unfolding fixed
parse_digits-fixed top zero n h fits = unfold parse_digits in ground arith
parse_digits-fixed top (suc w) n h fits =
    rw
      (
        parse_digits-append,
        parse_digits-fixed top w (n / 10) (omega (arith, pow-suc 10 w)) (omega arith),
      )
      (unfold parse_digits in ground arith)

-- A text that begins with a digit has no sign.
pub parse_unsigned-digits :
    (top : ℕ) (s : Text) (n : ℕ)
    → s ≢ []
    → parse_digits top s 0 ≡ some n
    → parse_unsigned top s ≡ some n
unfolding parse_unsigned parse_digits
parse_unsigned-digits top [] n ne h = absurd (ne refl)
parse_unsigned-digits top (c ∷ s) n ne h = ground arith

pub parse_signed-digits :
    (top : ℕ) (s : Text) (n : ℕ)
    → s ≢ []
    → parse_digits top s 0 ≡ some n
    → parse_signed top s ≡ some (pos n)
unfolding parse_signed parse_digits
parse_signed-digits top [] n ne h = absurd (ne refl)
parse_signed-digits top (c ∷ s) n ne h = ground arith

pub fixed-IsAscii : (w n : ℕ) → IsAscii (fixed w n)
unfolding fixed
fixed-IsAscii zero n = tt
fixed-IsAscii (suc w) n = All-append _ (fixed w (n / 10)) _ (fixed-IsAscii w (n / 10)) (omega arith)

pub length-fixed : (w n : ℕ) → length (fixed w n) ≡ w
unfolding fixed
length-fixed zero n = refl
length-fixed (suc w) n = rw (length-append, length-fixed w (n / 10)) (omega arith)

pub fixed-ne-nil : (w n : ℕ) → fixed (suc w) n ≢ []
fixed-ne-nil w n e = omega (arith, length-fixed (suc w) n, ap length e)

parse_digits-decimal_fuel :
    (top f n : ℕ) → n < f → n ≤ top → parse_digits top (decimal_fuel f n) 0 ≡ some n
unfolding decimal_fuel
parse_digits-decimal_fuel top zero n h fits = absurd (omega arith)
parse_digits-decimal_fuel top (suc f) n h fits = elim (Bool-cases (ltb n 10)) [
  | inl e ↦ rw e (unfold parse_digits in ground arith)
  | inr e ↦
      rw
        (
          e,
          parse_digits-append,
          parse_digits-decimal_fuel top f (n / 10) (ground arith) (omega arith),
        )
        (unfold parse_digits in ground arith)
]

decimal_fuel-ne-nil : (f n : ℕ) → decimal_fuel (suc f) n ≢ []
unfolding decimal_fuel
decimal_fuel-ne-nil f n = ground (arith, concat-ne-nil (48 + n % 10) (decimal_fuel f (n / 10)))

-- A number within the type's range is read back from its decimal print.
pub parse_unsigned-decimal : (top n : ℕ) → n ≤ top → parse_unsigned top (decimal n) ≡ some n
unfolding decimal
parse_unsigned-decimal top n h =
    parse_unsigned-digits top _ n (decimal_fuel-ne-nil n n)
      (parse_digits-decimal_fuel top (suc n) n (omega arith) h)

abbrev pub IsNumeric : Text → Type 0
IsNumeric = All (λ c. (48 ≤ c) × (c ≤ 57))

pub fixed-IsNumeric : (w n : ℕ) → IsNumeric (fixed w n)
unfolding fixed
fixed-IsNumeric zero n = tt
fixed-IsNumeric (suc w) n =
    All-append _ (fixed w (n / 10)) _ (fixed-IsNumeric w (n / 10)) (omega arith)

decimal_fuel-IsNumeric : (f n : ℕ) → IsNumeric (decimal_fuel f n)
unfolding decimal_fuel
decimal_fuel-IsNumeric zero n = tt
decimal_fuel-IsNumeric (suc f) n = elim (Bool-cases (ltb n 10)) [
  | inl e ↦ rw e (ground arith)
  | inr e ↦
      rw e
        (All-append _ (decimal_fuel f (n / 10)) _ (decimal_fuel-IsNumeric f (n / 10)) (omega arith))
]

pub decimal-IsNumeric : (n : ℕ) → IsNumeric (decimal n)
unfolding decimal
decimal-IsNumeric n = decimal_fuel-IsNumeric (suc n) n

one-le-pow : (w : ℕ) → 1 ≤ 10 ^ w
one-le-pow zero = omega arith
one-le-pow (suc w) = omega (arith, pow-suc 10 w, one-le-pow w)

length-decimal_fuel-ge : (w f n : ℕ) → n < f → 10 ^ w ≤ n → suc w ≤ length (decimal_fuel f n)
unfolding decimal_fuel
length-decimal_fuel-ge w zero n h k = absurd (omega arith)
length-decimal_fuel-ge zero (suc f) n h k =
    ground (arith, length-append (decimal_fuel f (n / 10)) ((48 + n % 10) ∷ []))
length-decimal_fuel-ge (suc w) (suc f) n h k =
    let step = pow-suc 10 w in
    let rest =
      length-decimal_fuel-ge w f (n / 10) (omega (arith, step, one-le-pow w))
        (omega (arith, step)) in
    ground (
      arith,
      step,
      rest,
      one-le-pow w,
      length-append (decimal_fuel f (n / 10)) ((48 + n % 10) ∷ []),
    )

-- A number of more than `w` digits.
pub length-decimal-ge : (w n : ℕ) → 10 ^ w ≤ n → suc w ≤ length (decimal n)
unfolding decimal
length-decimal-ge w n h = length-decimal_fuel-ge w (suc n) n (omega arith) h

pub IsNumeric-IsAscii : (s : Text) → IsNumeric s → IsAscii s
IsNumeric-IsAscii [] h = tt
IsNumeric-IsAscii (c ∷ s) h = (omega arith, IsNumeric-IsAscii s h.1)

pub padded-fixed : (w n : ℕ) → n < 10 ^ w → padded w n ≡ fixed w n
unfolding padded
padded-fixed w n h = rw (lt→ltb n (10 ^ w) h)
