-- ===== src/Dashboard/Csrf.antt =====
-- The comparison of the submitted token with the cookie.
use super_victor.Prelude.{
  some_same, ℕ, zero, suc, ◌/◌, ◌^◌, ◌<◌, ◌≡◌, ◌≢◌, refl, ◌↔◌, ◌∙◌, ap, sym, Bool, true, false,
  ◌&&◌, not, Option, some, List, [], ◌∷◌, arith, ◌==◌, inl, inr, Option-cases, length, All,
}
use mathlib.Core.Path.{subst}
use super_victor.Prelude.Text.{Text, IsAscii, as_bytes, encode_char, len, as_bytes-ascii}
use super_victor.Prelude.Str.{is_empty}
use super_victor.Dashboard.{csrf_cookie, cookie_value, xor, or, differ, csrf_ok}

xor_bound : (w a b : ℕ) → xor w a b < 2 ^ w
unfolding xor
xor_bound zero a b = ground arith
xor_bound (suc w) a b = omega (arith, xor_bound w (a / 2) (b / 2))

or_bound : (w a b : ℕ) → or w a b < 2 ^ w
unfolding or
or_bound zero a b = ground arith
or_bound (suc w) a b = ground (arith, or_bound w (a / 2) (b / 2))

xor_zero : (w a b : ℕ) → a < 2 ^ w → b < 2 ^ w → (xor w a b ≡ 0) ↔ (a ≡ b)
unfolding xor
xor_zero zero a b ha hb = ground arith
xor_zero (suc w) a b ha hb = ground (arith, xor_zero w (a / 2) (b / 2) (omega arith) (omega arith))

or_zero : (w a b : ℕ) → a < 2 ^ w → b < 2 ^ w → (or w a b ≡ 0) ↔ ((a ≡ 0) × (b ≡ 0))
unfolding or
or_zero zero a b ha hb = ground arith
or_zero (suc w) a b ha hb = ground (arith, or_zero w (a / 2) (b / 2) (omega arith) (omega arith))

IsBytes : List ℕ → Type 0
IsBytes = All (λ b. b < 256)

step_zero :
    (acc x y : ℕ)
    → acc < 2 ^ 8
    → x < 256
    → y < 256
    → (or 8 acc (xor 8 x y) ≡ 0) ↔ ((acc ≡ 0) × (x ≡ y))
step_zero acc x y h hx hy =
    let o = or_zero 8 acc (xor 8 x y) h (xor_bound 8 x y) in
    let e = xor_zero 8 x y hx hy in
    (λ z. ((o.0 z).0, e.0 (o.0 z).1), λ (z, same). o.1 (z, e.1 same))

cons_same : {x y : ℕ} {a b : List ℕ} → x ≡ y → a ≡ b → ◌≡◌ {A = List ℕ} (x ∷ a) (y ∷ b)
cons_same e f = cc

cons_inj : {x y : ℕ} {a b : List ℕ} → ◌≡◌ {A = List ℕ} (x ∷ a) (y ∷ b) → (x ≡ y) × (a ≡ b)
cons_inj e = (cc, cc)

-- The fold is zero exactly on equal bytes.
differ_zero :
    (acc : ℕ) (a b : List ℕ)
    → acc < 2 ^ 8
    → IsBytes a
    → IsBytes b
    → length a ≡ length b
    → (differ acc a b ≡ 0) ↔ ((acc ≡ 0) × (a ≡ b))
unfolding differ IsBytes
differ_zero acc [] [] h ha hb e = ground arith
differ_zero acc [] (y ∷ b) h ha hb e = absurd (omega arith)
differ_zero acc (x ∷ a) [] h ha hb e = absurd (omega arith)
differ_zero acc (x ∷ a) (y ∷ b) h (hx, ha) (hy, hb) e =
    let rest =
      differ_zero (or 8 acc (xor 8 x y)) a b (or_bound 8 acc (xor 8 x y)) ha hb (omega arith) in
    (
      λ z.
          let (zero_acc, same) = (step_zero acc x y h hx hy).0 (rest.0 z).0 in
          (zero_acc, cons_same same (rest.0 z).1),
      λ (z, same). rest.1 ((step_zero acc x y h hx hy).1 (z, (cons_inj same).0), (cons_inj same).1),
    )

-- Unicode scalar values are below 0x110000.
abbrev pub IsScalars : Text → Type 0
IsScalars = All (λ c. c < 1114112)

as_bytes-IsBytes : (s : Text) → IsScalars s → IsBytes (as_bytes s)
unfolding as_bytes encode_char IsBytes
as_bytes-IsBytes [] h = tt
as_bytes-IsBytes (c ∷ s) (h, hs) = ground (arith, as_bytes-IsBytes s hs)

-- Only ASCII text has ASCII bytes.
as_bytes_ascii : (s : Text) → IsAscii (as_bytes s) → as_bytes s ≡ s
unfolding as_bytes encode_char
as_bytes_ascii [] h = refl
as_bytes_ascii (c ∷ s) h = ground (arith, as_bytes_ascii s)

ascii_of_bytes : (s t : Text) → IsAscii t → as_bytes s ≡ t → s ≡ t
ascii_of_bytes s t h e = sym (as_bytes_ascii s (subst IsAscii (sym e) h)) ∙ e

and_iff : (a b : Bool) → ((a && b) ≡ true) ↔ ((a ≡ true) × (b ≡ true))
and_iff true b = ground arith
and_iff false b = ground arith

pub ascii-IsScalars : (s : Text) → IsAscii s → IsScalars s
ascii-IsScalars [] h = tt
ascii-IsScalars (c ∷ s) (h, hs) = (omega arith, ascii-IsScalars s hs)

empty_false : (c : Text) → c ≡ [] → not (is_empty c) ≡ true → ⊥
empty_false [] e h = ground arith
empty_false (x ∷ c) e h = cc

filled_true : (c : Text) → c ≢ [] → not (is_empty c) ≡ true
filled_true [] h = absurd (h refl)
filled_true (x ∷ c) h = refl

equal_zero : (n : ℕ) → n ≡ 0 → (n == 0) ≡ true
equal_zero n e = ground arith

equal_lens : (s t : Text) → s ≡ t → (len s == len t) ≡ true
equal_lens s t e = let f = ap len e in ground arith

module _ (cookies : List (Option Text)) (submitted : Text) (scalars : IsScalars submitted) where
  matches :
      (c : Text)
      → IsAscii c
      → (((len c == len submitted)
            && (not (is_empty c) && (differ 0 (as_bytes c) (as_bytes submitted) == 0)))
          ≡ true)
        ↔ ((c ≡ submitted) × (submitted ≢ []))
  unfolding len
  matches c h =
      let zero_iff = λ (same_len : len c ≡ len submitted).
        differ_zero 0 (as_bytes c) (as_bytes submitted) (omega arith)
          (as_bytes-IsBytes c (ascii-IsScalars c h)) (as_bytes-IsBytes submitted scalars)
          same_len in
      (
        λ e.
            let (same_len, rest) = (and_iff (len c == len submitted) _).0 e in
            let (filled, z) = (and_iff (not (is_empty c)) _).0 rest in
            let same_bytes = ((zero_iff (ground arith)).0 (ground arith)).1 in
            let same : submitted ≡ c =
              ascii_of_bytes submitted c h (sym same_bytes ∙ as_bytes-ascii c h) in
            (sym same, λ nil. empty_false c (sym same ∙ nil) filled),
        λ (same, filled). (and_iff (len c == len submitted) _).1 (
          equal_lens c submitted same,
          (and_iff (not (is_empty c)) _).1 (
            filled_true c (λ nil. filled (sym same ∙ nil)),
            equal_zero _ ((zero_iff (ap len same)).1 (refl, ap as_bytes same)),
          ),
        ),
      )

  -- A submitted token is accepted exactly if it is the token cookie and not empty, whatever the
  -- cookie headers are, given that their values are ASCII (which `to_str` sees to).
  pub csrf_ok_iff :
      ((c : Text) → cookie_value cookies csrf_cookie ≡ some c → IsAscii c)
      → (csrf_ok cookies submitted ≡ true)
        ↔ ((cookie_value cookies csrf_cookie ≡ some submitted) × (submitted ≢ []))
  unfolding csrf_ok
  csrf_ok_iff ascii = elim (Option-cases (cookie_value cookies csrf_cookie)) [
    | inl e ↦ rw (csrf_ok, e) (λ f. cc, λ (f, filled). cc)
    | inr (c, e) ↦
        let m = matches c (ascii c e) in
        rw (csrf_ok, e)
          (λ t. (ap some (m.0 t).0, (m.0 t).1), λ (f, filled). m.1 (some_same f, filled))
  ]
