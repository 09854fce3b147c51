-- ===== src/Dashboard/Token.antt =====
-- supervictor/endpoint/src/ui/mod.rs: `csrf_token`, and the browser that keeps the token: what
-- `ensure_csrf` puts in a cookie comes back in the next request, and `csrf_ok` finds it.
use super_victor.Prelude.{
  ℕ, zero, suc, ◌+◌, ◌*◌, ◌/◌, ◌%◌, ◌^◌, ◌≡◌, ◌≢◌, refl, sym, ap, ◌∙◌, ◌↔◌, inl, inr, Option, none,
  some, List, [], ◌∷◌, ◌++◌, All, All-append, append_assoc, arith, true, ltb, if◌then◌else◌,
  Option-cases, none-some, some_same, length, length-append,
}
use mathlib.Core.Path.{subst}
use super_victor.Prelude.Text.{Text, codes, IsAscii}
use super_victor.Prelude.Str.{split, split_first}
use super_victor.Dashboard.{
  csrf_cookie, cookie_value, pair_value, find_map, ensure_csrf, csrf_ok, xor,
}
use super_victor.Middleware.Admin.{split_first-append}
use super_victor.Dashboard.Pairs.{
  IsHexDigit, split_first-whole, split-append, hit, find_map-append, weaken, pair, pair_value-pair,
}
use super_victor.Dashboard.Csrf.{csrf_ok_iff, ascii-IsScalars}

abbrev hex_digit : ℕ → ℕ
hex_digit d = if ltb d 10 then 48 + d else 87 + d

-- `{:0w x}` of a number of `w` hexadecimal
unfoldable pub hex : ℕ → ℕ → Text
hex zero n = []
hex (suc w) n = hex w (n / 16) ++ hex_digit (n % 16) ∷ []

-- `csrf_token` at the value of its counter, and the counter after it: `hash1` and `hash2` are the two
-- seeded hashers, `now` the clock.
unfoldable pub csrf_token : (ℕ → ℕ → ℕ) → (ℕ → ℕ → ℕ) → Option (ℕ × ℕ) → ℕ → Text × ℕ
unfolding hex xor
csrf_token hash1 hash2 now n =
    let nanos : ℕ = elim now [ some (secs, ns) ↦ secs * 10 ^ 9 + ns | none ↦ 0 ] in
    (hex 16 (hash1 nanos n) ++ hex 16 (hash2 nanos (xor 64 n 0x9e3779b97f4a7c15)), (n + 1) % 2 ^ 64)

-- A token is not empty and has hexadecimal hexadecimal only.
pub record IsToken (t : Text) : Type 0 where
  pub filled : t ≢ []
  pub hexadecimal : All IsHexDigit t

hex_digits : (w n : ℕ) → All IsHexDigit (hex w n)
unfolding hex
hex_digits zero n = tt
hex_digits (suc w) n =
    All-append IsHexDigit (hex w (n / 16)) _ (hex_digits w (n / 16)) (ground arith)

length-hex : (w n : ℕ) → length (hex w n) ≡ w
unfolding hex
length-hex zero n = refl
length-hex (suc w) n =
    omega (arith, length-append (hex w (n / 16)) (hex_digit (n % 16) ∷ []), length-hex w (n / 16))

two_hex-IsToken : (a b : ℕ) → IsToken (hex 16 a ++ hex 16 b)
two_hex-IsToken a b = record {
  filled = λ e.
      omega
        (arith, length-append (hex 16 a) (hex 16 b), length-hex 16 a, sym (ap (λ t. length t) e));
  hexadecimal = All-append IsHexDigit (hex 16 a) (hex 16 b) (hex_digits 16 a) (hex_digits 16 b);
}

pub csrf_token-IsToken :
    (hash1 hash2 : ℕ → ℕ → ℕ) (now : Option (ℕ × ℕ)) (n : ℕ)
    → IsToken (csrf_token hash1 hash2 now n).0
unfolding csrf_token
csrf_token-IsToken hash1 hash2 now n = two_hex-IsToken _ _

-- What is kept of a `Set-Cookie` header: the pair in front of its attributes.
abbrev kept : Text → Text
kept set_cookie = (split_first b';' set_cookie).0

-- The `Cookie` header of the next request, which is the one before with the new pair.
abbrev pub next_cookie : Option Text → Option Text → Option Text
next_cookie cookie none = cookie
next_cookie none (some set) = some (kept set)
next_cookie (some t) (some set) = some (t ++ codes "; " ++ kept set)

abbrev pub cookie_headers : Option Text → List (Option Text)
cookie_headers none = []
cookie_headers (some t) = some t ∷ []

semicolon-free : (token : Text) → All IsHexDigit token → All (λ c. c ≢ b';') token
semicolon-free token h = weaken (λ c d e. omega (arith, d, e)) token h

pair_whole :
    (token : Text)
    → All IsHexDigit token
    → (split b';' (pair token) ≡ pair token ∷ [])
      × (split b';' (b' ' ∷ pair token) ≡ (b' ' ∷ pair token) ∷ [])
unfolding split split_first
pair_whole token h =
    let e = split_first-whole b';' token (semicolon-free token h) in (rw e refl, rw e refl)

kept_lem :
    (token : Text)
    → All IsHexDigit token
    → kept (csrf_cookie ++ codes "=" ++ token ++ codes "; Path=/ui; SameSite=Strict; HttpOnly")
      ≡ pair token
unfolding split_first
kept_lem token h =
    rw (split_first-append b';' token, split_first-whole b';' token (semicolon-free token h)) refl

cookie_one :
    (t : Text)
    → cookie_value (some t ∷ []) csrf_cookie ≡ find_map (pair_value csrf_cookie) (split b';' t)
unfolding cookie_value find_map
cookie_one t = elim (Option-cases (find_map (pair_value csrf_cookie) (split b';' t))) [
  | inl e ↦ rw (cookie_value, find_map, e) refl
  | inr (b, e) ↦ rw (cookie_value, find_map, e) refl
]

cookie_lone :
    (token : Text)
    → All IsHexDigit token
    → cookie_value (some (pair token) ∷ []) csrf_cookie ≡ some token
cookie_lone token h =
    cookie_one (pair token)
    ∙ (rw (pair_whole token h).0 (hit (pair_value csrf_cookie) (pair_value-pair token h).0 []))

cookie_last :
    (t token : Text)
    → All IsHexDigit token
    → cookie_value (some t ∷ []) csrf_cookie ≡ none
    → cookie_value (some (t ++ codes "; " ++ pair token) ∷ []) csrf_cookie ≡ some token
cookie_last t token h none_yet =
    cookie_one (t ++ codes "; " ++ pair token)
    ∙ ap (λ whole. find_map (pair_value csrf_cookie) (split b';' whole))
        (append_assoc t (codes "; ") (pair token))
    ∙ rw (split-append b';' t (b' ' ∷ pair token), (pair_whole token h).1)
        (find_map-append (pair_value csrf_cookie) (split b';' t) _ (sym (cookie_one t) ∙ none_yet)
          ∙ hit (pair_value csrf_cookie) (pair_value-pair token h).1 [])

abbrev set_cookie : Text → Text
set_cookie token =
    csrf_cookie ++ codes "=" ++ token ++ codes "; Path=/ui; SameSite=Strict; HttpOnly"

next_value :
    (cookie : Option Text) (token : Text)
    → All IsHexDigit token
    → cookie_value (cookie_headers cookie) csrf_cookie ≡ none
    → cookie_value (cookie_headers (next_cookie cookie (some (set_cookie token)))) csrf_cookie
      ≡ some token
next_value none token h e =
    ap (λ t. cookie_value (some t ∷ []) csrf_cookie) (kept_lem token h) ∙ cookie_lone token h
next_value (some t) token h e =
    ap (λ u. cookie_value (some (t ++ codes "; " ++ u) ∷ []) csrf_cookie) (kept_lem token h)
    ∙ cookie_last t token h e

module _ (cookies : List (Option Text)) (fresh : Text) where
  ensure_csrf-found :
      {t : Text} → cookie_value cookies csrf_cookie ≡ some t → ensure_csrf cookies fresh ≡ (t, none)
  unfolding ensure_csrf
  ensure_csrf-found e = rw (ensure_csrf, e) refl

  ensure_csrf-fresh :
      cookie_value cookies csrf_cookie ≡ none
      → ensure_csrf cookies fresh ≡ (fresh, some (set_cookie fresh))
  unfolding ensure_csrf
  ensure_csrf-fresh e = rw (ensure_csrf, e) refl

-- The token is accepted with its cookie.
held :
    (cookies : List (Option Text)) (token : Text)
    → cookie_value cookies csrf_cookie ≡ some token
    → IsAscii token
    → (csrf_ok cookies token ≡ true) ↔ (token ≢ [])
held cookies token e ascii =
    let found =
      csrf_ok_iff cookies token (ascii-IsScalars token ascii)
        (λ c f. subst IsAscii (some_same (sym e ∙ f)) ascii) in
    (λ t. (found.0 t).1, λ filled. found.1 (e, filled))

-- The token of the forms on a page is accepted in the next request, whose cookie the page has set if
-- there was none, unless the token is empty, which it is only if the request before had an empty
-- cookie.
pub ensure_csrf-csrf_ok :
    (cookie : Option Text) (fresh : Text)
    → IsToken fresh
    → ((c : Text) → cookie_value (cookie_headers cookie) csrf_cookie ≡ some c → IsAscii c)
    → (csrf_ok
          (cookie_headers (next_cookie cookie (ensure_csrf (cookie_headers cookie) fresh).1))
          (ensure_csrf (cookie_headers cookie) fresh).0
        ≡ true)
      ↔ (cookie_value (cookie_headers cookie) csrf_cookie ≢ some [])
ensure_csrf-csrf_ok cookie fresh h ascii =
    elim (Option-cases (cookie_value (cookie_headers cookie) csrf_cookie)) [
      | inl e ↦
          let next = next_value cookie fresh h.hexadecimal e in
          let accepted =
            (held _ fresh next (weaken (λ c d. omega (arith, d)) fresh h.hexadecimal)).1 h.filled in
          rw (ensure_csrf-fresh (cookie_headers cookie) fresh e)
            (λ t f. none-some (sym e ∙ f), λ t. accepted)
      | inr (token, e) ↦
          let kept_token = held (cookie_headers cookie) token e (ascii token e) in
          rw (ensure_csrf-found (cookie_headers cookie) fresh e) (
            λ t f. kept_token.0 t (some_same (sym e ∙ f)),
            λ other. kept_token.1 (λ nil. other (e ∙ ap some nil)),
          )
    ]
