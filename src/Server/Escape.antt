-- ===== src/Server/Escape.antt =====
-- The strings of the JSON bodies, as a reader of JSON takes them.
use mathlib.Core.Path.{subst}
use super_victor.Prelude.{
  ℕ, ◌≤◌, ◌≡◌, refl, ◌∙◌, ap, sym, Bool, true, false, Option, none, some, [], ◌∷◌, ◌++◌, arith,
  ◌==◌, ◌&&◌, not, ltb, if◌then◌else◌, inl, inr, Bool-cases, append-nil, append_assoc,
}
use super_victor.Prelude.Text.{Text, len}
use super_victor.Http.{HeaplessString}
use super_victor.Http.Build.{len-append}
use super_victor.Server.{push_ok, push_escaped, push_json_str}

-- A character as it stands in a JSON string.
unfoldable pub escaped : ℕ → Text
escaped c =
    if c == b'"' then b'\\' ∷ b'"' ∷ [] else if c == b'\\' then b'\\' ∷ b'\\' ∷ [] else c ∷ []

unfoldable pub escape : Text → Text
unfolding escaped
escape [] = []
escape (c ∷ s) = escaped c ++ escape s

-- A reader of JSON strings as RFC 8259 has them: the text up to the closing quote, and what stands
-- behind it. A control character must not stand in a string as it is; behind a backslash (`pending`)
-- stands one of eight characters. The escapes by a code (`\\u`), which nothing here writes, are refused.
unfoldable pub put : ℕ → Option (Text × Text) → Option (Text × Text)
put c (some (t, more)) = some (c ∷ t, more)
put c none = none

unfoldable pub unescape : ℕ → Option ℕ
unescape c =
    if c == b'"'
    then some b'"'
    else if c == b'\\'
    then some b'\\'
    else if c == b'/'
    then some b'/'
    else if c == b'b'
    then some 8
    else if c == b'f'
    then some 12
    else if c == b'n'
    then some 10
    else if c == b'r'
    then some 13
    else if c == b't'
    then some 9
    else none

unfoldable pub read_string : Bool → Text → Option (Text × Text)
unfolding put unescape
read_string pending [] = none
read_string true (c ∷ s) =
    let rest = read_string false s in elim (unescape c) [ some d ↦ put d rest | none ↦ none ]
read_string false (c ∷ s) =
    let skip = read_string true s in
    let rest = read_string false s in
    if c == b'"'
    then some ([], s)
    else if c == b'\\'
    then skip
    else if ltb c 32
    then none
    else put c rest

-- No control character stands in the text.
abbrev pub printable : Text → Bool
printable [] = true
printable (c ∷ s) = not (ltb c 32) && printable s

module _ (string : HeaplessString) (capacity : ℕ) where
  pub push_ok_fits :
      (buf s : Text) → len (buf ++ s) ≤ capacity → push_ok string capacity buf s ≡ buf ++ s
  unfolding push_ok
  push_ok_fits buf s h =
      rw (push_ok, string.extend_fits capacity buf s (omega (arith, len-append buf s))) refl

  push_pair :
      (buf : Text) (a b : ℕ)
      → len (buf ++ a ∷ b ∷ []) ≤ capacity
      → push_ok string capacity (push_ok string capacity buf (a ∷ [])) (b ∷ []) ≡ buf ++ a ∷ b ∷ []
  push_pair buf a b h =
      let assoc = append_assoc buf (a ∷ []) (b ∷ []) in
      let room : len ((buf ++ a ∷ []) ++ b ∷ []) ≤ capacity = rw (sym assoc) at h in
      ap (λ t. push_ok string capacity t (b ∷ []))
        (push_ok_fits buf (a ∷ []) (omega (arith, room, len-append (buf ++ a ∷ []) (b ∷ []))))
      ∙ push_ok_fits (buf ++ a ∷ []) (b ∷ []) room
      ∙ assoc

  push_escaped_fits :
      (buf : Text) (c : ℕ)
      → len (buf ++ escaped c) ≤ capacity
      → push_escaped string capacity buf c ≡ buf ++ escaped c
  unfolding push_escaped escaped
  push_escaped_fits buf c h = elim (Bool-cases (c == b'"')) [
    | inl quote ↦ rw quote (push_pair buf b'\\' b'"' (rw quote at h))
    | inr e ↦ elim (Bool-cases (c == b'\\')) [
      | inl slash ↦ rw (e, slash) (push_pair buf b'\\' b'\\' (rw (e, slash) at h))
      | inr f ↦ rw (e, f) (push_ok_fits buf (c ∷ []) (rw (e, f) at h))
    ]
  ]

  push_json_str-escape :
      (buf s : Text)
      → len (buf ++ escape s) ≤ capacity
      → push_json_str string capacity buf s ≡ buf ++ escape s
  unfolding push_json_str escape
  push_json_str-escape buf [] h = sym (append-nil buf)
  push_json_str-escape buf (c ∷ s) h =
      let split = sym (append_assoc buf (escaped c) (escape s)) in
      let room : len ((buf ++ escaped c) ++ escape s) ≤ capacity = rw split at h in
      rw (push_escaped_fits buf c (omega (arith, len-append (buf ++ escaped c) (escape s))))
        (push_json_str-escape (buf ++ escaped c) s room ∙ append_assoc buf (escaped c) (escape s))

put-printable :
    (c : ℕ) (s rest : Text)
    → put c (if printable s then some (s, rest) else none)
      ≡ (if printable s then some (c ∷ s, rest) else none)
unfolding put
put-printable c s rest = elim (Bool-cases (printable s)) [ inl e ↦ rw e refl | inr e ↦ rw e refl ]

-- How a written string is read.
abbrev Reads : Text → Text → Type 0
Reads s rest =
    read_string false (escape s ++ b'"' ∷ rest) ≡ (if printable s then some (s, rest) else none)

read_string-escape : (s rest : Text) → Reads s rest
unfolding read_string escape escaped put unescape
read_string-escape [] rest = refl
read_string-escape (c ∷ s) rest =
    let put_read : (d : ℕ)
        → put d (read_string false (escape s ++ b'"' ∷ rest))
          ≡ (if printable s then some (d ∷ s, rest) else none) =
      λ d. rw (read_string-escape s rest) (put-printable d s rest) in
    elim (Bool-cases (c == b'"')) [
      | inl quote ↦
          subst (λ d. Reads (d ∷ s) rest) {x = b'"'} {y = c} (ground arith) (put_read b'"')
      | inr e ↦ elim (Bool-cases (c == b'\\')) [
        | inl slash ↦
            subst (λ d. Reads (d ∷ s) rest) {x = b'\\'} {y = c} (ground arith) (put_read b'\\')
        | inr f ↦ elim (Bool-cases (ltb c 32)) [
          | inl low ↦ rw (e, f, e, f, low) refl
          | inr high ↦ rw (e, f, e, f, high) (put_read c)
        ]
      ]
    ]

-- A text that is written into a JSON string of a buffer with room for it, each quote and backslash
-- taking two bytes, is read back up to the closing quote by the grammar of JSON if there is no control
-- character in it, and makes a string that this grammar refuses if there is one.
pub read_string-push_json_str :
    (string : HeaplessString) (capacity : ℕ) (s rest : Text)
    → len (escape s) ≤ capacity
    → read_string false (push_json_str string capacity [] s ++ b'"' ∷ rest)
      ≡ (if printable s then some (s, rest) else none)
read_string-push_json_str string capacity s rest h =
    rw (push_json_str-escape string capacity [] s h) (read_string-escape s rest)
