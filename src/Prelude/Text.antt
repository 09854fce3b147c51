-- ===== src/Prelude/Text.antt =====
-- Rust's `str` as the list of its characters (Unicode scalar values), with its UTF-8 bytes, and
-- the functions of the standard library that the program calls on it.
use Prim.Native.Nat.{ℕ, ◌+◌, ◌/◌, ◌%◌, ◌<◌}
use Prim.Native.Char.{code}
use Prim.Native.String.{String}
use mathlib.Core.Path.{◌≡◌, refl}
use mathlib.Core.Logic.{◌↔◌}
use mathlib.Core.Bool.{Bool, true, false, ◌&&◌}
use mathlib.Core.List.{List, [], ◌∷◌, ◌++◌}
use native.Mathlib.Omega.{arith}
use super_victor.Prelude.Tests.{ltb, ◌==◌, if◌then◌else◌}
use super_victor.Prelude.Lists.{length, All}

abbrev pub Text : Type 0
Text = List ℕ

-- A literal.
abbrev pub codes : String → Text
codes String.[] = []
codes (String.◌∷◌ c s) = code c ∷ codes s

-- `==` on `str`.
infix 50 ◌≟◌
abbrev pub ◌≟◌ : Text → Text → Bool
[] ≟ [] = true
[] ≟ (d ∷ t) = false
(c ∷ s) ≟ [] = false
(c ∷ s) ≟ (d ∷ t) = (c == d) && (s ≟ t)

pub ≟_iff : (s t : Text) → ((s ≟ t) ≡ true) ↔ (s ≡ t)
≟_iff [] [] = ground arith
≟_iff [] (d ∷ t) = ground arith
≟_iff (c ∷ s) [] = ground arith
≟_iff (c ∷ s) (d ∷ t) = ground (arith, ≟_iff s t)

pub ≟_refl : (s : Text) → (s ≟ s) ≡ true
≟_refl s = (≟_iff s s).1 refl

-- `char::encode_utf8`
unfoldable pub encode_char : ℕ → List ℕ
encode_char c =
    if ltb c 128
    then c ∷ []
    else if ltb c 2048
    then (192 + c / 64) ∷ (128 + c % 64) ∷ []
    else if ltb c 65536
    then (224 + c / 4096) ∷ (128 + (c / 64) % 64) ∷ (128 + c % 64) ∷ []
    else (240 + c / 262144) ∷ (128 + (c / 4096) % 64) ∷ (128 + (c / 64) % 64) ∷ (128 + c % 64) ∷ []

-- `str::as_bytes`, `str::len`
unfoldable pub as_bytes : Text → List ℕ
unfolding encode_char
as_bytes [] = []
as_bytes (c ∷ s) = encode_char c ++ as_bytes s

unfoldable pub len : Text → ℕ
unfolding as_bytes
len s = length (as_bytes s)

abbrev pub IsAscii : Text → Type 0
IsAscii = All (λ c. c < 128)

pub as_bytes-ascii : (s : Text) → IsAscii s → as_bytes s ≡ s
unfolding as_bytes
as_bytes-ascii [] h = refl
as_bytes-ascii (c ∷ s) (hc, hs) = ground (arith, as_bytes-ascii s hs)

pub len-nil : len [] ≡ 0
unfolding len
len-nil = refl
