-- ===== src/Prelude/Str.antt =====
-- The functions of the standard library on `str` and `char` that the program calls.
use super_victor.Prelude.Tests.{leb, ◌==◌, if◌then◌else◌}
use super_victor.Prelude.Text.{Text, ◌≟◌}
use Prim.Native.Nat.{ℕ, ◌+◌}
use mathlib.Core.Bool.{Bool, true, false, ◌&&◌, ◌||◌}
use mathlib.Core.List.{List, [], ◌∷◌, reverse, map}
use mathlib.Core.Option.{Option, none, some}

-- `char::is_whitespace`: the Unicode property White_Space.
abbrev pub is_whitespace : ℕ → Bool
is_whitespace c =
    (leb 9 c && leb c 13)
    || c == 32
    || c == 0x85
    || c == 0xa0
    || c == 0x1680
    || (leb 0x2000 c && leb c 0x200a)
    || c == 0x2028
    || c == 0x2029
    || c == 0x202f
    || c == 0x205f
    || c == 0x3000

-- `char::is_control`: the general category Cc.
abbrev pub is_control : ℕ → Bool
is_control c = leb c 31 || (leb 127 c && leb c 159)

unfoldable pub trim_start : Text → Text
trim_start [] = []
trim_start (c ∷ s) = let rest = trim_start s in if is_whitespace c then rest else c ∷ s

-- The end is trimmed with the text reversed.
unfoldable pub trim : Text → Text
unfolding trim_start
trim s = reverse (trim_start (reverse (trim_start s)))

abbrev pub is_empty : Text → Bool
is_empty [] = true
is_empty (c ∷ s) = false

unfoldable pub to_ascii_lowercase : ℕ → ℕ
to_ascii_lowercase c = if leb 65 c && leb c 90 then c + 32 else c

unfoldable pub eq_ignore_ascii_case : Text → Text → Bool
unfolding to_ascii_lowercase
eq_ignore_ascii_case s t = map to_ascii_lowercase s ≟ map to_ascii_lowercase t

-- `split_once(sep)` at a character; `splitn(2, sep)` yields the same two parts, or the whole text.
unfoldable pub split_once : ℕ → Text → Option (Text × Text)
split_once sep [] = none
split_once sep (c ∷ s) =
    let rest = split_once sep s in
    if c == sep then some ([], s) else elim rest [ none ↦ none | some (k, v) ↦ some (c ∷ k, v) ]

-- The first part is nonempty work of the recursion: a text always has one part.
unfoldable pub split_first : ℕ → Text → Text × List Text
split_first sep [] = ([], [])
split_first sep (c ∷ s) =
    let (part, parts) = split_first sep s in
    if c == sep then ([], part ∷ parts) else (c ∷ part, parts)

-- `split(sep)` at a character.
unfoldable pub split : ℕ → Text → List Text
unfolding split_first
split sep s = let (part, parts) = split_first sep s in part ∷ parts

-- `strip_suffix('\r')`, or the text itself.
unfoldable pub strip_cr : Text → Text
strip_cr [] = []
strip_cr (c ∷ []) = if c == 13 then [] else c ∷ []
strip_cr (c ∷ d ∷ s) = c ∷ strip_cr (d ∷ s)

-- The parts between line feeds as `lines` yields them: no empty part behind the last line feed, and
-- no carriage return in front of one.
unfoldable pub lines_of : List Text → List Text
unfolding strip_cr
lines_of [] = []
lines_of (x ∷ []) = if is_empty x then [] else x ∷ []
lines_of (x ∷ y ∷ xs) = strip_cr x ∷ lines_of (y ∷ xs)

unfoldable pub lines : Text → List Text
unfolding lines_of
lines s = lines_of (split 10 s)
