-- ===== src/Http/Samples.antt =====
-- Test data: heapless strings that are plain lists.
use super_victor.Prelude.{
  ℕ, ◌+◌, ◌≤◌, ◌<◌, ◌≡◌, Option, none, some, ◌++◌, arith, leb, if◌then◌else◌,
}
use super_victor.Prelude.Text.{Text, len}
use super_victor.Http.{HeaplessString}

abbrev pub extend : ℕ → Text → Text → Option Text
extend n buf s = if leb (len buf + len s) n then some (buf ++ s) else none

pub extend_fits : (n : ℕ) (buf s : Text) → len buf + len s ≤ n → extend n buf s ≡ some (buf ++ s)
extend_fits n buf s h = ground arith

pub extend_full : (n : ℕ) (buf s : Text) → n < len buf + len s → extend n buf s ≡ none
extend_full n buf s h = ground arith

abbrev pub plain : HeaplessString
plain = record { extend = extend; extend_fits = extend_fits; extend_full = extend_full }
