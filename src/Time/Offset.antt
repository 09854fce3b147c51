-- ===== src/Time/Offset.antt =====
-- What may stand behind the seconds of a timestamp: an optional fraction, then a UTC offset
-- (supervictor/endpoint/src/time.rs, in `parse_rfc3339_unix`).
use super_victor.Prelude.{Bool, true, ◌&&◌, ◌||◌, not, [], ◌∷◌, ◌==◌, if◌then◌else◌, all}
use super_victor.Prelude.Text.{Text, codes, ◌≟◌}
use super_victor.Prelude.Decimal.{is_ascii_digit}

-- `rest.find(['Z', '+', '-'])` and `split_at`; with no such byte the offset is empty.
unfoldable pub split_offset : Text → Text × Text
split_offset [] = ([], [])
split_offset (c ∷ s) =
    let (frac, off) = split_offset s in
    if c == b'Z' || c == b'+' || c == b'-' then ([], c ∷ s) else (c ∷ frac, off)

unfoldable pub frac_ok : Text → Bool
frac_ok [] = true
frac_ok (c ∷ ds) = c == b'.' && not (ds ≟ []) && all is_ascii_digit ds

unfoldable pub off_ok : Text → Bool
off_ok off = off ≟ [] || off ≟ codes "Z" || off ≟ codes "+00:00" || off ≟ codes "-00:00"
