-- ===== src/Dashboard/PageExamples.antt =====
-- The pages of the dashboard on test data.
use super_victor.Prelude.{
  ◌+◌, ◌*◌, ◌≡◌, ◌≢◌, ◌↔◌, refl, Option, none, some, List, [], ◌∷◌, true, none-some,
}
use super_victor.Prelude.Text.{Text, codes, IsAscii}
use super_victor.Prelude.Str.{trim, split, split_once}
use super_victor.Store.Plain.{plain_json, device, fixed, fixed_store, fixed-IsReader}
use super_victor.Dashboard.{FleetRow, csrf_cookie, cookie_value, csrf_ok, ensure_csrf}
use super_victor.Dashboard.Pages.{fleet, subject_of}
use super_victor.Dashboard.Rows.{reading}
use super_victor.Dashboard.Shown.{FleetPage, fleet-FleetPage}
use super_victor.Dashboard.Token.{
  IsToken, csrf_token, csrf_token-IsToken, cookie_headers, next_cookie, ensure_csrf-csrf_ok,
}
use super_victor.Dashboard.Texts.{row_texts}
use super_victor.Fleet.{unknown}

-- A counter and a clock that are mixed in two ways.
abbrev fresh : Text
fresh = (csrf_token (λ now n. now + n) (λ now n. now * 3 + n) (some (1782867600, 7)) 41).0

fresh-IsToken : IsToken fresh
fresh-IsToken =
    csrf_token-IsToken (λ now n. now + n) (λ now n. now * 3 + n) (some (1782867600, 7)) 41

abbrev cookie : Option Text
cookie = some (codes "theme=dark; sv_csrf=c0ffee")

-- A browser without the cookie.
other-IsAscii :
    (c : Text)
    → cookie_value (cookie_headers (some (codes "theme=dark"))) csrf_cookie ≡ some c
    → IsAscii c
unfolding cookie_value trim split split_once
other-IsAscii c e = absurd (none-some e)

ensure_csrf-csrf_ok_example :
    (csrf_ok
        (cookie_headers (
          next_cookie
            (some (codes "theme=dark"))
            (ensure_csrf (cookie_headers (some (codes "theme=dark"))) fresh).1))
        (ensure_csrf (cookie_headers (some (codes "theme=dark"))) fresh).0
      ≡ true)
    ↔ (cookie_value (cookie_headers (some (codes "theme=dark"))) csrf_cookie ≢ some [])
ensure_csrf-csrf_ok_example =
    ensure_csrf-csrf_ok (some (codes "theme=dark")) fresh fresh-IsToken other-IsAscii

abbrev row : FleetRow
row = record { device = device; last_uplink = none; staleness = unknown }

abbrev page_token : Text
page_token = (ensure_csrf (cookie_headers cookie) fresh).0

abbrev next_headers : List (Option Text)
next_headers = cookie_headers (next_cookie cookie (ensure_csrf (cookie_headers cookie) fresh).1)

row_run : row_texts row ≡ (
  codes "dev-1",
  codes "dev-1"
      ∷ codes "active"
      ∷ codes "ann"
      ∷ codes "never"
      ∷ codes "unknown"
      ∷ codes "revoke"
      ∷ [],
)
row_run = refl

fleet-FleetPage_example :
    FleetPage
      (λ s. fixed)
      (cookie_headers cookie)
      fresh
      tt
      (reading (some (1782870000, 0)))
      (subject_of plain_json (λ name. none))
      (fleet plain_json fixed_store
        (λ name. none)
        (cookie_headers cookie)
        fresh
        (some (1782870000, 0))
        tt)
fleet-FleetPage_example =
    fleet-FleetPage fixed-IsReader plain_json (λ name. none) (cookie_headers cookie) fresh tt
      (some (1782870000, 0))
