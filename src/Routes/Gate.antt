-- ===== src/Routes/Gate.antt =====
-- Who reaches the handlers of the routes.
use super_victor.Prelude.{
  Bool, true, false, Option, some, List, [], ◌∷◌, All, arith, ◌≡◌, ◌↔◌, ◌⊎◌, inl, inr, refl, not,
  Bool-cases, false-true,
}
use super_victor.Prelude.Text.{Text}
use super_victor.Middleware.{next, is_admin_subject}
use super_victor.Middleware.Admin.{require_admin_iff}
use super_victor.Routes.Table.{
  Handler, Route, fleet_api, ui_router, router, enter, api_health, api_hello, api_uplink,
  api_list_devices, api_register_device, api_get_device, api_get_device_uplinks,
}

-- The handlers that anybody reaches, among them the registration and the list of the devices.
unfoldable pub is_open : Handler → Bool
is_open api_health = true
is_open api_hello = true
is_open api_uplink = true
is_open api_list_devices = true
is_open api_register_device = true
is_open api_get_device = true
is_open api_get_device_uplinks = true
is_open _ = false

-- On a route to an open handler any request reaches it, and on any other one an admin does.
abbrev pub Guards : Option Text → Route → Type 0
Guards subject r = (enter subject r ≡ next r.handler) ↔ (
    (is_open r.handler ≡ true) ⊎ ((dn : Text) × (subject ≡ some dn) × (is_admin_subject dn ≡ true)))

module _ (subject : Option Text) where
  enter-Guards : (r : Route) → r.gated ≡ not (is_open r.handler) → Guards subject r
  unfolding enter
  enter-Guards r e = elim (Bool-cases (is_open r.handler)) [
    | inl o ↦ rw (enter, e, o) (λ _. inl refl, λ _. refl)
    | inr c ↦
        let gate = require_admin_iff subject r.handler in
        rw (enter, e, c)
          (λ f. inr (gate.0 f), λ f. elim f [ inl g ↦ absurd (false-true g) | inr g ↦ gate.1 g ])
  ]

  All-Guards :
      (rs : List Route) → All (λ r. r.gated ≡ not (is_open r.handler)) rs → All (Guards subject) rs
  All-Guards [] h = tt
  All-Guards (r ∷ rs) (h, hs) = (enter-Guards r h, All-Guards rs hs)

-- In the whole table, a request reaches the handler of its route exactly if that is one of the seven
-- open ones or the subject of its certificate is an admin.
pub router-Guards : (ui : Bool) (subject : Option Text) → All (Guards subject) (router ui)
unfolding router fleet_api ui_router is_open
router-Guards true subject = All-Guards subject (router true) (ground arith)
router-Guards false subject = All-Guards subject (router false) (ground arith)
