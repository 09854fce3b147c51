-- ===== src/Dashboard.antt =====
-- supervictor/endpoint/src/ui/mod.rs: the cookie and the token of the dashboard's forms, the two
-- handlers that change devices, and the rows of the fleet table. A cookie header that is not text is
-- `none`; `fresh` is what `csrf_token` made of the hashers and the clock (`Token`); the pages are in
-- `Views` and `Pages`; log lines are left out.
pub mod Csrf
pub mod Pairs
pub mod Token
pub mod Actions
pub mod Script
pub mod Views
pub mod Pages
pub mod Forms
pub mod Texts
pub mod Rows
pub mod Shown
pub mod Toggle
mod Examples
mod PageExamples
use super_victor.Prelude.{
  ℕ, zero, suc, ◌+◌, ◌*◌, ◌/◌, ◌%◌, Bool, true, false, ◌&&◌, not, Option, none, some, List, [], ◌∷◌,
  ◌++◌, ◌>>=◌, ltb, ◌==◌, if◌then◌else◌, map,
}
use super_victor.Prelude.Text.{Text, codes, ◌≟◌, as_bytes, len}
use super_victor.Prelude.Str.{trim, split, split_once, is_empty}
use super_victor.Exec.{Result, ok, err, Exec, pure, raise}
use super_victor.Exec
use super_victor.Json.{SerdeJson}
use super_victor.Models.{DeviceRecord, DeviceResponse, active, inactive, invalid_payload}
use super_victor.Store.{DeviceStore}
use super_victor.Middleware.{forbid}
use super_victor.Fleet.{Freshness, unknown, FleetDevice, snapshot_now}
use super_victor.Handlers.{handle_register_device}
use super_victor.Middleware

abbrev pub csrf_cookie : Text
csrf_cookie = codes "sv_csrf"

-- `Iterator::find_map`
unfoldable pub find_map : {A B : Type 0} → (A → Option B) → List A → Option B
find_map f [] = none
find_map f (x ∷ xs) = let rest = find_map f xs in elim (f x) [ some b ↦ some b | none ↦ rest ]

-- The value of a pair `name=value` between two semicolons.
unfoldable pub pair_value : Text → Text → Option Text
pair_value name pair = do (k, v) ← split_once b'=' (trim pair); if k ≟ name then some v else none

unfoldable pub cookie_value : List (Option Text) → Text → Option Text
unfolding find_map pair_value
cookie_value cookies name =
    find_map (λ value. value >>= λ text. find_map (pair_value name) (split b';' text)) cookies

-- The token, and the `Set-Cookie` header if it is new.
unfoldable pub ensure_csrf : List (Option Text) → Text → Text × Option Text
ensure_csrf cookies fresh = elim (cookie_value cookies csrf_cookie) [
  | some token ↦ (token, none)
  | none ↦ (
    fresh,
    some (csrf_cookie ++ codes "=" ++ fresh ++ codes "; Path=/ui; SameSite=Strict; HttpOnly"),
  )
]

-- `^` and `|` on numbers of `w` bits.
unfoldable pub xor : ℕ → ℕ → ℕ → ℕ
xor zero a b = 0
xor (suc w) a b = (a + b) % 2 + 2 * xor w (a / 2) (b / 2)

unfoldable pub or : ℕ → ℕ → ℕ → ℕ
or zero a b = 0
or (suc w) a b = (if (a + b) % 2 == 1 then 1 else a % 2) + 2 * or w (a / 2) (b / 2)

-- The fold over the zipped bytes.
unfoldable pub differ : ℕ → List ℕ → List ℕ → ℕ
unfolding xor or
differ acc [] bs = acc
differ acc (a ∷ more) [] = acc
differ acc (a ∷ more) (b ∷ bs) = differ (or 8 acc (xor 8 a b)) more bs

unfoldable pub csrf_ok : List (Option Text) → Text → Bool
unfolding differ
csrf_ok cookies submitted = elim (cookie_value cookies csrf_cookie) [
  | some cookie ↦
      (len cookie == len submitted)
      && (not (is_empty cookie) && (differ 0 (as_bytes cookie) (as_bytes submitted) == 0))
  | none ↦ false
]

pub record RegisterForm : Type 0 where
  pub csrf : Text
  pub device_id : Text
  pub owner_id : Text
  pub subject_dn : Text

pub record StatusForm : Type 0 where
  pub csrf : Text
  pub status : Text

-- What a handler answers: the 403 of `forbidden`, or the redirect behind a change.
abbrev pub Reply : Type 0
Reply = Middleware.Response Text

abbrev pub redirect : Reply
redirect = Middleware.next (codes "/ui")

-- `state.store.set_device_status(…)?`, the audit line and the redirect come after the whitelist.
unfoldable pub listed_status : Text → Option Text
listed_status s = if s ≟ active then some active else if s ≟ inactive then some inactive else none

-- `json!({…})` of the form, with a null for a blank subject.
unfoldable pub form_object : {V : Type 0} → SerdeJson V → RegisterForm → V
form_object json form = json.object (
    (codes "device_id", json.string form.device_id)
    ∷ (codes "owner_id", json.string form.owner_id)
    ∷ (
      codes "subject_dn",
      if is_empty (trim form.subject_dn) then json.null else json.string form.subject_dn,
    )
    ∷ [])

module _ {V S : Type 0} (st : DeviceStore V S) (cookies : List (Option Text)) where
  unfoldable pub set_status : Text → StatusForm → Exec S V Reply
  unfolding listed_status
  set_status device_id form =
      if csrf_ok cookies form.csrf
      then elim (listed_status form.status) [
        | some status ↦ Exec.◌>>=◌ (st.set_device_status device_id status) λ _. pure redirect
        | none ↦ raise (invalid_payload (codes "status must be 'active' or 'inactive'") none)
      ]
      else pure (forbid (codes "invalid CSRF token"))

  module _ (json : SerdeJson V) (now : Option (ℕ × ℕ)) where
    unfoldable pub register_device : RegisterForm → Exec S V Reply
    unfolding form_object
    register_device form =
        if csrf_ok cookies form.csrf
        then Exec.◌>>=◌
            (handle_register_device json (some (json.to_string (form_object json form))) st now)
            (λ _. pure redirect)
        else pure (forbid (codes "invalid CSRF token"))

pub record FleetRow : Type 0 where
  pub device : DeviceRecord
  pub last_uplink : Option Text
  pub staleness : Freshness

-- The value of the map `by_id`: the last entry of a device.
unfoldable pub by_id : Text → List FleetDevice → Option FleetDevice
by_id id [] = none
by_id id (d ∷ ds) = elim (by_id id ds) [
  | some e ↦ some e
  | none ↦ if d.device_id ≟ id then some d else none
]

unfoldable pub row_of : List FleetDevice → DeviceRecord → FleetRow
row_of health device = elim (by_id device.device_id health) [
  | some d ↦ record { device = device; last_uplink = d.last_uplink; staleness = d.staleness }
  | none ↦ record { device = device; last_uplink = none; staleness = unknown }
]

unfoldable pub fleet_rows :
    {V S : Type 0} → SerdeJson V → DeviceStore V S → Option (ℕ × ℕ) → Exec S V (List FleetRow)
unfolding row_of by_id
fleet_rows json st now =
    Exec.◌>>=◌ st.list_devices
      λ devices. Exec.◌>>=◌ (snapshot_now json st now) λ health. pure (map (row_of health) devices)
