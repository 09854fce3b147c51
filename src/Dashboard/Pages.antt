-- ===== src/Dashboard/Pages.antt =====
-- supervictor/endpoint/src/ui/views.rs and ui/mod.rs: the two pages and the handlers that answer with
-- them. `as_i64` is that of serde_json; `get` reads a header of the request.
use super_victor.Prelude.{
  ℕ, ◌-◌, ◌^◌, ◌%◌, Option, none, some, List, [], ◌∷◌, ◌++◌, ltb, leb, if◌then◌else◌, length, ◌>>=◌,
}
use super_victor.Prelude.Text.{Text, codes}
use super_victor.Prelude.Decimal.{decimal}
use super_victor.Prelude.Int.{ℤ, pos, negsuc}
use super_victor.Exec.{Exec, pure, raise}
use super_victor.Exec
use super_victor.Json.{SerdeJson}
use super_victor.Models.{DeviceRecord, UplinkRecord, device_not_found}
use super_victor.Store.{DeviceStore}
use super_victor.Middleware.{extract_client_subject}
use super_victor.Dashboard.{FleetRow, ensure_csrf, fleet_rows}
use super_victor.Dashboard.Views.{
  Markup, nothing, ◌<>◌, say, el, class, input, hidden, badge, layout, status_form, shown_or,
  fleet_row, each, heads,
}

unfoldable pub register_form : Text → Markup
register_form csrf = el (codes "fieldset") [] (
    el (codes "legend") [] (say (codes "register device"))
    <> el (codes "form")
        ((codes "method", codes "post") ∷ (codes "action", codes "/ui/devices") ∷ [])
        (hidden (codes "csrf") csrf
          <> input (codes "text") (
              (codes "name", codes "device_id")
              ∷ (codes "placeholder", codes "device id")
              ∷ (codes "required", [])
              ∷ [])
          <> input (codes "text") (
              (codes "name", codes "owner_id")
              ∷ (codes "placeholder", codes "owner id")
              ∷ (codes "required", [])
              ∷ [])
          <> input (codes "text") (
              (codes "name", codes "subject_dn")
              ∷ (codes "placeholder", codes "subject DN (optional)")
              ∷ [])
          <> el (codes "button") ((codes "type", codes "submit") ∷ []) (say (codes "register"))))

abbrev columns : List Text
columns =
    codes "device"
    ∷ codes "status"
    ∷ codes "owner"
    ∷ codes "last uplink"
    ∷ codes "freshness"
    ∷ codes "actions"
    ∷ []

unfoldable pub fleet_page : List FleetRow → Text → Text → Markup
unfolding layout fleet_row each register_form
fleet_page rows csrf subject = layout (codes "fleet") subject (
    el (codes "h2") [] (say (decimal (length rows)) <> say (codes " device(s)"))
    <> el (codes "table") [] (
        el (codes "thead") [] (el (codes "tr") [] (heads columns))
        <> el (codes "tbody") [] (each (fleet_row csrf) rows))
    <> register_form csrf)

-- `v as i32`
unfoldable pub to_i32 : ℤ → ℤ
to_i32 v =
    let n : ℕ = elim v [ pos n ↦ n % 2 ^ 32 | negsuc n ↦ 2 ^ 32 - 1 - n % 2 ^ 32 ] in
    if ltb n (2 ^ 31) then pos n else negsuc (2 ^ 32 - n - 1)

-- The tag and its points.
unfoldable pub sparkline : (List ℤ → Text) → List ℤ → Markup
sparkline points values =
    el (codes "svg")
      (class (codes "sparkline")
        ∷ (codes "width", codes "240")
        ∷ (codes "height", codes "48")
        ∷ (codes "viewBox", codes "0 0 240 48")
        ∷ (codes "role", codes "img")
        ∷ [])
      (el (codes "polyline") ((codes "points", points values) ∷ []) nothing)

module _ {V : Type 0} (json : SerdeJson V) (as_i64 : V → Option ℤ) (points : List ℤ → Text) where
  -- The readings of the uplinks in reverse.
  unfoldable pub currents : List (UplinkRecord V) → List ℤ
  unfolding to_i32
  currents [] = []
  currents (u ∷ us) = currents us ++ (elim (json.get u.payload (codes "current") >>= as_i64) [
    | some v ↦ to_i32 v ∷ []
    | none ↦ []
  ])

  unfoldable pub payload_row : UplinkRecord V → Markup
  payload_row uplink = el (codes "tr") [] (
      el (codes "td") [] (say uplink.received_at)
      <> el (codes "td") [] (el (codes "code") [] (say (json.to_string uplink.payload))))

  -- The chart, from two readings on.
  unfoldable pub chart : List ℤ → Markup
  unfolding sparkline
  chart values =
      if leb 2 (length values)
      then el (codes "h2") [] (say (codes "recent current readings")) <> sparkline points values
      else nothing

  unfoldable pub uplink_table : List (UplinkRecord V) → Markup
  unfolding payload_row each
  uplink_table [] = el (codes "p") [] (say (codes "no uplinks recorded"))
  uplink_table (u ∷ us) = el (codes "table") [] (
      el (codes "thead") [] (el (codes "tr") [] (heads (codes "received" ∷ codes "payload" ∷ [])))
      <> el (codes "tbody") [] (each payload_row (u ∷ us)))

  unfoldable pub device_page : DeviceRecord → List (UplinkRecord V) → Text → Text → Markup
  unfolding currents chart uplink_table layout status_form shown_or
  device_page device uplinks csrf subject = layout device.device_id subject (
      el (codes "h2") [] (say device.device_id)
      <> el (codes "dl") (class (codes "meta") ∷ []) (
          el (codes "dt") [] (say (codes "status"))
          <> el (codes "dd") []
              (badge (codes "badge") device.status <> say (codes " ") <> status_form device csrf)
          <> el (codes "dt") [] (say (codes "owner"))
          <> el (codes "dd") [] (say device.owner_id)
          <> el (codes "dt") [] (say (codes "cert subject"))
          <> el (codes "dd") [] (say (shown_or device.subject_dn (codes "—")))
          <> el (codes "dt") [] (say (codes "registered"))
          <> el (codes "dd") [] (say device.created_at))
      <> chart (currents uplinks)
      <> el (codes "h2") [] (say (codes "uplinks"))
      <> uplink_table uplinks)

-- A page with the `Set-Cookie` header that comes with it.
pub record Page : Type 0 where
  pub set_cookie : Option Text
  pub body : Markup

unfoldable pub subject_of : {V : Type 0} → SerdeJson V → (Text → Option Text) → Text
unfolding shown_or
subject_of json get = shown_or (extract_client_subject json get) (codes "unknown")

module _ {V S : Type 0} (json : SerdeJson V) (st : DeviceStore V S) (get : Text → Option Text)
    (cookies : List (Option Text)) (fresh : Text) where
  unfoldable pub fleet : Option (ℕ × ℕ) → Exec S V Page
  unfolding fleet_page ensure_csrf subject_of
  fleet now = Exec.◌>>=◌ (fleet_rows json st now) λ rows.
      let (token, set_cookie) = ensure_csrf cookies fresh in
      pure (record { set_cookie = set_cookie; body = fleet_page rows token (subject_of json get) })

  module _ (as_i64 : V → Option ℤ) (points : List ℤ → Text) where
    unfoldable pub device_detail : Text → Exec S V Page
    unfolding device_page ensure_csrf subject_of
    device_detail id = Exec.◌>>=◌ (st.get_device id) λ found. elim found [
      | some device ↦ Exec.◌>>=◌ (st.get_uplinks id 20) λ uplinks.
          let (token, set_cookie) = ensure_csrf cookies fresh in
          pure (record {
            set_cookie = set_cookie;
            body = device_page json as_i64 points device uplinks token (subject_of json get);
          })
      | none ↦ raise (device_not_found id)
    ]
