-- ===== src/Routes.antt =====
-- supervictor/endpoint/src/routes.rs: the route handlers over the application's store. An
-- uplink is broadcast to the dashboard; `Table` holds the router.
pub mod Uplink
pub mod Publish
pub mod Table
pub mod Gate
mod Examples
use super_victor.Prelude.{ℕ, true, false, Option, none, some, List, [], ◌∷◌, if◌then◌else◌}
use super_victor.Prelude.Text.{Text, codes}
use super_victor.Prelude.Str.{is_empty}
use super_victor.Exec.{Result, ok, err, Exec, pure}
use super_victor.Time.{now_rfc3339}
use super_victor.Events.{UplinkEvent}
use super_victor.Exec
use super_victor.Json.{SerdeJson}
use super_victor.Models.{DeviceResponse, HelloResponse, UplinkRecord, UplinkResponse}
use super_victor.Store.{DeviceStore}
use super_victor.Fleet.{FleetDevice, FleetSummary, snapshot_now, summarize}
use super_victor.Handlers.{
  handle_hello, handle_uplink, handle_register_device, handle_get_device, handle_list_devices,
  handle_get_device_uplinks,
}

-- `if body.is_empty() { None } else { Some(…) }`
unfoldable pub body_opt : Text → Option Text
body_opt body = if is_empty body then none else some body

unfoldable pub hello : Option Text → HelloResponse
hello subject = handle_hello subject

module _ {V S : Type 0} (json : SerdeJson V) (st : DeviceStore V S) (now : Option (ℕ × ℕ)) where
  unfoldable pub fleet_status : Exec S V (List FleetDevice)
  fleet_status = snapshot_now json st now

  unfoldable pub fleet_summary : Exec S V FleetSummary
  fleet_summary = Exec.◌>>=◌ (snapshot_now json st now) λ devices. pure (summarize devices)

  unfoldable pub answer_uplink : Option Text → Text → Exec S V UplinkResponse
  unfolding body_opt
  answer_uplink subject body = handle_uplink json (body_opt body) subject (some st) false now

  -- The answer, with the status 201.
  unfoldable pub register_device : Text → Exec S V (ℕ × DeviceResponse)
  unfolding body_opt
  register_device body =
      Exec.◌>>=◌ (handle_register_device json (body_opt body) st now) λ resp. pure (201, resp)

-- What the broadcast gets: nothing if the handler failed. `now'` is the second reading of the clock.
unfoldable pub published :
    {V : Type 0} → Option (ℕ × ℕ) → Result V UplinkResponse → List UplinkEvent
published now' (err e) = []
published now' (ok resp) =
    record { device_id = resp.device_id; current = resp.current; received_at = now_rfc3339 now' }
    ∷ []

-- The answer with the state of the store, and what was sent to the subscribers; a send that fails
-- changes nothing.
unfoldable pub uplink :
    {V S : Type 0}
    → SerdeJson V
    → DeviceStore V S
    → Option (ℕ × ℕ)
    → Option (ℕ × ℕ)
    → Option Text
    → Text
    → S
    → (Result V UplinkResponse × S) × List UplinkEvent
unfolding answer_uplink published
uplink json st now now' subject body s =
    let (r, s') = answer_uplink json st now subject body s in ((r, s'), published now' r)

-- `GET /health`
unfoldable pub health : {V : Type 0} → SerdeJson V → ℕ × V
health json = (200, json.object ((codes "status", json.string (codes "ok")) ∷ []))

module _ {V S : Type 0} (st : DeviceStore V S) where
  unfoldable pub list_devices : Exec S V (List DeviceResponse)
  list_devices = handle_list_devices st

  unfoldable pub get_device : Text → Exec S V DeviceResponse
  get_device device_id = handle_get_device device_id st

  unfoldable pub get_device_uplinks : Text → Exec S V (List (UplinkRecord V))
  get_device_uplinks device_id = handle_get_device_uplinks device_id st 10
