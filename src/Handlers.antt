-- ===== src/Handlers.antt =====
-- supervictor/endpoint/src/handlers.rs: the request handlers, over any store. The clock reading that
-- `now_rfc3339` makes is the argument `now`; log lines are left out.
pub mod Uplink
pub mod Registration
mod Examples
use super_victor.Prelude.{
  ℕ, Bool, true, false, Option, none, some, List, [], ◌∷◌, map, if◌then◌else◌,
}
use super_victor.Prelude.Text.{Text, codes, ◌≟◌}
use super_victor.Prelude.Str.{trim, is_empty}
use super_victor.Exec.{Result, ok, err, Exec, pure, raise, lift, ◌>>=◌, ◌>>◌}
use super_victor.Json.{Parsed, value, invalid, SerdeJson}
use super_victor.Models.{
  UplinkMessage, RegisterDeviceRequest, DeviceRecord, DeviceResponse, UplinkRecord, HelloResponse,
  UplinkResponse, missing_body, invalid_payload, device_not_found, device_not_registered, active,
  response_of,
}
use super_victor.Store.{DeviceStore}
use super_victor.Time.{now_rfc3339}

unfoldable pub handle_hello : Option Text → HelloResponse
handle_hello client_subject = record {
  message = codes "Hello from Supervictor!";
  client_subject = client_subject;
}

module _ {V : Type 0} where
  -- `raw_body.filter(|b| !b.trim().is_empty()).ok_or(AppError::MissingBody)`
  unfoldable pub body_of : Option Text → Result V Text
  body_of none = err missing_body
  body_of (some b) = if is_empty (trim b) then err missing_body else ok b

  -- `map_err` of a deserialisation.
  unfoldable pub payload_of : {A : Type 0} → Parsed A → Result V A
  payload_of (value a) = ok a
  payload_of (invalid detail) = err (invalid_payload detail none)

  -- The payload that `handle_uplink` stores: the reading, and the firmware version if it was sent.
  unfoldable pub uplink_payload : SerdeJson V → UplinkMessage → V
  uplink_payload json uplink =
      let payload = json.object ((codes "current", json.number uplink.current) ∷ []) in
      elim uplink.fw [
        | some fw ↦ json.set_index payload (codes "fw") (json.string fw)
        | none ↦ payload
      ]

-- The record that `handle_register_device` stores.
unfoldable pub device_record : RegisterDeviceRequest → Option (ℕ × ℕ) → DeviceRecord
device_record req now = record {
  device_id = req.device_id;
  owner_id = req.owner_id;
  subject_dn = req.subject_dn;
  status = active;
  created_at = now_rfc3339 now;
}

module _ {V S : Type 0} where
  -- The match on the device of the registration check.
  unfoldable pub is_active : Option DeviceRecord → Exec S V (Unit {0})
  is_active (some d) = if d.status ≟ active then pure tt else raise device_not_registered
  is_active none = raise device_not_registered

  unfoldable pub check_registration : Bool → Option (DeviceStore V S) → Text → Exec S V (Unit {0})
  check_registration true (some st) id = do device ← st.get_device id; is_active device
  check_registration true none id = pure tt
  check_registration false st id = pure tt

  module _ (json : SerdeJson V) where
    unfoldable pub store_uplink :
        Option (DeviceStore V S) → UplinkMessage → Option (ℕ × ℕ) → Exec S V (Unit {0})
    store_uplink none uplink now = pure tt
    store_uplink (some st) uplink now = st.put_uplink (record {
      device_id = uplink.id;
      received_at = now_rfc3339 now;
      payload = uplink_payload json uplink;
    })

    -- From the deserialised message on.
    unfoldable pub accept_uplink :
        Option Text
        → Option (DeviceStore V S)
        → Bool
        → Option (ℕ × ℕ)
        → UplinkMessage
        → Exec S V UplinkResponse
    accept_uplink client_subject st require_registration now uplink = do
      check_registration require_registration st uplink.id
      store_uplink st uplink now
      pure (record {
        message = codes "Uplink received";
        device_id = uplink.id;
        current = uplink.current;
        client_subject = client_subject;
      })

    unfoldable pub handle_uplink :
        Option Text
        → Option Text
        → Option (DeviceStore V S)
        → Bool
        → Option (ℕ × ℕ)
        → Exec S V UplinkResponse
    unfolding accept_uplink
    handle_uplink raw_body client_subject st require_registration now = do
      body ← lift (body_of raw_body)
      uplink ← lift (payload_of (json.uplink_from_str body))
      accept_uplink client_subject st require_registration now uplink

    unfoldable pub handle_register_device :
        Option Text → DeviceStore V S → Option (ℕ × ℕ) → Exec S V DeviceResponse
    handle_register_device raw_body st now = do
      body ← lift (body_of raw_body)
      req ← lift (payload_of (json.register_from_str body))
      saved ← st.put_device (device_record req now)
      pure (response_of saved)

  unfoldable pub or_not_found : Text → Option DeviceRecord → Exec S V DeviceResponse
  or_not_found id (some d) = pure (response_of d)
  or_not_found id none = raise (device_not_found id)

  unfoldable pub handle_get_device : Text → DeviceStore V S → Exec S V DeviceResponse
  handle_get_device id st = do device ← st.get_device id; or_not_found id device

  unfoldable pub handle_list_devices : DeviceStore V S → Exec S V (List DeviceResponse)
  handle_list_devices st = do devices ← st.list_devices; pure (map response_of devices)

  unfoldable pub handle_get_device_uplinks :
      Text → DeviceStore V S → ℕ → Exec S V (List (UplinkRecord V))
  handle_get_device_uplinks id st limit = st.get_uplinks id limit
