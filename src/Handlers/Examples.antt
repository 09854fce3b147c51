-- ===== src/Handlers/Examples.antt =====
-- The handlers on test requests.
use super_victor.Prelude.{
  ℕ, true, false, Option, none, some, List, [], ◌∷◌, ◌≡◌, refl, ◌⊎◌, inl, inr,
}
use super_victor.Prelude.Text.{codes}
use super_victor.Exec.{ok}
use super_victor.Models.{DeviceResponse, response_of}
use super_victor.Store.Contract.{Registry}
use super_victor.Store.Samples.{
  Value, json, memory, memory-IsDeviceStore, uplink_text, register_text, request, one_device,
  no_devices,
}
use super_victor.Handlers.{device_record, handle_register_device, handle_uplink, handle_get_device}
use super_victor.Handlers.Uplink.{handle_uplink-Outcome}
use super_victor.Handlers.Registration.{Answers, get-register}
use super_victor.Handlers.Uplink
use super_victor.Handlers.Registration

abbrev now : Option (ℕ × ℕ)
now = some (1782867600, 0)

handle_uplink-Outcome_example :
    Uplink.Outcome json
      (λ t. t)
      (some uplink_text)
      (some (codes "CN=gate"))
      true
      now
      one_device
      (handle_uplink json
        (some uplink_text)
        (some (codes "CN=gate"))
        (some memory)
        true
        now
        one_device)
handle_uplink-Outcome_example =
    handle_uplink-Outcome memory-IsDeviceStore json (some (codes "CN=gate")) true now one_device
      (some uplink_text)

abbrev saved : DeviceResponse
saved = response_of (device_record request now)

abbrev after : Registry Value
after = record { devices = device_record request now ∷ []; uplinks = [] }

registered :
    handle_register_device json (some register_text) memory now no_devices ≡ (ok saved, after)
unfolding handle_register_device super_victor.Handlers.body_of super_victor.Prelude.Str.trim
    super_victor.Handlers.payload_of super_victor.Store.Samples.put_device
    super_victor.Store.Contract.find
registered = refl

get-register_example :
    Answers memory-IsDeviceStore json now no_devices saved
      (handle_get_device saved.device_id memory after).0
get-register_example =
    get-register memory-IsDeviceStore json now no_devices (some register_text) saved after
      registered
