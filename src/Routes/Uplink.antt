-- ===== src/Routes/Uplink.antt =====
-- The uplink route does not ask for a registration.
use super_victor.Prelude.{ℕ, false, Option, List, ◌≡◌, ◌≢◌}
use super_victor.Prelude.Text.{Text}
use super_victor.Exec.{Result, err}
use super_victor.Json.{SerdeJson}
use super_victor.Models.{AppError, UplinkResponse, device_not_registered, DeviceRecord}
use super_victor.Store.{DeviceStore}
use super_victor.Store.Contract.{Registry, IsDeviceStore}
use super_victor.Handlers.Uplink.{
  Outcome, Reason, no_body, not_message, unregistered, backend, accepted, refused,
  handle_uplink-Outcome,
}
use super_victor.Routes.{uplink, body_opt}

err_same : {V A : Type 0} {e f : AppError V} → ◌≡◌ {A = Result V A} (err e) (err f) → e ≡ f
err_same k = cc

Reason-otherwise :
    {V : Type 0} {json : SerdeJson V} {raw : Option Text} {devices : List DeviceRecord}
    {e : AppError V}
    → Reason json raw false devices e
    → e ≢ device_not_registered
Reason-otherwise (no_body b) k = cc
Reason-otherwise (not_message b d e f) k = cc
Reason-otherwise (unregistered b m e f g h) k = cc
Reason-otherwise (backend e) k = cc

refused_otherwise :
    {V S : Type 0} {json : SerdeJson V} {view : S → Registry V} {raw subject : Option Text}
    {now : Option (ℕ × ℕ)} {s : S} {out : Result V UplinkResponse × S}
    → Outcome json view raw subject false now s out
    → out.0 ≢ err device_not_registered
refused_otherwise (accepted body m s2 e f g h) k = cc
refused_otherwise (refused e s2 r same) k = Reason-otherwise r (err_same k)

-- No uplink is refused for want of a registration: the route stores the messages of devices that are
-- unknown or inactive too, over any store that keeps the contract.
pub uplink_unregistered :
    {V S : Type 0} (json : SerdeJson V) {st : DeviceStore V S} {view : S → Registry V}
    → IsDeviceStore st view
    → (now now' : Option (ℕ × ℕ)) (subject : Option Text) (body : Text) (s : S)
    → (uplink json st now now' subject body s).0.0 ≢ err device_not_registered
unfolding uplink
uplink_unregistered json contract now now' subject body s =
    refused_otherwise (handle_uplink-Outcome contract json subject false now s (body_opt body))
