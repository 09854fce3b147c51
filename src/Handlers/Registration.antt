-- ===== src/Handlers/Registration.antt =====
-- Registering a device and reading it back, over any store that keeps the contract.
use super_victor.Prelude.{
  ℕ, Option, none, some, List, [], ◌∷◌, ◌++◌, ◌≡◌, refl, ◌⊎◌, inl, inr, Bool-cases, arith,
}
use mathlib.Core.Path.{subst}
use super_victor.Prelude.Text.{Text, ◌≟◌, ≟_refl}
use super_victor.Prelude.Str.{trim, is_empty}
use super_victor.Exec.{Result, ok, err, continue, ◌>>=◌}
use super_victor.Json.{Parsed, value, invalid, SerdeJson}
use super_victor.Models.{
  RegisterDeviceRequest, DeviceRecord, DeviceResponse, StoreError, missing_body, invalid_payload,
  device_already_exists, store, response_of,
}
use super_victor.Store.{DeviceStore}
use super_victor.Store.Contract.{
  Registry, find, IsDeviceStore, PutDevice, stored, duplicate, failed, GetDevice, found,
}
use super_victor.Handlers.{
  body_of, payload_of, device_record, handle_register_device, or_not_found, handle_get_device,
}
use super_victor.Handlers.Uplink.{IsBlank}

find-append :
    (ds : List DeviceRecord) (r : DeviceRecord)
    → find r.device_id ds ≡ none
    → find r.device_id (ds ++ r ∷ []) ≡ some r
unfolding find
find-append [] r h = rw ≟_refl
find-append (d ∷ ds) r h = elim (Bool-cases (d.device_id ≟ r.device_id)) [
  | inl e ↦ absurd (ground (arith, e))
  | inr e ↦ rw e (find-append ds r (rw e at h))
]

module _ {V S : Type 0} (json : SerdeJson V) (view : S → Registry V) (raw : Option Text)
    (now : Option (ℕ × ℕ)) (s : S) where
  -- The four ways in which a registration can end.
  pub data Outcome : Result V DeviceResponse × S → Type 0 where
    registered :
        (body : Text) (req : RegisterDeviceRequest) (s' : S)
        → raw ≡ some body
        → json.register_from_str body ≡ value req
        → find req.device_id (view s).devices ≡ none
        → view s' ≡ record (view s) { devices = (view s).devices ++ device_record req now ∷ [] }
        → Outcome (ok (response_of (device_record req now)), s')
    conflict :
        (body : Text) (req : RegisterDeviceRequest) (d : DeviceRecord) (s' : S)
        → raw ≡ some body
        → json.register_from_str body ≡ value req
        → find req.device_id (view s).devices ≡ some d
        → view s' ≡ view s
        → Outcome (err (device_already_exists req.device_id), s')
    no_body : IsBlank raw → Outcome (err missing_body, s)
    not_request :
        (body detail : Text)
        → raw ≡ some body
        → json.register_from_str body ≡ invalid detail
        → Outcome (err (invalid_payload detail none), s)
    backend : (e : StoreError) (s' : S) → view s' ≡ view s → Outcome (err (store e), s')

module _ {V S : Type 0} {st : DeviceStore V S} {view : S → Registry V}
    (contract : IsDeviceStore st view) (json : SerdeJson V) (now : Option (ℕ × ℕ)) (s : S) where
  after_put :
      (body : Text) (req : RegisterDeviceRequest) {r : Result V DeviceRecord × S}
      → json.register_from_str body ≡ value req
      → PutDevice view s (device_record req now) r
      → Outcome json view
          (some body)
          now
          s
          (continue r.0 (λ saved t. (ok (response_of saved), t)) r.1)
  unfolding device_record
  after_put body req parsed (stored s' fresh grown) = registered body req s' refl parsed fresh grown
  after_put body req parsed (duplicate s' d there same) =
      conflict body req d s' refl parsed there same
  after_put body req parsed (failed s' e same) = backend e s' same

  after_parse :
      (body : Text) (p : Parsed RegisterDeviceRequest)
      → json.register_from_str body ≡ p
      → Outcome json view (some body) now s (
          continue
            (payload_of p)
            (λ req.
              st.put_device (device_record req now) >>= λ saved t. (ok (response_of saved), t))
            s)
  unfolding payload_of
  after_parse body (value req) e =
      after_put body req e (contract.put_device (device_record req now) s)
  after_parse body (invalid detail) e = not_request body detail refl e

  pub handle_register_device-Outcome :
      (raw : Option Text) → Outcome json view raw now s (handle_register_device json raw st now s)
  unfolding handle_register_device body_of
  handle_register_device-Outcome none = no_body tt
  handle_register_device-Outcome (some body) = elim (Bool-cases (is_empty (trim body))) [
    | inl blank ↦ rw blank (no_body blank)
    | inr text ↦ rw text (after_parse body (json.register_from_str body) refl)
  ]

  -- What a look-up of a registered device answers.
  abbrev pub Answers : DeviceResponse → Result V DeviceResponse → Type 0
  Answers resp r = (r ≡ ok resp) ⊎ ((e : StoreError) × (r ≡ err (store e)))

  after_get :
      (id : Text) (t : S) (d : DeviceRecord) {r : Result V (Option DeviceRecord) × S}
      → find id (view t).devices ≡ some d
      → GetDevice view t id r
      → Answers (response_of d) (continue r.0 (or_not_found id) r.1).0
  unfolding or_not_found
  after_get id t d e (found t' same) = rw e (inl refl)
  after_get id t d e (failed t' f same) = inr (f, refl)

  response_id : (d : DeviceRecord) → (response_of d).device_id ≡ d.device_id
  unfolding response_of
  response_id d = refl

  after_register :
      (raw : Option Text) {out : Result V DeviceResponse × S}
      → Outcome json view raw now s out
      → (resp : DeviceResponse) → out.0 ≡ ok resp
      → Answers resp (handle_get_device resp.device_id st out.1).0
  unfolding handle_get_device
  after_register raw (registered body req s' _ _ fresh grown) resp e =
      let saved = device_record req now in
      let same : response_of saved ≡ resp = cc in
      subst (λ p. Answers p (handle_get_device p.device_id st s').0) same
        (unfold response_of device_record in
          after_get req.device_id s' saved (rw grown (find-append (view s).devices saved fresh))
            (contract.get_device req.device_id s'))
  after_register raw _ resp e = cc

  -- A device that was registered is read back by its identifier as the registration answered, unless
  -- the backend fails.
  pub get-register :
      (raw : Option Text) (resp : DeviceResponse) (s' : S)
      → handle_register_device json raw st now s ≡ (ok resp, s')
      → Answers resp (handle_get_device resp.device_id st s').0
  get-register raw resp s' e =
      after_register raw
        (subst (Outcome json view raw now s) e (handle_register_device-Outcome raw)) resp refl
