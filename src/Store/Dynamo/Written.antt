-- ===== src/Store/Dynamo/Written.antt =====
-- The writes of the DynamoDB backend: proofs.
use mathlib.Core.List.{map-append}
use super_victor.Prelude.{
  ◌≡◌, refl, ap, ◌∙◌, inl, inr, ◌&&◌, Option, List, [], ◌∷◌, ◌++◌, map, Bool-cases,
}
use super_victor.Prelude.Text.{Text, ◌≟◌}
use super_victor.Json.{Parsed, value, invalid, SerdeJson}
use super_victor.Models.{DeviceRecord, UplinkRecord}
use super_victor.Store.Contract.{Registry}
use super_victor.Store.Stored.{Tables, decode, registry}
use super_victor.Store.Aws.{Item, Answer, Client}
use super_victor.Store.Dynamo.{
  stored, updated, put_reply, put_serialized, put_device, set_device_status, put_uplink,
}
use super_victor.Store.Dynamo.Items.{item_to_device-device_to_item}
use super_victor.Store.Stored.{decode-payload}
use super_victor.Store.Dynamo.Writes.{
  others, with_device, with_status, with_uplink, InsertDevice, UpdateStatus, InsertUplink,
  WriteLaws, IsWriter, Put, Set, PutUplink,
}
use super_victor.Store.Dynamo.Writes

others-decode :
    {V : Type 0} (json : SerdeJson V) (id at : Text) (us : List (UplinkRecord Text))
    → map (decode json) (others id at us) ≡ others id at (map (decode json) us)
unfolding decode
others-decode json id at [] = refl
others-decode json id at (u ∷ us) = elim (Bool-cases ((u.device_id ≟ id) && (u.received_at ≟ at))) [
  | inl e ↦ rw (e, others-decode json id at us) refl
  | inr e ↦ rw (e, others-decode json id at us) refl
]

module _ {V S : Type 0} (client : Client S) (devices_table messages_table : Text)
    (tables : S → Tables) (laws : WriteLaws client devices_table messages_table tables)
    (json : SerdeJson V) where
  abbrev pub view : S → Registry V
  view state = registry json (tables state)

  put_lem :
      (d : DeviceRecord) (state : S) {r : Answer (Unit {0}) × S}
      → InsertDevice tables state d r
      → Put view state d (stored d r.0, r.1)
  unfolding stored registry
  put_lem d state (Writes.added t f e) = Writes.stored_once t f (ap (registry json) e)
  put_lem d state (Writes.taken x t old c f e) =
      rw c (Writes.duplicate t old f (ap (registry json) e))
  put_lem d state (Writes.broken x t c (inl e)) =
      rw c (Writes.unsure _ t (inl (ap (registry json) e)))
  put_lem d state (Writes.broken x t c (inr (f, e))) =
      rw c (Writes.unsure _ t (inr (f, ap (registry json) e)))

  set_lem :
      (id status : Text) (state : S) {r : Answer (Option Item) × S}
      → UpdateStatus tables state id status r
      → Set view state id status (updated id r.0, r.1)
  unfolding updated registry
  set_lem id status state (Writes.changed t d f e) =
      rw (item_to_device-device_to_item (record d { status = status }))
        (Writes.updated_once t d f (ap (registry json) e))
  set_lem id status state (Writes.absent x t c f e) =
      rw c (Writes.missing t f (ap (registry json) e))
  set_lem id status state (Writes.broken x t c (inl e)) =
      rw c (Writes.unsure _ t (inl (ap (registry json) e)))
  set_lem id status state (Writes.broken x t c (inr e)) =
      rw c (Writes.unsure _ t (inr (ap (registry json) e)))

  replaced :
      (t : Tables) (u : UplinkRecord V) (p : Text)
      → json.value_from_str p ≡ value u.payload
      → registry json (
          with_uplink t
            (record { device_id = u.device_id; received_at = u.received_at; payload = p }))
        ≡ with_uplink (registry json t) u
  unfolding registry
  replaced t u p e =
      ap (λ us. record { devices = t.devices; uplinks = us })
        (map-append (decode json) (others u.device_id u.received_at t.uplinks) _
          ∙ ap
              (λ us.
                us
                ++ decode json
                    (record { device_id = u.device_id; received_at = u.received_at; payload = p })
                  ∷ [])
              (others-decode json u.device_id u.received_at t.uplinks)
          ∙ ap (λ v. others u.device_id u.received_at (map (decode json) t.uplinks) ++ v ∷ [])
              (decode-payload json u p e))

  uplink_lem :
      (u : UplinkRecord V) (p : Text) (state : S)
      → json.value_from_str p ≡ value u.payload
      → {r : Answer (Unit {0}) × S}
      → InsertUplink tables state
          (record { device_id = u.device_id; received_at = u.received_at; payload = p })
          r
      → PutUplink view state u (put_reply r.0, r.1)
  uplink_lem u p state h (Writes.added t e) =
      Writes.stored_once t (ap (registry json) e ∙ replaced (tables state) u p h)
  uplink_lem u p state h (Writes.broken x t (inl e)) =
      Writes.unsure _ t (inl (ap (registry json) e))
  uplink_lem u p state h (Writes.broken x t (inr e)) =
      Writes.unsure _ t (inr (ap (registry json) e ∙ replaced (tables state) u p h))

  module _ (serialize : V → Parsed Text)
      (inverse : (v : V) (t : Text) → serialize v ≡ value t → json.value_from_str t ≡ value v) where
    serialized :
        (u : UplinkRecord V) (r : Parsed Text) (state : S)
        → serialize u.payload ≡ r
        → PutUplink view state u (put_serialized client devices_table messages_table u r state)
    unfolding put_serialized
    serialized u (invalid e) state h = Writes.unsure _ state (inl refl)
    serialized u (value p) state h = uplink_lem u p state (inverse u.payload p h) (
        laws.insert_uplink
          (record { device_id = u.device_id; received_at = u.received_at; payload = p }) state)

    -- Over a client whose conditional writes and puts do what DynamoDB documents, and payloads that
    -- serialise to text which parses as the payload: put_device stores a device only if its identifier
    -- is new, set_device_status changes only the status of the device and returns it as changed, and
    -- put_uplink stores the uplink in place of one of its device with the same time. Each says which
    -- condition failed, and after any other failure the write has been done or the registry is as it
    -- was.
    pub dynamo-IsWriter : IsWriter client devices_table messages_table view serialize
    unfolding put_device set_device_status put_uplink
    dynamo-IsWriter = record {
      put_device_once = λ d state. put_lem d state (laws.insert_device d state);
      set_device_status_once =
          λ id status state. set_lem id status state (laws.update_status id status state);
      put_uplink_once = λ u state. serialized u (serialize u.payload) state refl;
    }
