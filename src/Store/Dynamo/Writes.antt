-- ===== src/Store/Dynamo/Writes.antt =====
-- What the writes of the DynamoDB backend do, over a client whose writes do what DynamoDB documents. A
-- request that fails otherwise than by its condition may have been carried out.
use super_victor.Prelude.{
  ◌≡◌, ◌⊎◌, true, false, not, ◌&&◌, Option, none, some, List, [], ◌∷◌, ◌++◌, filter,
}
use super_victor.Prelude.Text.{Text, codes, ◌≟◌}
use super_victor.Exec.{Result, ok, err}
use super_victor.Json.{Parsed}
use super_victor.Models.{
  DeviceRecord, UplinkRecord, StoreError, store, device_already_exists, device_not_found,
}
use super_victor.Store.Contract.{Registry, find, set_status}
use super_victor.Store.Stored.{Tables}
use super_victor.Store.Aws.{Item, s, SdkError, Answer, done, failed, Client}
use super_victor.Store.Dynamo.{device_to_item, put_device, set_device_status, put_uplink}
use super_victor.Store.Dynamo.Laws.{stored_item}

-- The uplinks with another key: the table of messages has one item for a device and a time.
abbrev pub others : {V : Type 0} → Text → Text → List (UplinkRecord V) → List (UplinkRecord V)
others id at us = filter (λ v. not ((v.device_id ≟ id) && (v.received_at ≟ at))) us

module _ {V : Type 0} (t : Registry V) where
  abbrev pub with_device : DeviceRecord → Registry V
  with_device d = record t { devices = t.devices ++ d ∷ [] }

  abbrev pub with_status : Text → Text → Registry V
  with_status id status = record t { devices = set_status id status t.devices }

  abbrev pub with_uplink : UplinkRecord V → Registry V
  with_uplink u = record t { uplinks = others u.device_id u.received_at t.uplinks ++ u ∷ [] }

module _ {S : Type 0} (tables : S → Tables) (state : S) where
  pub data InsertDevice (d : DeviceRecord) : Answer (Unit {0}) × S → Type 0 where
    added :
        (state' : S)
        → find d.device_id (tables state).devices ≡ none
        → tables state' ≡ with_device (tables state) d
        → InsertDevice d (done tt, state')
    taken :
        (e : SdkError) (state' : S) (old : DeviceRecord)
        → e.is_conditional_check_failed ≡ true
        → find d.device_id (tables state).devices ≡ some old
        → tables state' ≡ tables state
        → InsertDevice d (failed e, state')
    broken :
        (e : SdkError) (state' : S)
        → e.is_conditional_check_failed ≡ false
        → (tables state' ≡ tables state)
          ⊎ ((find d.device_id (tables state).devices ≡ none)
              × (tables state' ≡ with_device (tables state) d))
        → InsertDevice d (failed e, state')

  pub data UpdateStatus (id status : Text) : Answer (Option Item) × S → Type 0 where
    changed :
        (state' : S) (d : DeviceRecord)
        → find id (tables state).devices ≡ some d
        → tables state' ≡ with_status (tables state) id status
        → UpdateStatus id status
            (done (some (device_to_item (record d { status = status }))), state')
    absent :
        (e : SdkError) (state' : S)
        → e.is_conditional_check_failed ≡ true
        → find id (tables state).devices ≡ none
        → tables state' ≡ tables state
        → UpdateStatus id status (failed e, state')
    broken :
        (e : SdkError) (state' : S)
        → e.is_conditional_check_failed ≡ false
        → (tables state' ≡ tables state) ⊎ (tables state' ≡ with_status (tables state) id status)
        → UpdateStatus id status (failed e, state')

  pub data InsertUplink (u : UplinkRecord Text) : Answer (Unit {0}) × S → Type 0 where
    added :
        (state' : S)
        → tables state' ≡ with_uplink (tables state) u
        → InsertUplink u (done tt, state')
    broken :
        (e : SdkError) (state' : S)
        → (tables state' ≡ tables state) ⊎ (tables state' ≡ with_uplink (tables state) u)
        → InsertUplink u (failed e, state')

-- What DynamoDB documents of conditional writes and of puts. `tables` is what has been written.
pub record WriteLaws {S : Type 0} (client : Client S) (devices_table messages_table : Text)
    (tables : S → Tables) : Type 0 where
  pub insert_device :
      (d : DeviceRecord) (state : S)
      → InsertDevice tables state d (
          client.put_item devices_table
            (device_to_item d)
            (some (codes "attribute_not_exists(device_id)"))
            state)
  pub update_status :
      (id status : Text) (state : S)
      → UpdateStatus tables state id status (
          client.update_item devices_table
            (codes "device_id", s id)
            (codes "SET #s = :status")
            (codes "#s", codes "status")
            (codes ":status", s status)
            (codes "attribute_exists(device_id)")
            state)
  pub insert_uplink :
      (u : UplinkRecord Text) (state : S)
      → InsertUplink tables state u (client.put_item messages_table (stored_item u) none state)

-- What a write does to the registry.
module _ {V S : Type 0} (view : S → Registry V) (state : S) where
  pub data Put (d : DeviceRecord) : Result V DeviceRecord × S → Type 0 where
    stored_once :
        (state' : S)
        → find d.device_id (view state).devices ≡ none
        → view state' ≡ with_device (view state) d
        → Put d (ok d, state')
    duplicate :
        (state' : S) (old : DeviceRecord)
        → find d.device_id (view state).devices ≡ some old
        → view state' ≡ view state
        → Put d (err (device_already_exists d.device_id), state')
    unsure :
        (e : StoreError) (state' : S)
        → (view state' ≡ view state)
          ⊎ ((find d.device_id (view state).devices ≡ none)
              × (view state' ≡ with_device (view state) d))
        → Put d (err (store e), state')

  pub data Set (id status : Text) : Result V DeviceRecord × S → Type 0 where
    updated_once :
        (state' : S) (d : DeviceRecord)
        → find id (view state).devices ≡ some d
        → view state' ≡ with_status (view state) id status
        → Set id status (ok (record d { status = status }), state')
    missing :
        (state' : S)
        → find id (view state).devices ≡ none
        → view state' ≡ view state
        → Set id status (err (device_not_found id), state')
    unsure :
        (e : StoreError) (state' : S)
        → (view state' ≡ view state) ⊎ (view state' ≡ with_status (view state) id status)
        → Set id status (err (store e), state')

  pub data PutUplink (u : UplinkRecord V) : Result V (Unit {0}) × S → Type 0 where
    stored_once :
        (state' : S) → view state' ≡ with_uplink (view state) u → PutUplink u (ok tt, state')
    unsure :
        (e : StoreError) (state' : S)
        → (view state' ≡ view state) ⊎ (view state' ≡ with_uplink (view state) u)
        → PutUplink u (err (store e), state')

-- Each write of the backend.
pub record IsWriter {V S : Type 0} (client : Client S) (devices_table messages_table : Text)
    (view : S → Registry V) (serialize : V → Parsed Text) : Type 0 where
  pub put_device_once :
      (d : DeviceRecord) (state : S)
      → Put view state d (put_device client devices_table messages_table d state)
  pub set_device_status_once :
      (id status : Text) (state : S)
      → Set view state id status
          (set_device_status client devices_table messages_table id status state)
  pub put_uplink_once :
      (u : UplinkRecord V) (state : S)
      → PutUplink view state u (put_uplink client devices_table messages_table serialize u state)
