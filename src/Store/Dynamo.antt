-- ===== src/Store/Dynamo.antt =====
-- supervictor/endpoint/src/store/dynamo.rs, over the client of Store/Aws.
pub mod Items
pub mod Laws
pub mod Answers
pub mod Latest
pub mod Writes
pub mod Written
mod Examples
mod WriteExamples
use super_victor.Prelude.{
  ℕ, zero, suc, ◌-◌, ◌%◌, Bool, true, false, Option, none, some, List, [], ◌∷◌, ◌++◌, if◌then◌else◌,
  ltb,
}
use super_victor.Prelude.Text.{Text, codes, ◌≟◌}
use super_victor.Prelude.Int.{ℤ, pos, negsuc}
use super_victor.Exec.{Result, ok, err, Exec, ◌>>=◌, pure}
use super_victor.Json.{Parsed, value, invalid, SerdeJson}
use super_victor.Models.{
  DeviceRecord, UplinkRecord, io, serde, store, device_already_exists, device_not_found,
}
use super_victor.Store.{DeviceStore}
use super_victor.Store.Stored.{payload_of_text}
use super_victor.Store.Aws.{Attribute, s, other, Item, SdkError, Answer, done, failed, Client}

abbrev pub no_item : Item
no_item j = none

abbrev pub insert : Text → Attribute → Item → Item
insert k v item j = if k ≟ j then some v else item j

-- `and_then(|v| v.as_s().ok())`
abbrev pub as_s : Option Attribute → Option Text
as_s (some (s t)) = some t
as_s _ = none

-- `limit as i32`
abbrev pub as_i32 : ℕ → ℤ
as_i32 n = let k = n % 4294967296 in if ltb k 2147483648 then pos k else negsuc (4294967295 - k)

abbrev pub insert_optional : Text → Option Text → Item → Item
insert_optional k none item = item
insert_optional k (some t) item = insert k (s t) item

unfoldable pub device_to_item : DeviceRecord → Item
device_to_item record_ = insert (codes "created_at") (s record_.created_at) (
    insert (codes "status") (s record_.status) (
      insert_optional (codes "subject_dn") record_.subject_dn (
        insert (codes "owner_id") (s record_.owner_id)
          (insert (codes "device_id") (s record_.device_id) no_item))))

abbrev pub text_or_empty : Option Text → Text
text_or_empty none = []
text_or_empty (some t) = t

-- The item of an uplink with its serialised payload.
unfoldable pub uplink_item : Text → Text → Text → Item
uplink_item device_id received_at payload = insert (codes "payload") (s payload) (
    insert (codes "received_at") (s received_at) (insert (codes "device_id") (s device_id) no_item))

module _ {V : Type 0} where
  -- `ok_or_else(…)?`, and the rest.
  abbrev pub required : {A : Type 0} → Text → Text → Option Text → (Text → Result V A) → Result V A
  required op detail none f = err (store (io op detail))
  required op detail (some t) f = f t

  abbrev pub get_s : {A : Type 0} → Item → Text → (Text → Result V A) → Result V A
  get_s item key f =
      required (codes "item_to_device") (codes "missing field: " ++ key) (as_s (item key)) f

  unfoldable pub item_to_device : Item → Result V DeviceRecord
  item_to_device item = get_s item (codes "device_id") λ device_id.
      get_s item (codes "owner_id") λ owner_id. get_s item (codes "status") λ status.
        get_s item (codes "created_at") λ created_at. ok (record {
          device_id = device_id;
          owner_id = owner_id;
          subject_dn = as_s (item (codes "subject_dn"));
          status = status;
          created_at = created_at;
        })

  -- `collect` of what is made of the items: the first error, if there is one.
  abbrev pub both : {A : Type 0} → Result V A → Result V (List A) → Result V (List A)
  both (err e) rest = err e
  both (ok a) (err e) = err e
  both (ok a) (ok more) = ok (a ∷ more)

  unfoldable pub collect : {A : Type 0} → (Item → Result V A) → List Item → Result V (List A)
  collect f [] = ok []
  collect f (item ∷ items) = both (f item) (collect f items)

  unfoldable pub stored : DeviceRecord → Answer (Unit {0}) → Result V DeviceRecord
  stored record_ (done _) = ok record_
  stored record_ (failed e) =
      if e.is_conditional_check_failed
      then err (device_already_exists record_.device_id)
      else err (store (io (codes "put_device") e.service_display))

  abbrev pub some_device : Result V DeviceRecord → Result V (Option DeviceRecord)
  some_device (ok d) = ok (some d)
  some_device (err e) = err e

  unfoldable pub fetched : Answer (Option Item) → Result V (Option DeviceRecord)
  unfolding item_to_device
  fetched (failed e) = err (store (io (codes "get_device") e.display))
  fetched (done none) = ok none
  fetched (done (some item)) = some_device (item_to_device item)

  -- The items of a page, or the request's error.
  abbrev pub listed :
      {A : Type 0} → Text → (Item → Result V A) → Answer (List Item) → Result V (List A)
  listed op f (failed e) = err (store (io op e.display))
  listed op f (done items) = collect f items

  unfoldable pub updated : Text → Answer (Option Item) → Result V DeviceRecord
  unfolding item_to_device
  updated device_id (done (some item)) = item_to_device item
  updated device_id (done none) =
      err (store (io (codes "set_device_status") (codes "no attributes returned")))
  updated device_id (failed e) =
      if e.is_conditional_check_failed
      then err (device_not_found device_id)
      else err (store (io (codes "set_device_status") e.service_display))

  abbrev pub put_reply : Answer (Unit {0}) → Result V (Unit {0})
  put_reply (done _) = ok tt
  put_reply (failed e) = err (store (io (codes "put_uplink") e.display))

  -- The closure that reads an uplink.
  unfoldable pub item_to_uplink : SerdeJson V → Item → Result V (UplinkRecord V)
  unfolding payload_of_text
  item_to_uplink json item =
      required (codes "get_uplinks") (codes "missing device_id") (as_s (item (codes "device_id")))
        λ device_id.
          required (codes "get_uplinks") (codes "missing received_at")
            (as_s (item (codes "received_at")))
            λ received_at. ok (record {
              device_id = device_id;
              received_at = received_at;
              payload = payload_of_text json (text_or_empty (as_s (item (codes "payload"))));
            })

-- `into_iter().next()`, pushed if there is one.
abbrev pub push_first : {A : Type 0} → List A → List A → List A
push_first [] out = out
push_first (u ∷ _) out = out ++ u ∷ []

module _ {S V : Type 0} (client : Client S) (devices_table messages_table : Text) where
  unfoldable pub put_device : DeviceRecord → Exec S V DeviceRecord
  unfolding stored device_to_item
  put_device record_ state =
      let (reply, state') =
        client.put_item devices_table (device_to_item record_)
          (some (codes "attribute_not_exists(device_id)")) state in
      (stored record_ reply, state')

  unfoldable pub get_device : Text → Exec S V (Option DeviceRecord)
  unfolding fetched
  get_device device_id state =
      let (reply, state') = client.get_item devices_table (codes "device_id", s device_id) state in
      (fetched reply, state')

  unfoldable pub list_devices : Exec S V (List DeviceRecord)
  list_devices state =
      let (reply, state') = client.scan devices_table state in
      (listed (codes "list_devices") item_to_device reply, state')

  unfoldable pub set_device_status : Text → Text → Exec S V DeviceRecord
  unfolding updated
  set_device_status device_id status state =
      let (reply, state') =
        client.update_item devices_table (codes "device_id", s device_id) (codes "SET #s = :status")
          (codes "#s", codes "status") (codes ":status", s status)
          (codes "attribute_exists(device_id)") state in
      (updated device_id reply, state')

  -- From the serialised payload on.
  unfoldable pub put_serialized : UplinkRecord V → Parsed Text → Exec S V (Unit {0})
  unfolding uplink_item
  put_serialized record_ (invalid e) state =
      (err (store (serde (codes "serialize payload") e)), state)
  put_serialized record_ (value payload) state =
      let (reply, state') =
        client.put_item messages_table (uplink_item record_.device_id record_.received_at payload)
          none state in
      (put_reply reply, state')

  module _ (serialize : V → Parsed Text) where
    unfoldable pub put_uplink : UplinkRecord V → Exec S V (Unit {0})
    unfolding put_serialized
    put_uplink record_ = put_serialized record_ (serialize record_.payload)

  module _ (json : SerdeJson V) where
    unfoldable pub get_uplinks : Text → ℕ → Exec S V (List (UplinkRecord V))
    get_uplinks device_id limit state =
        let (reply, state') =
          client.query messages_table (codes "device_id = :did") (codes ":did", s device_id) false
            (as_i32 limit) state in
        (listed (codes "get_uplinks") (item_to_uplink json) reply, state')

    -- The loop over the devices.
    unfoldable pub push_latest :
        List (UplinkRecord V) → List DeviceRecord → Exec S V (List (UplinkRecord V))
    push_latest out [] = pure out
    push_latest out (device ∷ devices) =
        get_uplinks device.device_id 1 >>= λ us. push_latest (push_first us out) devices

    unfoldable pub latest_uplinks : Exec S V (List (UplinkRecord V))
    unfolding push_latest
    latest_uplinks = list_devices >>= λ devices. push_latest [] devices

  module _ (json : SerdeJson V) (serialize : V → Parsed Text) where
    abbrev pub dynamo : DeviceStore V S
    dynamo = record {
      put_device = put_device;
      get_device = get_device;
      list_devices = list_devices;
      put_uplink = put_uplink serialize;
      get_uplinks = get_uplinks json;
      set_device_status = set_device_status;
      latest_uplinks = latest_uplinks json;
    }
