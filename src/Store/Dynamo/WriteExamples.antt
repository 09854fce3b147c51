-- ===== src/Store/Dynamo/WriteExamples.antt =====
-- The writes of the DynamoDB backend over a test service that keeps its tables.
use super_victor.Prelude.{
  ◌≡◌, refl, sym, true, false, Option, none, some, Option-cases, inl, inr, if◌then◌else◌,
}
use super_victor.Prelude.Text.{Text, codes, ◌≟◌}
use super_victor.Exec.{Result, ok, err}
use super_victor.Json.{value}
use super_victor.Models.{DeviceRecord, UplinkRecord}
use super_victor.Store.Contract.{find}
use super_victor.Store.Stored.{Tables, decode, registry, payload_of_text}
use super_victor.Store.Plain.{plain_json, serialize}
use super_victor.Store.Aws.{Attribute, s, Item, SdkError, Answer, done, failed, Client}
use super_victor.Store.Dynamo.{device_to_item, item_to_device, item_to_uplink}
use super_victor.Store.Dynamo.Items.{item_to_device-device_to_item, item_to_uplink-uplink_item}
use super_victor.Store.Dynamo.Laws.{stored_item}
use super_victor.Store.Dynamo.Writes.{
  with_device, with_status, with_uplink, InsertDevice, UpdateStatus, InsertUplink, WriteLaws,
  IsWriter,
}
use super_victor.Store.Dynamo.Writes
use super_victor.Store.Dynamo.Written.{dynamo-IsWriter}

abbrev refused : SdkError
refused = record {
  display = codes "service error";
  service_display = codes "the conditional request failed";
  is_conditional_check_failed = true;
}

abbrev throttled : SdkError
throttled = record refused { is_conditional_check_failed = false }

unfoldable insert_of : DeviceRecord → Option DeviceRecord → Tables → Answer (Unit {0}) × Tables
insert_of d none t = (done tt, with_device t d)
insert_of d (some old) t = (failed refused, t)

unfoldable put_device_of : Result Text DeviceRecord → Tables → Answer (Unit {0}) × Tables
unfolding insert_of
put_device_of (ok d) t = insert_of d (find d.device_id t.devices) t
put_device_of (err e) t = (failed throttled, t)

unfoldable put_uplink_of : Result Text (UplinkRecord Text) → Tables → Answer (Unit {0}) × Tables
put_uplink_of (ok u) t = (done tt, with_uplink t u)
put_uplink_of (err e) t = (failed throttled, t)

unfoldable update_of : Text → Text → Option DeviceRecord → Tables → Answer (Option Item) × Tables
update_of id status (some d) t =
    (done (some (device_to_item (record d { status = status }))), with_status t id status)
update_of id status none t = (failed refused, t)

unfoldable update_key : Attribute → Attribute → Tables → Answer (Option Item) × Tables
unfolding update_of
update_key (s id) (s status) t = update_of id status (find id t.devices) t
update_key _ _ t = (failed throttled, t)

abbrev service : Client Tables
service = record {
  put_item = λ table item condition t.
      if table ≟ codes "devices"
      then put_device_of (item_to_device item) t
      else put_uplink_of (item_to_uplink plain_json item) t;
  get_item = λ table key t. (failed throttled, t);
  scan = λ table t. (failed throttled, t);
  update_item = λ table key update name v condition t. update_key key.1 v.1 t;
  query = λ table condition v forward limit t. (failed throttled, t);
}

inserted_lem : (d : DeviceRecord) (t : Tables) → InsertDevice (λ x. x) t d (put_device_of (ok d) t)
unfolding put_device_of
inserted_lem d t = elim (Option-cases (find d.device_id t.devices)) [
  | inl e ↦ rw (put_device_of, e) (Writes.added _ e refl)
  | inr (old, e) ↦ rw (put_device_of, e) (Writes.taken refused t old refl e refl)
]

updated :
    (id status : Text) (t : Tables)
    → UpdateStatus (λ x. x) t id status (update_key (s id) (s status) t)
unfolding update_key
updated id status t = elim (Option-cases (find id t.devices)) [
  | inl e ↦ rw (update_key, e) (Writes.absent refused t refl e refl)
  | inr (d, e) ↦ rw (update_key, e) (Writes.changed _ d e refl)
]

plain : (u : UplinkRecord Text) → decode plain_json u ≡ u
unfolding decode payload_of_text
plain u = refl

put_plain :
    (u : UplinkRecord Text) (t : Tables)
    → InsertUplink (λ x. x) t u (put_uplink_of (item_to_uplink plain_json (stored_item u)) t)
unfolding put_uplink_of
put_plain u t = rw (item_to_uplink-uplink_item plain_json u, plain u) (Writes.added _ refl)

put_known :
    (d : DeviceRecord) (t : Tables)
    → InsertDevice (λ x. x) t d (put_device_of (item_to_device (device_to_item d)) t)
put_known d t = rw (item_to_device-device_to_item d) (inserted_lem d t)

laws : WriteLaws service (codes "devices") (codes "messages") (λ t. t)
laws = record {
  insert_device = λ d t. put_known d t;
  update_status = λ id status t. updated id status t;
  insert_uplink = λ u t. put_plain u t;
}

text_inverse : (v t : Text) → serialize v ≡ value t → plain_json.value_from_str t ≡ value v
text_inverse v t e = sym e

dynamo-IsWriter_example :
    IsWriter service (codes "devices") (codes "messages") (λ t. registry plain_json t) serialize
dynamo-IsWriter_example =
    dynamo-IsWriter service (codes "devices") (codes "messages") (λ t. t) laws plain_json serialize
      text_inverse
