-- ===== src/Store/Samples.antt =====
-- Test data: a store that keeps its registry in memory and never fails, which keeps the contract, and
-- a reader of two JSON texts.
use super_victor.Prelude.{
  Option, none, some, List, [], ◌∷◌, ◌++◌, ◌≡◌, ◌≢◌, refl, if◌then◌else◌, take, filter, arith, inl,
  inr, Option-cases,
}
use super_victor.Prelude.Text.{Text, codes, ◌≟◌, ≟_iff, ≟_refl}
use super_victor.Prelude.Int.{ℤ, pos}
use super_victor.Exec.{ok, err, Exec}
use super_victor.Json.{value, invalid, SerdeJson, PayloadLaws}
use super_victor.Models.{
  UplinkMessage, RegisterDeviceRequest, DeviceRecord, device_already_exists, device_not_found,
  active,
}
use super_victor.Store.{DeviceStore}
use super_victor.Store.Contract.{
  Registry, find, set_status, IsDeviceStore, PutDevice, stored, duplicate, found, SetStatus,
  updated, missing,
}

-- An object is its fields, `empty` at the end.
pub data Value : Type 0 where
  null empty : Value
  string : Text → Value
  number : ℤ → Value
  entry : Text → Value → Value → Value

unfoldable pub object : List (Text × Value) → Value
object [] = empty
object ((k, v) ∷ fs) = entry k v (object fs)

unfoldable pub get : Value → Text → Option Value
get (entry j v rest) k = if j ≟ k then some v else get rest k
get _ k = none

-- Sets a field in front of the others.
abbrev pub set_index : Value → Text → Value → Value
set_index o k v = entry k v o

unfoldable pub as_str : Value → Option Text
as_str (string t) = some t
as_str _ = none

abbrev pub uplink_text : Text
uplink_text = codes "{\"id\":\"dev-1\",\"current\":7,\"fw\":\"1.2\"}"

abbrev pub message : UplinkMessage
message = record { id = codes "dev-1"; current = pos 7; fw = some (codes "1.2") }

abbrev pub register_text : Text
register_text = codes "{\"device_id\":\"dev-1\",\"owner_id\":\"ann\"}"

abbrev pub request : RegisterDeviceRequest
request = record { device_id = codes "dev-1"; owner_id = codes "ann"; subject_dn = none }

abbrev pub json : SerdeJson Value
json = record {
  null = null;
  string = string;
  number = number;
  object = object;
  set_index = set_index;
  get = get;
  as_str = as_str;
  to_string = λ v. [];
  value_from_str = λ t. invalid (codes "unexpected");
  uplink_from_str = λ t. if t ≟ uplink_text then value message else invalid (codes "unexpected");
  register_from_str =
      λ t. if t ≟ register_text then value request else invalid (codes "unexpected");
}

pub get_set : (v w : Value) (k : Text) → get (set_index v k w) k ≡ some w
unfolding get
get_set v w k = rw ≟_refl

pub get_absent : (k j : Text) (v : Value) → j ≢ k → get (object ((k, v) ∷ [])) j ≡ none
unfolding get object
get_absent k j v h = ground (arith, ≟_iff k j)

pub as_str-string : (t : Text) → as_str (string t) ≡ some t
unfolding as_str
as_str-string t = refl

abbrev pub laws : PayloadLaws json
laws = record { get_set = get_set; get_absent = get_absent; as_str-string = as_str-string }

unfoldable pub put_device : DeviceRecord → Exec (Registry Value) Value DeviceRecord
put_device r s = elim (find r.device_id s.devices) [
  | some d ↦ (err (device_already_exists r.device_id), s)
  | none ↦ (ok r, record s { devices = s.devices ++ r ∷ [] })
]

unfoldable pub change_status : Text → Text → Exec (Registry Value) Value DeviceRecord
change_status id status s = elim (find id s.devices) [
  | some d ↦
      (ok (record d { status = status }), record s { devices = set_status id status s.devices })
  | none ↦ (err (device_not_found id), s)
]

abbrev pub memory : DeviceStore Value (Registry Value)
memory = record {
  put_device = put_device;
  get_device = λ id s. (ok (find id s.devices), s);
  list_devices = λ s. (ok s.devices, s);
  put_uplink = λ u s. (ok tt, record s { uplinks = s.uplinks ++ u ∷ [] });
  get_uplinks = λ id n s. (ok (take n (filter (λ u. u.device_id ≟ id) s.uplinks)), s);
  set_device_status = change_status;
  latest_uplinks = λ s. (ok s.uplinks, s);
}

put_device-PutDevice :
    (r : DeviceRecord) (s : Registry Value) → PutDevice (λ t. t) s r (put_device r s)
unfolding put_device
put_device-PutDevice r s = elim (Option-cases (find r.device_id s.devices)) [
  | inl e ↦ rw (put_device, e) (stored _ e refl)
  | inr (d, e) ↦ rw (put_device, e) (duplicate _ d e refl)
]

change_status-SetStatus :
    (id status : Text) (s : Registry Value)
    → SetStatus (λ t. t) s id status (change_status id status s)
unfolding change_status
change_status-SetStatus id status s = elim (Option-cases (find id s.devices)) [
  | inl e ↦ rw (change_status, e) (missing _ e refl)
  | inr (d, e) ↦ rw (change_status, e) (updated _ d e refl)
]

pub memory-IsDeviceStore : IsDeviceStore memory (λ t. t)
memory-IsDeviceStore = record {
  put_device = put_device-PutDevice;
  get_device = λ id s. found s refl;
  put_uplink = λ u s. stored _ refl;
  set_device_status = change_status-SetStatus;
}

abbrev pub device : DeviceRecord
device = record {
  device_id = codes "dev-1";
  owner_id = codes "ann";
  subject_dn = none;
  status = active;
  created_at = codes "2026-01-01T00:00:00Z";
}

abbrev pub one_device : Registry Value
one_device = record { devices = device ∷ []; uplinks = [] }

abbrev pub no_devices : Registry Value
no_devices = record { devices = []; uplinks = [] }
