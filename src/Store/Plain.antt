-- ===== src/Store/Plain.antt =====
-- Test data: tables with a device and two of its uplinks, and payloads that are their own text.
use mathlib.Core.List.Perm
use super_victor.Prelude.{refl, sym, ap, ◌≡◌, none, some, [], ◌∷◌}
use super_victor.Prelude.Text.{Text, codes}
use super_victor.Json.{Parsed, value, SerdeJson}
use super_victor.Json
use super_victor.Exec.{ok, err}
use super_victor.Models.{DeviceRecord, UplinkRecord, poisoned, store}
use super_victor.Store.{DeviceStore}
use super_victor.Store.Contract.{find, Occurs, IsNewest, AreLatest, IsReader, IsDeviceStore}
use super_victor.Store.Contract
use super_victor.Store.Stored.{Tables}

-- Values that are their own text.
abbrev pub plain_json : SerdeJson Text
plain_json = record {
  null = codes "null";
  string = λ t. t;
  number = λ n. [];
  object = λ fields. [];
  set_index = λ v k w. w;
  get = λ v k. none;
  as_str = λ v. some v;
  to_string = λ v. v;
  value_from_str = λ t. value t;
  uplink_from_str = λ t. Json.invalid t;
  register_from_str = λ t. Json.invalid t;
}

abbrev pub serialize : Text → Parsed Text
serialize t = value t

abbrev pub device : DeviceRecord
device = record {
  device_id = codes "dev-1";
  owner_id = codes "ann";
  subject_dn = none;
  status = codes "active";
  created_at = codes "2026-07-01T01:00:00+00:00";
}

abbrev pub older : UplinkRecord Text
older = record {
  device_id = codes "dev-1";
  received_at = codes "2026-07-01T01:00:00+00:00";
  payload = codes "1";
}

abbrev pub newer : UplinkRecord Text
newer = record {
  device_id = codes "dev-1";
  received_at = codes "2026-07-01T02:00:00+00:00";
  payload = codes "2";
}

abbrev pub fixed : Tables
fixed = record { devices = device ∷ []; uplinks = older ∷ newer ∷ [] }

pub newer-IsNewest : IsNewest newer fixed.uplinks
newer-IsNewest = record {
  occurs = Contract.there _ _ (Contract.here _ _ refl);
  newest = ((λ e. refl), ((λ e. refl), tt));
}

-- A store with one device and two of its uplinks.
abbrev pub fixed_store : DeviceStore Text (Unit {0})
fixed_store = record {
  put_device = λ d s. (err (store poisoned), s);
  get_device = λ id s. (ok (find id fixed.devices), s);
  list_devices = λ s. (ok fixed.devices, s);
  put_uplink = λ u s. (err (store poisoned), s);
  get_uplinks = λ id limit s. (err (store poisoned), s);
  set_device_status = λ id status s. (err (store poisoned), s);
  latest_uplinks = λ s. (ok (newer ∷ []), s);
}

newer-AreLatest : AreLatest fixed.devices (newer ∷ []) fixed.uplinks
newer-AreLatest = record { each_newest = (newer-IsNewest, tt); covers = covers }
  where
    covers :
        (d : DeviceRecord) (v : UplinkRecord Text)
        → Occurs d fixed.devices
        → Occurs v fixed.uplinks
        → v.device_id ≡ d.device_id
        → (u : UplinkRecord Text) × Occurs u (newer ∷ []) × (u.device_id ≡ d.device_id)
    covers d v (Contract.here _ _ e) q same =
        (newer, Contract.here _ _ refl, sym (ap (λ y. y.device_id) e))
    covers d v (Contract.there _ _ p) q same = elim p [ ]

pub fixed-IsReader : IsReader fixed_store (λ s. fixed)
fixed-IsReader = record {
  list_devices = λ s. Contract.listed fixed.devices s Perm.rfl refl;
  get_uplinks = λ id limit s. Contract.failed poisoned s refl;
  latest_uplinks = λ s. Contract.latest (newer ∷ []) s newer-AreLatest refl;
}

pub fixed-IsDeviceStore : IsDeviceStore fixed_store (λ s. fixed)
fixed-IsDeviceStore = record {
  put_device = λ d s. Contract.failed s poisoned refl;
  get_device = λ id s. Contract.found s refl;
  put_uplink = λ u s. Contract.failed s poisoned refl;
  set_device_status = λ id status s. Contract.failed s poisoned refl;
}
