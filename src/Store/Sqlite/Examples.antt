-- ===== src/Store/Sqlite/Examples.antt =====
-- The SQLite backend over two test connections: one that executes the statements on a registry, and
-- one that answers the queries for lists.
use mathlib.Core.List.Perm
use super_victor.Prelude.{
  ℕ, ◌≡◌, refl, sym, ap, false, Option, none, some, List, [], ◌∷◌, ◌++◌, map, take, if◌then◌else◌,
  inl, inr, Bool-cases, arith,
}
use super_victor.Prelude.Text.{Text, codes, ◌≟◌}
use super_victor.Json.{value}
use super_victor.Store.Stored.{Tables, registry}
use super_victor.Models.{DeviceRecord, UplinkRecord}
use super_victor.Store.Plain.{plain_json, serialize, older, newer, fixed, newer-IsNewest}
use super_victor.Store.Contract.{
  Registry, find, set_status, uplinks_of, IsNewestFirst, Occurs, IsNewest, IsDeviceStore, IsReader,
}
use super_victor.Store.Contract
use super_victor.Store.Sql.{
  SqlValue, text, integer, SqlError, constraint_violation, other, Reply, done, failed, Row,
  Connection,
}
use super_victor.Store.Sql.Statements.{
  insert_device, select_device, select_devices, insert_uplink, update_status, select_latest,
  select_uplinks,
}
use super_victor.Store.Sqlite.{nullable, sqlite}
use super_victor.Store.Sqlite.Laws.{
  device_row, uplink_row, InsertDevice, InsertUplink, UpdateStatus, rows_of, Select, answered,
  SqlLaws, QueryLaws, AreDevices, AreUplinks, AreMaxima,
}
use super_victor.Store.Sqlite.Laws
use super_victor.Store.Sqlite.Writes.{sqlite-IsDeviceStore}
use super_victor.Store.Sqlite.Reads.{sqlite-IsReader}

text_inverse : (v t : Text) → serialize v ≡ value t → plain_json.value_from_str t ≡ value v
text_inverse v t e = sym e

abbrev busy : SqlError
busy = other (codes "database is locked")

abbrev optional : SqlValue → Option Text
optional (text t) = some t
optional v = none

abbrev add_device : DeviceRecord → Option DeviceRecord → Tables → Reply ℕ × Tables
add_device d none t = (done 1, record t { devices = t.devices ++ d ∷ [] })
add_device d (some old) t = (failed (constraint_violation (codes "UNIQUE")), t)

abbrev run_insert_device : List SqlValue → Tables → Reply ℕ × Tables
run_insert_device (text id ∷ text owner ∷ dn ∷ text status ∷ text created ∷ []) t =
    add_device
      (record {
        device_id = id;
        owner_id = owner;
        subject_dn = optional dn;
        status = status;
        created_at = created;
      })
      (find id t.devices) t
run_insert_device _ t = (failed busy, t)

abbrev run_insert_uplink : List SqlValue → Tables → Reply ℕ × Tables
run_insert_uplink (text id ∷ text at ∷ text payload ∷ []) t = (
  done 1,
  record t {
    uplinks = t.uplinks ++ record { device_id = id; received_at = at; payload = payload } ∷ [];
  },
)
run_insert_uplink _ t = (failed busy, t)

abbrev status_changed : Text → Text → Option DeviceRecord → Tables → Reply ℕ × Tables
status_changed id status none t = (done 0, t)
status_changed id status (some d) t =
    (done 1, record t { devices = set_status id status t.devices })

abbrev run_update : List SqlValue → Tables → Reply ℕ × Tables
run_update (text id ∷ text status ∷ []) t = status_changed id status (find id t.devices) t
run_update _ t = (failed busy, t)

abbrev run_on : Text → List SqlValue → Tables → Reply ℕ × Tables
run_on sql params t =
    if sql ≟ insert_device
    then run_insert_device params t
    else if sql ≟ insert_uplink
    then run_insert_uplink params t
    else if sql ≟ update_status
    then run_update params t
    else (failed busy, t)

abbrev pick : List SqlValue → Tables → Reply (List (Reply Row))
pick (text id ∷ []) t = done (map (λ r. done r) (rows_of (find id t.devices)))
pick _ t = failed busy

abbrev tables_connection : Connection Tables
tables_connection = record {
  poisoned = λ t. false;
  execute = run_on;
  execute_batch = λ sql t. (done tt, t);
  prepare = λ sql t. none;
  query = λ sql params t. if sql ≟ select_device then pick params t else failed busy;
  column_error = λ i row. busy;
}

optional-nullable : (o : Option Text) → optional (nullable o) ≡ o
optional-nullable none = refl
optional-nullable (some t) = refl

inserts :
    (d : DeviceRecord) (t : Tables) (o : Option DeviceRecord)
    → find d.device_id t.devices ≡ o
    → InsertDevice (λ x. x) t d (add_device d o t)
inserts d t none e = Laws.added 1 _ e refl
inserts d t (some old) e = Laws.taken _ t old e refl

updates :
    (id status : Text) (t : Tables) (o : Option DeviceRecord)
    → find id t.devices ≡ o
    → UpdateStatus (λ x. x) t id status (status_changed id status o t)
updates id status t none e = Laws.absent t e refl
updates id status t (some d) e = Laws.changed 0 _ d e refl

tables_laws : SqlLaws tables_connection (λ t. t)
tables_laws = record {
  insert_device =
      λ d t. rw (optional-nullable d.subject_dn) (inserts d t (find d.device_id t.devices) refl);
  insert_uplink = λ u t. Laws.added 1 _ refl;
  update_status = λ id status t. updates id status t (find id t.devices) refl;
  select_device = λ id t. answered (rows_of (find id t.devices)) refl;
}

sqlite-IsDeviceStore_example :
    IsDeviceStore (sqlite tables_connection plain_json serialize) (registry plain_json)
sqlite-IsDeviceStore_example =
    sqlite-IsDeviceStore tables_connection (λ t. t) tables_laws plain_json serialize text_inverse

abbrev sorted : Text → List (UplinkRecord Text)
sorted id = if codes "dev-1" ≟ id then newer ∷ older ∷ [] else []

abbrev rows_answer : List Row → Reply (List (Reply Row))
rows_answer rows = done (map (λ r. done r) rows)

abbrev ask_uplinks : List SqlValue → Reply (List (Reply Row))
ask_uplinks (text id ∷ integer limit ∷ []) = rows_answer (map uplink_row (take limit (sorted id)))
ask_uplinks _ = failed busy

abbrev ask : Text → List SqlValue → Reply (List (Reply Row))
ask sql params =
    if sql ≟ select_devices
    then rows_answer (map device_row fixed.devices)
    else if sql ≟ select_latest
    then rows_answer (map uplink_row (newer ∷ []))
    else if sql ≟ select_uplinks
    then ask_uplinks params
    else failed busy

-- A database that nothing changes.
abbrev fixed_connection : Connection (Unit {0})
fixed_connection = record {
  poisoned = λ t. false;
  execute = λ sql params t. (failed busy, t);
  execute_batch = λ sql t. (done tt, t);
  prepare = λ sql t. none;
  query = λ sql params t. ask sql params;
  column_error = λ i row. busy;
}

sorted-AreUplinks :
    (id : Text) (limit : ℕ) → AreUplinks fixed id limit (map uplink_row (take limit (sorted id)))
sorted-AreUplinks id limit = elim (Bool-cases (codes "dev-1" ≟ id)) [
  | inl e ↦ rw e (newer ∷ older ∷ [], Perm.swap older newer [], ((refl, tt), (tt, tt)), refl)
  | inr e ↦ rw e ([], Perm.nil, tt, refl)
]

newer_covers :
    (v : UplinkRecord Text)
    → Occurs v fixed.uplinks
    → (u : UplinkRecord Text) × Occurs u (newer ∷ []) × (u.device_id ≡ v.device_id)
newer_covers v (Contract.here _ _ e) =
    (newer, Contract.here _ _ refl, sym (ap (λ x. x.device_id) e))
newer_covers v (Contract.there _ _ (Contract.here _ _ e)) =
    (newer, Contract.here _ _ refl, sym (ap (λ x. x.device_id) e))
newer_covers v (Contract.there _ _ (Contract.there _ _ p)) = elim p [ ]

fixed_laws : QueryLaws fixed_connection (λ t. fixed)
fixed_laws = record {
  select_devices = λ t. answered (map device_row fixed.devices) (fixed.devices, Perm.rfl, refl);
  select_latest = λ t.
      answered (map uplink_row (newer ∷ [])) (newer ∷ [], (newer-IsNewest, tt), newer_covers, refl);
  select_uplinks =
      λ id limit t. answered (map uplink_row (take limit (sorted id))) (sorted-AreUplinks id limit);
  rows_bound = λ t. omega arith;
}

sqlite-IsReader_example :
    IsReader (sqlite fixed_connection plain_json serialize) (λ t. registry plain_json fixed)
sqlite-IsReader_example =
    sqlite-IsReader fixed_connection (λ t. fixed) fixed_laws plain_json serialize
