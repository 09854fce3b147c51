-- ===== src/Store/Sqlite/Writes.antt =====
-- The SQLite backend keeps the contract of the trait.
use mathlib.Core.List.{map-append}
use super_victor.Prelude.{
  some_same, ℕ, ◌≡◌, refl, ◌∙◌, ap, sym, Option, none, some, List, [], ◌∷◌, ◌++◌, map, inl, inr,
  Bool-cases,
}
use super_victor.Prelude.Text.{Text, codes, ◌≟◌}
use super_victor.Exec.{Result, ok}
use super_victor.Json.{Parsed, value, invalid, SerdeJson}
use super_victor.Store.Stored.{Tables, payload_of_text, decode, decode-payload, registry}
use super_victor.Models.{DeviceRecord, UplinkRecord, poisoned}
use super_victor.Store.Contract.{
  Registry, find, set_status, PutDevice, GetDevice, PutUplink, SetStatus, IsDeviceStore,
}
use super_victor.Store.Contract
use super_victor.Store.Sql.{text, Reply, done, failed, Row, Connection}
use super_victor.Store.Sql.Statements.{select_device}
use super_victor.Store.Sqlite.{
  insert_locked, get_locked, update_locked, first_device, inserted, put_device, get_device,
  found_or_missing, read_back, set_device_status, put_reply, put_serialized, put_uplink, sqlite,
}
use super_victor.Store.Sqlite.Laws.{
  device_row, InsertDevice, InsertUplink, UpdateStatus, Select, answered, stopped, IsRowOf, rows_of,
  SqlLaws,
}
use super_victor.Store.Sqlite.Laws
use super_victor.Store.Sqlite.Rows.{device_of_row-device_row}
use super_victor.Store.Sqlite.Replies.{locked_lem, queried_lem}

abbrev with_status : Text → DeviceRecord → DeviceRecord
with_status status d = record d { status = status }

-- Reading a device behind a change of its status.
pub find-set_status :
    (id status : Text) (ds : List DeviceRecord) (d : DeviceRecord)
    → find id ds ≡ some d
    → find id (set_status id status ds) ≡ some (record d { status = status })
unfolding find set_status
find-set_status id status [] d e = cc
find-set_status id status (x ∷ ds) d e = elim (Bool-cases (x.device_id ≟ id)) [
  | inl same ↦ rw (same, same) (ap some (ap (with_status status) (some_same (rw same at e))))
  | inr other ↦ rw (other, other) (find-set_status id status ds d (rw other at e))
]

row_same :
    (r : Row) (rows : List Row) (d : DeviceRecord) → r ∷ rows ≡ device_row d ∷ [] → r ≡ device_row d
row_same r rows d e = cc

module _ {V S : Type 0} (conn : Connection S) (tables : S → Tables) (laws : SqlLaws conn tables)
    (json : SerdeJson V) where
  abbrev pub view : S → Registry V
  view s = registry json (tables s)

  put_lem :
      (s : S) (d : DeviceRecord) {out : Reply ℕ × S}
      → InsertDevice tables s d out
      → PutDevice view s d (inserted conn d out.0, out.1)
  unfolding inserted registry
  put_lem s d (Laws.added n s' fresh e) = Contract.stored s' fresh (ap (registry json) e)
  put_lem s d (Laws.taken t s' old there e) = Contract.duplicate s' old there (ap (registry json) e)
  put_lem s d (Laws.broken t s' e) = Contract.failed s' _ (ap (registry json) e)

  put_device_lem : (d : DeviceRecord) (s : S) → PutDevice view s d (put_device conn d s)
  unfolding put_device insert_locked
  put_device_lem d s =
      locked_lem conn (PutDevice view s d) (insert_locked conn d) s
        (Contract.failed s poisoned refl) (put_lem s d (laws.insert_device d s))

  -- The first row of a device's primary key.
  first_row :
      (d : DeviceRecord) (rest : List (Reply Row))
      → first_device conn {V = V} (done (device_row d) ∷ rest) ≡ ok (some d)
  unfolding first_device
  first_row d rest = rw (device_of_row-device_row conn d) refl

  first_rows :
      (id : Text) (s : S) (o : Option DeviceRecord)
      → find id (tables s).devices ≡ o
      → (rows : List (Reply Row)) → Select (λ rs. rs ≡ rows_of o) (done rows)
      → GetDevice view s id (first_device conn rows, s)
  unfolding first_device registry
  first_rows id s none there _ (answered rows e) = rw (e, sym there) (Contract.found s refl)
  first_rows id s (some d) there _ (answered rows e) =
      rw (e, first_row d [], sym there) (Contract.found s refl)
  first_rows id s o there _ (stopped [] missing e rest p) = Contract.failed s _ refl
  first_rows id s none there _ (stopped (r ∷ rows) missing e rest p) = cc
  first_rows id s (some d) there _ (stopped (r ∷ rows) missing e rest p) =
      rw
        (
          row_same r (rows ++ missing) d p,
          first_row d (map (λ r. done r) rows ++ failed e ∷ rest),
          sym there,
        )
        (Contract.found s refl)

  get_device_lem : (id : Text) (s : S) → GetDevice view s id (get_device conn id s)
  unfolding get_device get_locked
  get_device_lem id s =
      locked_lem conn (GetDevice view s id) (get_locked conn id) s (Contract.failed s poisoned refl)
        (queried_lem conn (GetDevice view s id) (Select (IsRowOf (tables s) id))
          (codes "get_device prepare") (codes "get_device query") select_device (text id ∷ [])
          (first_device conn) s (λ e. Contract.failed s e refl) (laws.select_device id s)
          (first_rows id s (find id (tables s).devices) refl))

  -- Reading back behind the update.
  read_back_changed :
      (id status : Text) (s s' : S) (d : DeviceRecord)
      → find id (tables s).devices ≡ some d
      → tables s' ≡ record (tables s) { devices = set_status id status (tables s).devices }
      → {out : Result V (Option DeviceRecord) × S} → GetDevice view s' id out
      → SetStatus view s id status (found_or_missing conn id out.0, out.1)
  unfolding found_or_missing registry
  read_back_changed id status s s' d there e (Contract.found s2 same) =
      rw (ap (λ t. t.devices) e, find-set_status id status (tables s).devices d there)
        (Contract.updated s2 d there (same ∙ ap (registry json) e))
  read_back_changed id status s s' d there e (Contract.failed s2 x same) =
      Contract.unread s2 d x there (same ∙ ap (registry json) e)

  set_lem :
      (id status : Text) (s : S) {out : Reply ℕ × S}
      → UpdateStatus tables s id status out
      → SetStatus view s id status (read_back conn id out.0 out.1)
  unfolding read_back registry
  set_lem id status s (Laws.changed n s' d there e) =
      read_back_changed id status s s' d there e (get_device_lem id s')
  set_lem id status s (Laws.absent s' gone e) = Contract.missing s' gone (ap (registry json) e)
  set_lem id status s (Laws.broken x s' e) = Contract.failed s' _ (ap (registry json) e)

  set_device_status_lem :
      (id status : Text) (s : S) → SetStatus view s id status (set_device_status conn id status s)
  unfolding set_device_status update_locked
  set_device_status_lem id status s =
      locked_lem conn (SetStatus view s id status) (update_locked conn id status) s
        (Contract.failed s poisoned refl) (set_lem id status s (laws.update_status id status s))

  module _ (serialize : V → Parsed Text)
      (inverse : (v : V) (t : Text) → serialize v ≡ value t → json.value_from_str t ≡ value v) where
    appended :
        (t : Tables) (u : UplinkRecord V) (p : Text)
        → json.value_from_str p ≡ value u.payload
        → registry json (record t {
          uplinks =
              t.uplinks
              ++ record { device_id = u.device_id; received_at = u.received_at; payload = p } ∷ [];
        })
          ≡ record (registry json t) { uplinks = map (decode json) t.uplinks ++ u ∷ [] }
    unfolding registry
    appended t u p e =
        ap (λ us. record { devices = t.devices; uplinks = us })
          (map-append (decode json) t.uplinks
              (record { device_id = u.device_id; received_at = u.received_at; payload = p } ∷ [])
            ∙ ap (λ v. map (decode json) t.uplinks ++ v ∷ []) (decode-payload json u p e))

    put_row :
        (u : UplinkRecord V) (t : Text) (s : S) {out : Reply ℕ × S}
        → serialize u.payload ≡ value t
        → InsertUplink tables s
            (record { device_id = u.device_id; received_at = u.received_at; payload = t })
            out
        → PutUplink view s u (put_reply conn out.0, out.1)
    unfolding put_reply registry decode payload_of_text
    put_row u t s e (Laws.added n s' same) =
        Contract.stored s'
          (ap (registry json) same ∙ appended (tables s) u t (inverse u.payload t e))
    put_row u t s e (Laws.broken x s' same) = Contract.failed s' _ (ap (registry json) same)

    put_parsed :
        (u : UplinkRecord V) (s : S) (o : Parsed Text)
        → serialize u.payload ≡ o
        → PutUplink view s u (put_serialized conn u o s)
    unfolding put_serialized
    put_parsed u s (invalid x) e = Contract.failed s _ refl
    put_parsed u s (value t) e = put_row u t s e (
        laws.insert_uplink
          (record { device_id = u.device_id; received_at = u.received_at; payload = t }) s)

    put_uplink_lem :
        (u : UplinkRecord V) (s : S) → PutUplink view s u (put_uplink conn serialize u s)
    unfolding put_uplink
    put_uplink_lem u s =
        locked_lem conn (PutUplink view s u) (put_serialized conn u (serialize u.payload)) s
          (Contract.failed s poisoned refl) (put_parsed u s (serialize u.payload) refl)

    -- Over a connection whose statements do what SQLite documents, and payloads that serialise to text
    -- which parses as the payload, each method of the SQLite backend on single devices and on new
    -- uplinks does what the trait promises, or reports a failure, also from a poisoned lock: the
    -- registry is then as it was, but for a status whose device could not be read back.
    pub sqlite-IsDeviceStore : IsDeviceStore (sqlite conn json serialize) view
    sqlite-IsDeviceStore = record {
      put_device = put_device_lem;
      get_device = get_device_lem;
      put_uplink = put_uplink_lem;
      set_device_status = set_device_status_lem;
    }
