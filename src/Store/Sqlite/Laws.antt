-- ===== src/Store/Sqlite/Laws.antt =====
-- What SQLite documents of the statements of the backend, on the tables `devices` and `uplinks` of the
-- migration: `tables` is their content, in the order of their rows. Any statement may fail, and then
-- changes nothing.
use mathlib.Core.List.{Perm}
use super_victor.Prelude.{
  ℕ, zero, suc, ◌≤◌, ◌≡◌, Option, none, some, List, [], ◌∷◌, ◌++◌, map, take, length, All,
}
use super_victor.Prelude.Text.{Text}
use super_victor.Store.Stored.{Tables}
use super_victor.Models.{DeviceRecord, UplinkRecord}
use super_victor.Store.Contract.{find, set_status, uplinks_of, IsNewestFirst, Occurs, IsNewest}
use super_victor.Store.Sql.{
  text, integer, SqlError, constraint_violation, other, Reply, done, failed, Row, Connection,
}
use super_victor.Store.Sql.Statements.{
  insert_device, select_device, select_devices, insert_uplink, update_status, select_latest,
  select_uplinks,
}
use super_victor.Store.Sqlite.{nullable, i64_top}

-- The parameters of the insertion, and the columns of a row.
abbrev pub device_row : DeviceRecord → Row
device_row d =
    text d.device_id
    ∷ text d.owner_id
    ∷ nullable d.subject_dn
    ∷ text d.status
    ∷ text d.created_at
    ∷ []

abbrev pub uplink_row : UplinkRecord Text → Row
uplink_row u = text u.device_id ∷ text u.received_at ∷ text u.payload ∷ []

module _ {S : Type 0} (tables : S → Tables) (s : S) where
  -- `device_id` is the primary key.
  pub data InsertDevice (d : DeviceRecord) : Reply ℕ × S → Type 0 where
    added :
        (n : ℕ) (s' : S)
        → find d.device_id (tables s).devices ≡ none
        → tables s' ≡ record (tables s) { devices = (tables s).devices ++ d ∷ [] }
        → InsertDevice d (done n, s')
    taken :
        (t : Text) (s' : S) (old : DeviceRecord)
        → find d.device_id (tables s).devices ≡ some old
        → tables s' ≡ tables s
        → InsertDevice d (failed (constraint_violation t), s')
    broken : (t : Text) (s' : S) → tables s' ≡ tables s → InsertDevice d (failed (other t), s')

  pub data InsertUplink (u : UplinkRecord Text) : Reply ℕ × S → Type 0 where
    added :
        (n : ℕ) (s' : S)
        → tables s' ≡ record (tables s) { uplinks = (tables s).uplinks ++ u ∷ [] }
        → InsertUplink u (done n, s')
    broken : (e : SqlError) (s' : S) → tables s' ≡ tables s → InsertUplink u (failed e, s')

  -- The number of the rows that are changed.
  pub data UpdateStatus (id status : Text) : Reply ℕ × S → Type 0 where
    changed :
        (n : ℕ) (s' : S) (d : DeviceRecord)
        → find id (tables s).devices ≡ some d
        → tables s' ≡ record (tables s) { devices = set_status id status (tables s).devices }
        → UpdateStatus id status (done (suc n), s')
    absent :
        (s' : S)
        → find id (tables s).devices ≡ none
        → tables s' ≡ tables s
        → UpdateStatus id status (done zero, s')
    broken : (e : SqlError) (s' : S) → tables s' ≡ tables s → UpdateStatus id status (failed e, s')

-- The rows of a query, of which `P` tells which they are; or a failure at the start, or on the way
-- behind some of them.
pub data Select (P : List Row → Type 0) : Reply (List (Reply Row)) → Type 0 where
  answered : (rows : List Row) → P rows → Select P (done (map (λ row. done row) rows))
  stopped :
      (rows missing : List Row) (e : SqlError) (rest : List (Reply Row))
      → P (rows ++ missing)
      → Select P (done (map (λ row. done row) rows ++ failed e ∷ rest))
  refused : (e : SqlError) → Select P (failed e)

-- The row of the primary key.
abbrev pub rows_of : Option DeviceRecord → List Row
rows_of none = []
rows_of (some d) = device_row d ∷ []

abbrev pub IsRowOf : Tables → Text → List Row → Type 0
IsRowOf t id rows = rows ≡ rows_of (find id t.devices)

-- The rows of all devices, in any order.
abbrev pub AreDevices : Tables → List Row → Type 0
AreDevices t rows = (ds : List DeviceRecord) × Perm ds t.devices × (rows ≡ map device_row ds)

-- `WHERE`, `ORDER BY … DESC` and `LIMIT`.
abbrev pub AreUplinks : Tables → Text → ℕ → List Row → Type 0
AreUplinks t id limit rows =
    (all : List (UplinkRecord Text)) × Perm all (uplinks_of id t.uplinks)
    × IsNewestFirst all
    × (rows ≡ map uplink_row (take limit all))

-- `MAX` and `GROUP BY`, with the other columns of the row of the maximum.
abbrev pub AreMaxima : Tables → List Row → Type 0
AreMaxima t rows =
    (us : List (UplinkRecord Text)) × All (λ u. IsNewest u t.uplinks) us
    × ((v : UplinkRecord Text)
        → Occurs v t.uplinks
        → (u : UplinkRecord Text) × Occurs u us × (u.device_id ≡ v.device_id))
    × (rows ≡ map uplink_row us)

-- The statements that the methods on single devices and the new uplinks use.
pub record SqlLaws {S : Type 0} (conn : Connection S) (tables : S → Tables) : Type 0 where
  pub insert_device :
      (d : DeviceRecord) (s : S)
      → InsertDevice tables s d (conn.execute insert_device (device_row d) s)
  pub insert_uplink :
      (u : UplinkRecord Text) (s : S)
      → InsertUplink tables s u (conn.execute insert_uplink (uplink_row u) s)
  pub update_status :
      (id status : Text) (s : S)
      → UpdateStatus tables s id status (conn.execute update_status (text id ∷ text status ∷ []) s)
  pub select_device :
      (id : Text) (s : S)
      → Select (IsRowOf (tables s) id) (conn.query select_device (text id ∷ []) s)

-- The queries for lists.
pub record QueryLaws {S : Type 0} (conn : Connection S) (tables : S → Tables) : Type 0 where
  pub select_devices : (s : S) → Select (AreDevices (tables s)) (conn.query select_devices [] s)
  pub select_latest : (s : S) → Select (AreMaxima (tables s)) (conn.query select_latest [] s)
  pub select_uplinks :
      (id : Text) (limit : ℕ) (s : S)
      → Select
          (AreUplinks (tables s) id limit)
          (conn.query select_uplinks (text id ∷ integer limit ∷ []) s)
  -- a table has at most as many rows as there are values of its key
  pub rows_bound : (s : S) → length (tables s).uplinks ≤ i64_top
