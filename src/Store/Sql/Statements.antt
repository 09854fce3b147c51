-- ===== src/Store/Sql/Statements.antt =====
-- The texts of the statements of supervictor/endpoint/src/store/sqlite.rs.
use super_victor.Prelude.Text.{Text, codes}

abbrev pub insert_device : Text
insert_device =
    codes
      "INSERT INTO devices (device_id, owner_id, subject_dn, status, created_at) VALUES (?1, ?2, ?3, ?4, ?5)"

abbrev pub select_device : Text
select_device =
    codes
      "SELECT device_id, owner_id, subject_dn, status, created_at FROM devices WHERE device_id = ?1"

abbrev pub select_devices : Text
select_devices = codes "SELECT device_id, owner_id, subject_dn, status, created_at FROM devices"

abbrev pub insert_uplink : Text
insert_uplink = codes "INSERT INTO uplinks (device_id, received_at, payload) VALUES (?1, ?2, ?3)"

abbrev pub update_status : Text
update_status = codes "UPDATE devices SET status = ?2 WHERE device_id = ?1"

abbrev pub select_latest : Text
select_latest = codes "SELECT device_id, MAX(received_at), payload FROM uplinks GROUP BY device_id"

abbrev pub select_uplinks : Text
select_uplinks =
    codes
      "SELECT device_id, received_at, payload FROM uplinks WHERE device_id = ?1 ORDER BY received_at DESC LIMIT ?2"

abbrev pub create_tables : Text
create_tables =
    codes
      "CREATE TABLE IF NOT EXISTS devices (\n                device_id   TEXT PRIMARY KEY,\n                owner_id    TEXT NOT NULL,\n                subject_dn  TEXT,\n                status      TEXT NOT NULL DEFAULT 'active',\n                created_at  TEXT NOT NULL\n            );\n            CREATE TABLE IF NOT EXISTS uplinks (\n                id          INTEGER PRIMARY KEY AUTOINCREMENT,\n                device_id   TEXT NOT NULL,\n                received_at TEXT NOT NULL,\n                payload     TEXT NOT NULL\n            );\n            CREATE INDEX IF NOT EXISTS idx_uplinks_device_received\n                ON uplinks(device_id, received_at DESC);"
