-- ===== src/Store.antt =====
-- The trait `DeviceStore` of supervictor/endpoint/src/store/mod.rs, as a record of methods over the
-- state `S` of a backend.
pub mod Contract
pub mod Samples
pub mod Occurs
pub mod Stored
pub mod Plain
pub mod Sql
pub mod Sqlite
pub mod Aws
pub mod Dynamo
pub mod Factory
use super_victor.Prelude.{ℕ, Option, List}
use super_victor.Prelude.Text.{Text}
use super_victor.Exec.{Exec}
use super_victor.Models.{DeviceRecord, UplinkRecord}

pub record DeviceStore (V S : Type 0) : Type 0 where
  pub put_device : DeviceRecord → Exec S V DeviceRecord
  pub get_device : Text → Exec S V (Option DeviceRecord)
  pub list_devices : Exec S V (List DeviceRecord)
  pub put_uplink : UplinkRecord V → Exec S V (Unit {0})
  pub get_uplinks : Text → ℕ → Exec S V (List (UplinkRecord V))
  pub set_device_status : Text → Text → Exec S V DeviceRecord
  pub latest_uplinks : Exec S V (List (UplinkRecord V))
