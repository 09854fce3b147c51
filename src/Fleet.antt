-- ===== src/Fleet.antt =====
-- supervictor/endpoint/src/fleet.rs: staleness, snapshots and the summary of the fleet.
pub mod Staleness
pub mod Summary
pub mod Firmware
pub mod Newest
mod Examples
use super_victor.Prelude.{
  ℕ, ◌+◌, ◌-◌, Bool, Option, none, some, List, [], ◌∷◌, map, ltb, if◌then◌else◌, length, ◌>>=◌,
}
use super_victor.Prelude.Text.{Text, codes, ◌≟◌}
use super_victor.Exec.{Exec, pure}
use super_victor.Exec
use super_victor.Json.{SerdeJson}
use super_victor.Models.{DeviceRecord, UplinkRecord, active}
use super_victor.Store.{DeviceStore}
use super_victor.Time.{parse_rfc3339_unix, now_rfc3339}

abbrev pub fresh_secs : ℕ
fresh_secs = 900

abbrev pub dark_secs : ℕ
dark_secs = 7200

-- The enum `Staleness`.
pub data Freshness : Type 0 where
  fresh stale dark unknown : Freshness

unfoldable pub label : Freshness → Text
label fresh = codes "fresh"
label stale = codes "stale"
label dark = codes "dark"
label unknown = codes "unknown"

-- The branch on the age of the last uplink.
unfoldable pub of_age : ℕ → Freshness
of_age age = if ltb age fresh_secs then fresh else if ltb age dark_secs then stale else dark

-- `saturating_sub` is `-` on ℕ.
unfoldable pub staleness_of : Option Text → ℕ → Freshness
staleness_of last_uplink now_unix = elim (last_uplink >>= parse_rfc3339_unix) [
  | some at ↦ of_age (now_unix - at)
  | none ↦ unknown
]

pub record FleetDevice : Type 0 where
  pub device_id : Text
  pub owner_id : Text
  pub status : Text
  pub last_uplink : Option Text
  pub staleness : Freshness
  pub fw : Option Text

pub record FleetSummary : Type 0 where
  pub total : ℕ
  pub active_count : ℕ
  pub inactive_count : ℕ
  pub fresh_count : ℕ
  pub stale_count : ℕ
  pub dark_count : ℕ
  pub never_count : ℕ

abbrev pub later : {A : Type 0} → Option A → Option A → Option A
later (some v) o = some v
later none o = o

-- The value of the map `latest`: a later record replaces an earlier one of the same device.
unfoldable pub latest_of : {V : Type 0} → Text → List (UplinkRecord V) → Option (UplinkRecord V)
latest_of id [] = none
latest_of id (u ∷ us) = later (latest_of id us) (if u.device_id ≟ id then some u else none)

module _ {V : Type 0} (json : SerdeJson V) where
  -- `payload.get("fw").and_then(|v| v.as_str())`
  unfoldable pub fw_of : UplinkRecord V → Option Text
  fw_of u = json.get u.payload (codes "fw") >>= json.as_str

  unfoldable pub health_of : ℕ → List (UplinkRecord V) → DeviceRecord → FleetDevice
  unfolding latest_of staleness_of
  health_of now_unix uplinks device =
      let latest = latest_of device.device_id uplinks in
      let last_uplink : Option Text = elim latest [ some u ↦ some u.received_at | none ↦ none ] in
      record {
        device_id = device.device_id;
        owner_id = device.owner_id;
        status = device.status;
        last_uplink = last_uplink;
        staleness = staleness_of last_uplink now_unix;
        fw = latest >>= fw_of;
      }

  unfoldable pub snapshot : {S : Type 0} → DeviceStore V S → ℕ → Exec S V (List FleetDevice)
  snapshot st now_unix = Exec.◌>>=◌ st.list_devices λ devices.
      Exec.◌>>=◌ st.latest_uplinks λ uplinks. pure (map (health_of now_unix uplinks) devices)

  -- The clock is read through its own print.
  unfoldable pub snapshot_now :
      {S : Type 0} → DeviceStore V S → Option (ℕ × ℕ) → Exec S V (List FleetDevice)
  snapshot_now st now =
      let read : ℕ = elim (parse_rfc3339_unix (now_rfc3339 now)) [ some t ↦ t | none ↦ 0 ] in
      snapshot st read

-- One round of the loop of `summarize`.
unfoldable pub tally : FleetSummary → FleetDevice → FleetSummary
tally s device =
    if device.status ≟ active
    then (let s' = record s { active_count = s.active_count + 1 } in
        elim device.staleness [
          | fresh ↦ record s' { fresh_count = s'.fresh_count + 1 }
          | stale ↦ record s' { stale_count = s'.stale_count + 1 }
          | dark ↦ record s' { dark_count = s'.dark_count + 1 }
          | unknown ↦ record s' { never_count = s'.never_count + 1 }
        ])
    else record s { inactive_count = s.inactive_count + 1 }

unfoldable pub tally_all : FleetSummary → List FleetDevice → FleetSummary
unfolding tally
tally_all s [] = s
tally_all s (d ∷ ds) = tally_all (tally s d) ds

unfoldable pub summarize : List FleetDevice → FleetSummary
unfolding tally_all
summarize devices =
    tally_all
      (record {
        total = length devices;
        active_count = 0;
        inactive_count = 0;
        fresh_count = 0;
        stale_count = 0;
        dark_count = 0;
        never_count = 0;
      })
      devices
