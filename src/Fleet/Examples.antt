-- ===== src/Fleet/Examples.antt =====
-- The fleet on test data.
use super_victor.Prelude.{◌-◌, ◌≤◌, ◌<◌, ◌≡◌, ◌≢◌, ◌↔◌, none, some, List, [], ◌∷◌, arith}
use super_victor.Prelude.Text.{codes}
use super_victor.Models.{active, inactive}
use super_victor.Store.Plain.{plain_json, fixed, fixed_store, fixed-IsReader}
use super_victor.Fleet.Newest.{Snapshot, snapshot-Snapshot}
use super_victor.Time.{format_rfc3339}
use super_victor.Fleet.{
  snapshot, fresh, dark, unknown, fresh_secs, dark_secs, FleetDevice, staleness_of, summarize,
}
use super_victor.Fleet.Staleness.{staleness_of-format}
use super_victor.Fleet.Summary.{IsSummary, summarize-IsSummary}

snapshot-Snapshot_example :
    Snapshot plain_json 1782870000 (λ s. fixed) tt (snapshot plain_json fixed_store 1782870000 tt)
snapshot-Snapshot_example =
    snapshot-Snapshot fixed_store (λ s. fixed) fixed-IsReader plain_json 1782870000 tt

staleness_of-format_example :
    let c = staleness_of (some (format_rfc3339 1782867600 5)) 1782868600 in
    ((c ≡ fresh) ↔ (1782868600 - 1782867600 < fresh_secs))
    × ((c ≡ dark) ↔ (dark_secs ≤ 1782868600 - 1782867600))
    × (c ≢ unknown)
staleness_of-format_example =
    staleness_of-format 1782867600 5 1782868600 (omega arith) (omega arith)

abbrev devices : List FleetDevice
devices =
    record {
      device_id = codes "dev-1";
      owner_id = codes "ann";
      status = active;
      last_uplink = none;
      staleness = unknown;
      fw = none;
    }
    ∷ record {
      device_id = codes "dev-2";
      owner_id = codes "ann";
      status = inactive;
      last_uplink = some (codes "2026-07-10T18:22:03Z");
      staleness = dark;
      fw = none;
    }
    ∷ []

summarize-IsSummary_example : IsSummary devices (summarize devices)
summarize-IsSummary_example = summarize-IsSummary devices
