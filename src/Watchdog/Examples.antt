-- ===== src/Watchdog/Examples.antt =====
-- The watchdog on two snapshots.
use super_victor.Prelude.{ℕ, ◌+◌, ◌≡◌, refl, ◌&&◌, not, none, List, [], ◌∷◌}
use super_victor.Prelude.Text.{codes}
use super_victor.Exec.{Result, ok, err}
use super_victor.Models.{active, missing_body}
use super_victor.Fleet.{Freshness, fresh, dark, FleetDevice}
use super_victor.Watchdog.{contains, boot, tick, run}
use super_victor.Watchdog.Alerts.{bit, alerts, recoveries, dark_in, tick-alerts, run_balance}

abbrev device : Freshness → FleetDevice
device staleness = record {
  device_id = codes "dev-1";
  owner_id = codes "ann";
  status = active;
  last_uplink = none;
  staleness = staleness;
  fw = none;
}

tick-alerts_example :
    (alerts (codes "dev-1") (tick {V = ℕ} [] (ok (device dark ∷ []))).1
      ≡ bit (dark_in (codes "dev-1") (device dark ∷ []) && not (contains (codes "dev-1") [])))
    × (recoveries (codes "dev-1") (tick {V = ℕ} [] (ok (device dark ∷ []))).1
        ≡ bit (contains (codes "dev-1") [] && not (dark_in (codes "dev-1") (device dark ∷ []))))
unfolding contains
tick-alerts_example = tick-alerts (codes "dev-1") ℕ [] (device dark ∷ []) refl

abbrev snapshots : List (Result ℕ (List FleetDevice))
snapshots = ok (device dark ∷ []) ∷ err missing_body ∷ ok (device fresh ∷ []) ∷ []

run_balance_example :
    bit (contains (codes "dev-1") (boot {V = ℕ} (ok (device fresh ∷ []))))
      + alerts (codes "dev-1") (run (ok (device fresh ∷ [])) snapshots).1
    ≡ recoveries (codes "dev-1") (run (ok (device fresh ∷ [])) snapshots).1
      + bit (contains (codes "dev-1") (run (ok (device fresh ∷ [])) snapshots).0)
run_balance_example = run_balance (codes "dev-1") (ok (device fresh ∷ [])) snapshots
