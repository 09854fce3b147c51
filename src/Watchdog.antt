-- ===== src/Watchdog.antt =====
-- supervictor/endpoint/src/watchdog.rs: the loop of `run`, one tick at a time. A tick is given what
-- `fleet::snapshot_now` returned; a `HashSet` of identifiers is a list without repetition, whose order
-- is not observed. The lines of the log that name a device are the events.
pub mod Alerts
mod Examples
use super_victor.Prelude.{
  ℕ, Bool, true, false, not, Option, none, some, List, [], ◌∷◌, ◌++◌, map, if◌then◌else◌, filter,
  any,
}
use super_victor.Prelude.Text.{Text, ◌≟◌}
use super_victor.Exec.{Result, ok, err}
use super_victor.Fleet.{
  Freshness, fresh, stale, dark, unknown, FleetDevice, FleetSummary, summarize,
}
use super_victor.Middleware.{sanitize_for_log}

pub data Event : Type 0 where
  health : FleetSummary → Event
  snapshot_failed : Event
  went_dark : Text → Event
  recovered : Text → Event

-- The `device_id` field of the line, as it is printed.
unfoldable pub logged_id : Event → Option Text
logged_id (went_dark id) = some (sanitize_for_log id)
logged_id (recovered id) = some (sanitize_for_log id)
logged_id (health _) = none
logged_id snapshot_failed = none

unfoldable pub contains : Text → List Text → Bool
contains id ids = any (λ x. x ≟ id) ids

unfoldable pub insert : Text → List Text → List Text
insert id ids = if contains id ids then ids else id ∷ ids

-- `a.difference(&b)`
unfoldable pub difference : List Text → List Text → List Text
difference a b = filter (λ id. not (contains id b)) a

unfoldable pub is_dark : FleetDevice → Bool
is_dark d = elim d.staleness [ dark ↦ true | _ ↦ false ]

-- The identifiers of the dark devices, collected into a set.
unfoldable pub dark_set : List FleetDevice → List Text
dark_set [] = []
dark_set (d ∷ ds) = let rest = dark_set ds in if is_dark d then insert d.device_id rest else rest

-- Before the loop: the devices that are dark at boot are known.
unfoldable pub boot : {V : Type 0} → Result V (List FleetDevice) → List Text
boot (ok devices) = dark_set devices
boot (err e) = []

-- One round of the loop: the set that is known after it, and what is logged.
unfoldable pub tick :
    {V : Type 0} → List Text → Result V (List FleetDevice) → List Text × List Event
tick known (err e) = (known, snapshot_failed ∷ [])
tick known (ok devices) =
    let dark_now = dark_set devices in
    (
      dark_now,
      health (summarize devices)
          ∷ (map went_dark (difference dark_now known)
              ++ map recovered (difference known dark_now)),
    )

-- A run of the loop over the snapshots of its ticks.
unfoldable pub ticks :
    {V : Type 0} → List Text → List (Result V (List FleetDevice)) → List Text × List Event
ticks known [] = (known, [])
ticks known (r ∷ rs) =
    let (known', events) = tick known r in
    let (last, later) = ticks known' rs in (last, events ++ later)

unfoldable pub run :
    {V : Type 0}
    → Result V (List FleetDevice)
    → List (Result V (List FleetDevice))
    → List Text × List Event
run first rest = ticks (boot first) rest
