-- ===== src/Fleet/Staleness.antt =====
-- The classification of a device by the age of its last uplink.
use super_victor.Prelude.{ℕ, ◌-◌, ◌^◌, ◌≤◌, ◌<◌, ◌≡◌, ◌≢◌, ◌↔◌, Option, some, arith}
use super_victor.Prelude.Text.{Text}
use super_victor.Time.{format_rfc3339}
use super_victor.Time.RoundTrip.{parse-format}
use super_victor.Time.Range.{second_10000}
use super_victor.Fleet.{
  Freshness, fresh, stale, dark, unknown, of_age, staleness_of, fresh_secs, dark_secs,
}

-- How bad a class is.
abbrev pub rank : Freshness → ℕ
rank fresh = 0
rank stale = 1
rank dark = 2
rank unknown = 3

-- An uplink stamped by this server is fresh below 15 minutes of age, dark from two hours on, and
-- stale between; one stamped later than now counts as fresh.
pub staleness_of-format :
    (secs nanos now : ℕ)
    → secs < second_10000
    → nanos < 10 ^ 9
    → let c = staleness_of (some (format_rfc3339 secs nanos)) now in
      ((c ≡ fresh) ↔ (now - secs < fresh_secs))
      × ((c ≡ dark) ↔ (dark_secs ≤ now - secs))
      × (c ≢ unknown)
unfolding staleness_of of_age
staleness_of-format secs nanos now h k =
    rw (parse-format secs nanos h k, staleness_of) (ground arith)

-- As time passes, the class of an unchanged last uplink never improves.
pub staleness_of_mono :
    (last : Option Text) (now later : ℕ)
    → now ≤ later
    → rank (staleness_of last now) ≤ rank (staleness_of last later)
unfolding staleness_of of_age
staleness_of_mono last now later h = ground arith
