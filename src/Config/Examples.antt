-- ===== src/Config/Examples.antt =====
-- The configuration of a test environment.
use super_victor.Prelude.{Option, some, none, if◌then◌else◌}
use super_victor.Prelude.Text.{Text, codes, ◌≟◌}
use super_victor.Prelude.Decimal.{decimal}

abbrev env : Text → Option Text
env name =
    if name ≟ codes "PORT"
    then some (decimal 8080)
    else if name ≟ codes "WATCHDOG_INTERVAL_SECS"
    then some (decimal 60)
    else none

abbrev reason : Text → Text
reason t = codes "invalid digit found in string"
