-- ===== src/Routes/Examples.antt =====
-- The uplink route on a message of a device that nobody registered.
use super_victor.Prelude.{true, some, none, All}
use super_victor.Prelude.Text.{codes}
use super_victor.Store.Samples.{json, memory, memory-IsDeviceStore, uplink_text, no_devices}
use super_victor.Routes.{uplink}
use super_victor.Routes.Table.{router}
use super_victor.Routes.Gate.{Guards, router-Guards}
use super_victor.Routes.Publish.{Publishes, uplink-Publishes}

uplink-Publishes_example :
    Publishes json
      (λ t. t)
      (some (1782867600, 0))
      (some (1782867601, 0))
      uplink_text
      no_devices
      (uplink json memory (some (1782867600, 0)) (some (1782867601, 0)) none uplink_text no_devices)
uplink-Publishes_example =
    uplink-Publishes json memory-IsDeviceStore (some (1782867600, 0)) (some (1782867601, 0)) none
      uplink_text no_devices

router-Guards_example : All (Guards (some (codes "CN=ann,OU=admin"))) (router true)
router-Guards_example = router-Guards true (some (codes "CN=ann,OU=admin"))
