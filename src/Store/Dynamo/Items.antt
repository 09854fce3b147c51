-- ===== src/Store/Dynamo/Items.antt =====
-- What the DynamoDB backend writes to an item it reads back.
use super_victor.Prelude.{◌≡◌, refl, Option, none, some, List, [], ◌∷◌, map}
use super_victor.Prelude.Text.{Text}
use super_victor.Exec.{Result, ok}
use super_victor.Json.{SerdeJson}
use super_victor.Models.{DeviceRecord, UplinkRecord}
use super_victor.Store.Stored.{decode}
use super_victor.Store.Aws.{Item}
use super_victor.Store.Dynamo.{device_to_item, item_to_device, item_to_uplink, uplink_item, collect}

-- Every device, with a subject name or without, is read back from the item that is made of it.
pub item_to_device-device_to_item :
    {V : Type 0} (d : DeviceRecord) → item_to_device {V = V} (device_to_item d) ≡ ok d
unfolding item_to_device device_to_item
item_to_device-device_to_item {V} d = device d.subject_dn
  where
    device :
        (dn : Option Text)
        → item_to_device {V = V} (device_to_item (record d { subject_dn = dn }))
          ≡ ok (record d { subject_dn = dn })
    device none = refl
    device (some t) = refl

pub item_to_uplink-uplink_item :
    {V : Type 0} (json : SerdeJson V) (u : UplinkRecord Text)
    → item_to_uplink json (uplink_item u.device_id u.received_at u.payload) ≡ ok (decode json u)
unfolding item_to_uplink uplink_item decode
item_to_uplink-uplink_item json u = refl

-- Items that can be read are all collected.
pub collect-items :
    {V A B : Type 0} (f : Item → Result V B) (item : A → Item) (g : A → B)
    → ((a : A) → f (item a) ≡ ok (g a))
    → (xs : List A) → collect f (map item xs) ≡ ok (map g xs)
unfolding collect
collect-items f item g reads [] = refl
collect-items f item g reads (a ∷ xs) = rw (reads a, collect-items f item g reads xs) refl
