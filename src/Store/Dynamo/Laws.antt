-- ===== src/Store/Dynamo/Laws.antt =====
-- What DynamoDB documents of a scan and of a query.
use mathlib.Core.List.{Perm}
use super_victor.Prelude.{◌≡◌, ◌≢◌, false, List, [], ◌∷◌, ◌++◌, map, All}
use super_victor.Prelude.Text.{Text, codes}
use super_victor.Prelude.Int.{pos}
use super_victor.Models.{DeviceRecord, UplinkRecord}
use super_victor.Store.Contract.{IsNewest}
use super_victor.Store.Stored.{Tables}
use super_victor.Store.Aws.{Item, s, Client, Answer, done, failed}
use super_victor.Store.Dynamo.{device_to_item, uplink_item}

-- The item of a stored uplink.
abbrev pub stored_item : UplinkRecord Text → Item
stored_item u = uplink_item u.device_id u.received_at u.payload

-- The first item of a device by its sort key, downwards.
pub data First (t : Tables) (id : Text) : List (UplinkRecord Text) → Type 0 where
  nothing : All (λ v. v.device_id ≢ id) t.uplinks → First t id []
  first : (u : UplinkRecord Text) → u.device_id ≡ id → IsNewest u t.uplinks → First t id (u ∷ [])

module _ {S : Type 0} (tables : S → Tables) (state : S) where
  -- A page has the items of some of the devices.
  pub data Scan : Answer (List Item) × S → Type 0 where
    page :
        (ds rest : List DeviceRecord) (state' : S)
        → Perm (ds ++ rest) (tables state).devices
        → tables state' ≡ tables state
        → Scan (done (map device_to_item ds), state')
    broken : (e : _) (state' : S) → tables state' ≡ tables state → Scan (failed e, state')

  pub data Query (id : Text) : Answer (List Item) × S → Type 0 where
    found :
        (us : List (UplinkRecord Text)) (state' : S)
        → First (tables state) id us
        → tables state' ≡ tables state
        → Query id (done (map stored_item us), state')
    broken : (e : _) (state' : S) → tables state' ≡ tables state → Query id (failed e, state')

-- What DynamoDB documents of the scan, and of the query with a limit of one. `tables` is what the
-- service's reads see, which may be behind its writes.
pub record ReadLaws {S : Type 0} (client : Client S) (devices_table messages_table : Text)
    (tables : S → Tables) : Type 0 where
  pub scan : (state : S) → Scan tables state (client.scan devices_table state)
  pub query_one :
      (id : Text) (state : S)
      → Query tables state id (
          client.query messages_table
            (codes "device_id = :did")
            (codes ":did", s id)
            false
            (pos 1)
            state)
