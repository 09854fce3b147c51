-- ===== src/Store/Dynamo/Answers.antt =====
-- What `latest_uplinks` of the DynamoDB backend answers: the page of the scan, and a query for each
-- device on it.
use mathlib.Core.List.{Perm}
use super_victor.Prelude.{false, ◌≡◌, List, ◌++◌, map}
use super_victor.Prelude.Text.{Text, codes}
use super_victor.Exec.{Result, ok, err}
use super_victor.Prelude.Int.{pos}
use super_victor.Json.{SerdeJson}
use super_victor.Models.{DeviceRecord, UplinkRecord, StoreError, io, store}
use super_victor.Store.Contract.{Occurs, AreLatest}
use super_victor.Store.Stored.{Tables, decode}
use super_victor.Store.Aws.{s, Item, SdkError, Client, Answer, done, failed}
use super_victor.Store.Dynamo.{device_to_item}
use super_victor.Store.Dynamo.Laws.{First}

module _ {V S : Type 0} (client : Client S) (devices_table messages_table : Text)
    (json : SerdeJson V) (tables : S → Tables) where
  -- The query for a newest uplink of a device.
  abbrev pub query_one : Text → S → Answer (List Item) × S
  query_one id state =
      client.query messages_table (codes "device_id = :did") (codes ":did", s id) false (pos 1)
        state

  -- The query for one of the devices fails, with this report.
  pub record Unanswered (t : Tables) (ds : List DeviceRecord) (e : StoreError) (state' : S)
      : Type 0 where
    pub device : DeviceRecord
    pub occurs : Occurs device ds
    pub state : S
    pub same : tables state ≡ t
    pub error : SdkError
    pub fails : query_one device.device_id state ≡ (failed error, state')
    pub reported : e ≡ io (codes "get_uplinks") error.display

  pub data Got (t : Tables) (id : Text) (state : S)
      : Result V (List (UplinkRecord V)) × S → Type 0 where
    got :
        (us : List (UplinkRecord Text)) (state' : S)
        → First t id us
        → tables state' ≡ t
        → Got t id state (ok (map (decode json) us), state')
    not_got :
        (e : SdkError) (state' : S)
        → query_one id state ≡ (failed e, state')
        → tables state' ≡ t
        → Got t id state (err (store (io (codes "get_uplinks") e.display)), state')

  -- The loop appends a newest uplink of each device that has one.
  pub data Pushed (t : Tables) (out : List (UplinkRecord V)) (ds : List DeviceRecord)
      : Result V (List (UplinkRecord V)) × S → Type 0 where
    pushed :
        (us : List (UplinkRecord V)) (state' : S)
        → AreLatest ds us (map (decode json) t.uplinks)
        → tables state' ≡ t
        → Pushed t out ds (ok (out ++ us), state')
    not_pushed :
        (e : StoreError) (state' : S)
        → Unanswered t ds e state'
        → tables state' ≡ t
        → Pushed t out ds (err (store e), state')

  -- The answer from a state of the service: a newest uplink of each device of the page that the scan
  -- returns, the failure of the scan, or the failure of the query for a device of that page.
  pub data Latest (state : S) : Result V (List (UplinkRecord V)) × S → Type 0 where
    latest :
        (ds rest : List DeviceRecord) (us : List (UplinkRecord V)) (state1 state' : S)
        → client.scan devices_table state ≡ (done (map device_to_item ds), state1)
        → Perm (ds ++ rest) (tables state).devices
        → AreLatest ds us (map (decode json) (tables state).uplinks)
        → tables state' ≡ tables state
        → Latest state (ok us, state')
    unread :
        (e : SdkError) (state' : S)
        → client.scan devices_table state ≡ (failed e, state')
        → tables state' ≡ tables state
        → Latest state (err (store (io (codes "list_devices") e.display)), state')
    unanswered :
        (ds : List DeviceRecord) (e : StoreError) (state1 state' : S)
        → client.scan devices_table state ≡ (done (map device_to_item ds), state1)
        → Unanswered (tables state) ds e state'
        → tables state' ≡ tables state
        → Latest state (err (store e), state')
