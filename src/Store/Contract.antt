-- ===== src/Store/Contract.antt =====
-- What the comments on the trait promise of each method, against an abstract registry: the devices
-- and the uplinks that were stored. A backend failure (`AppError::Store`) may come at any call; it
-- leaves the registry as it was, but for a change of status, which may be made before the failure.
use mathlib.Core.List.{Perm}
use super_victor.Prelude.{
  ℕ, true, filter, take, All, ◌≡◌, Option, none, some, List, [], ◌∷◌, ◌++◌, if◌then◌else◌,
}
use super_victor.Prelude.Text.{Text, ◌≟◌}
use super_victor.Prelude.Order.{le_text}
use super_victor.Exec.{Result, ok, err}
use super_victor.Models.{DeviceRecord, UplinkRecord, device_already_exists, device_not_found, store}
use super_victor.Store.{DeviceStore}

pub record Registry (V : Type 0) : Type 0 where
  pub devices : List DeviceRecord
  pub uplinks : List (UplinkRecord V)

unfoldable pub find : Text → List DeviceRecord → Option DeviceRecord
find id [] = none
find id (d ∷ ds) = if d.device_id ≟ id then some d else find id ds

unfoldable pub set_status : Text → Text → List DeviceRecord → List DeviceRecord
set_status id status [] = []
set_status id status (d ∷ ds) =
    (if d.device_id ≟ id then record d { status = status } else d) ∷ set_status id status ds

module _ {V S : Type 0} (view : S → Registry V) (s : S) where
  pub data PutDevice (r : DeviceRecord) : Result V DeviceRecord × S → Type 0 where
    stored :
        (s' : S)
        → find r.device_id (view s).devices ≡ none
        → view s' ≡ record (view s) { devices = (view s).devices ++ r ∷ [] }
        → PutDevice r (ok r, s')
    duplicate :
        (s' : S) (d : DeviceRecord)
        → find r.device_id (view s).devices ≡ some d
        → view s' ≡ view s
        → PutDevice r (err (device_already_exists r.device_id), s')
    failed : (s' : S) (e : _) → view s' ≡ view s → PutDevice r (err (store e), s')

  pub data GetDevice (id : Text) : Result V (Option DeviceRecord) × S → Type 0 where
    found : (s' : S) → view s' ≡ view s → GetDevice id (ok (find id (view s).devices), s')
    failed : (s' : S) (e : _) → view s' ≡ view s → GetDevice id (err (store e), s')

  pub data PutUplink (u : UplinkRecord V) : Result V (Unit {0}) × S → Type 0 where
    stored :
        (s' : S)
        → view s' ≡ record (view s) { uplinks = (view s).uplinks ++ u ∷ [] }
        → PutUplink u (ok tt, s')
    failed : (s' : S) (e : _) → view s' ≡ view s → PutUplink u (err (store e), s')

  pub data SetStatus (id status : Text) : Result V DeviceRecord × S → Type 0 where
    updated :
        (s' : S) (d : DeviceRecord)
        → find id (view s).devices ≡ some d
        → view s' ≡ record (view s) { devices = set_status id status (view s).devices }
        → SetStatus id status (ok (record d { status = status }), s')
    missing :
        (s' : S)
        → find id (view s).devices ≡ none
        → view s' ≡ view s
        → SetStatus id status (err (device_not_found id), s')
    failed : (s' : S) (e : _) → view s' ≡ view s → SetStatus id status (err (store e), s')
    -- the change is made, but the device could not be read back
    unread :
        (s' : S) (d : DeviceRecord) (e : _)
        → find id (view s).devices ≡ some d
        → view s' ≡ record (view s) { devices = set_status id status (view s).devices }
        → SetStatus id status (err (store e), s')

pub record IsDeviceStore {V S : Type 0} (st : DeviceStore V S) (view : S → Registry V)
    : Type 0 where
  pub put_device : (r : DeviceRecord) (s : S) → PutDevice view s r (st.put_device r s)
  pub get_device : (id : Text) (s : S) → GetDevice view s id (st.get_device id s)
  pub put_uplink : (u : UplinkRecord V) (s : S) → PutUplink view s u (st.put_uplink u s)
  pub set_device_status :
      (id status : Text) (s : S) → SetStatus view s id status (st.set_device_status id status s)

-- The uplinks of a device.
abbrev pub uplinks_of : {V : Type 0} → Text → List (UplinkRecord V) → List (UplinkRecord V)
uplinks_of id us = filter (λ u. u.device_id ≟ id) us

-- No uplink stands behind one that was received before it.
abbrev pub IsNewestFirst : {V : Type 0} → List (UplinkRecord V) → Type 0
IsNewestFirst [] = Unit
IsNewestFirst (u ∷ us) = All (λ v. le_text v.received_at u.received_at ≡ true) us × IsNewestFirst us

-- A place of a list where the element stands.
pub data Occurs {A : Type 0} (x : A) : List A → Type 0 where
  here : (y : A) (xs : List A) → x ≡ y → Occurs x (y ∷ xs)
  there : (y : A) (xs : List A) → Occurs x xs → Occurs x (y ∷ xs)

-- An uplink of the list that is not older than any other of its device.
pub record IsNewest {V : Type 0} (u : UplinkRecord V) (all : List (UplinkRecord V)) : Type 0 where
  pub occurs : Occurs u all
  pub newest : All (λ v. v.device_id ≡ u.device_id → le_text v.received_at u.received_at ≡ true) all

-- One newest uplink for each device that is asked for and has one, and none that is not the newest.
pub record AreLatest {V : Type 0} (ds : List DeviceRecord) (us all : List (UplinkRecord V))
    : Type 0 where
  pub each_newest : All (λ u. IsNewest u all) us
  pub covers :
      (d : DeviceRecord) (v : UplinkRecord V)
      → Occurs d ds
      → Occurs v all
      → v.device_id ≡ d.device_id
      → (u : UplinkRecord V) × Occurs u us × (u.device_id ≡ d.device_id)

module _ {V S : Type 0} (view : S → Registry V) (s : S) where
  pub data ListDevices : Result V (List DeviceRecord) × S → Type 0 where
    listed :
        (ds : List DeviceRecord) (s' : S)
        → Perm ds (view s).devices
        → view s' ≡ view s
        → ListDevices (ok ds, s')
    failed : (e : _) (s' : S) → view s' ≡ view s → ListDevices (err (store e), s')

  pub data GetUplinks (id : Text) (limit : ℕ) : Result V (List (UplinkRecord V)) × S → Type 0 where
    newest :
        (all : List (UplinkRecord V)) (s' : S)
        → Perm all (uplinks_of id (view s).uplinks)
        → IsNewestFirst all
        → view s' ≡ view s
        → GetUplinks id limit (ok (take limit all), s')
    failed : (e : _) (s' : S) → view s' ≡ view s → GetUplinks id limit (err (store e), s')

  pub data LatestUplinks : Result V (List (UplinkRecord V)) × S → Type 0 where
    latest :
        (us : List (UplinkRecord V)) (s' : S)
        → AreLatest (view s).devices us (view s).uplinks
        → view s' ≡ view s
        → LatestUplinks (ok us, s')
    failed : (e : _) (s' : S) → view s' ≡ view s → LatestUplinks (err (store e), s')

-- The methods that read lists.
pub record IsReader {V S : Type 0} (st : DeviceStore V S) (view : S → Registry V) : Type 0 where
  pub list_devices : (s : S) → ListDevices view s (st.list_devices s)
  pub get_uplinks :
      (id : Text) (limit : ℕ) (s : S) → GetUplinks view s id limit (st.get_uplinks id limit s)
  pub latest_uplinks : (s : S) → LatestUplinks view s (st.latest_uplinks s)
