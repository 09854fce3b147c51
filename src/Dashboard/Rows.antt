-- ===== src/Dashboard/Rows.antt =====
-- The rows of the fleet table over any store that keeps the contract of its lists.
use mathlib.Core.List.{Perm}
use mathlib.Core.List.Perm
use mathlib.Core.Path.{subst}
use super_victor.Prelude.{
  ℕ, Option, none, some, List, [], ◌∷◌, ◌≡◌, ◌≢◌, refl, sym, ap, ◌∙◌, map, All, Bool-cases,
  Option-cases, inl, inr, none-some, true-false, some_same,
}
use super_victor.Prelude.Text.{Text, ◌≟◌, ≟_iff}
use super_victor.Exec.{Result, ok, err, continue, pure}
use super_victor.Exec
use super_victor.Json.{SerdeJson}
use super_victor.Models.{DeviceRecord, UplinkRecord, StoreError, store}
use super_victor.Time.{parse_rfc3339_unix, now_rfc3339}
use super_victor.Store.{DeviceStore}
use super_victor.Store.Contract.{Registry, IsReader, ListDevices, IsNewest, Occurs, here, there}
use super_victor.Store.Contract
use super_victor.Store.Occurs.{All-Occurs, Occurs-All, Occurs-Perm}
use super_victor.Fleet.{FleetDevice, unknown, staleness_of, snapshot_now}
use super_victor.Fleet.Newest.{IsHealth, Snapshot, snapshot-Snapshot}
use super_victor.Fleet.Newest
use super_victor.Dashboard.{FleetRow, row_of, by_id, fleet_rows}

-- What a row says of its device: that it has no uplink, or the time and the class of its newest one.
pub data IsRow {V : Type 0} (now : ℕ) (all : List (UplinkRecord V)) (row : FleetRow) : Type 0 where
  silent :
      All (λ v. v.device_id ≢ row.device.device_id) all
      → row.last_uplink ≡ none
      → row.staleness ≡ unknown
      → IsRow now all row
  heard :
      (u : UplinkRecord V)
      → u.device_id ≡ row.device.device_id
      → IsNewest u all
      → row.last_uplink ≡ some u.received_at
      → row.staleness ≡ staleness_of (some u.received_at) now
      → IsRow now all row

-- The clock, read through its own print.
abbrev pub reading : Option (ℕ × ℕ) → ℕ
reading now = elim (parse_rfc3339_unix (now_rfc3339 now)) [ some t ↦ t | none ↦ 0 ]

module _ {V : Type 0} (json : SerdeJson V) (now : ℕ) (all : List (UplinkRecord V)) where
  health_id :
      (d : DeviceRecord) {h : FleetDevice} → IsHealth json now all d h → h.device_id ≡ d.device_id
  health_id d (Newest.silent a) = refl
  health_id d (Newest.heard u e n) = refl

  health-IsRow :
      (d e : DeviceRecord) {h : FleetDevice}
      → e.device_id ≡ d.device_id
      → IsHealth json now all e h
      → IsRow now all (record { device = d; last_uplink = h.last_uplink; staleness = h.staleness })
  health-IsRow d e same (Newest.silent a) =
      silent (subst (λ id. All (λ v. v.device_id ≢ id) all) same a) refl refl
  health-IsRow d e same (Newest.heard u f n) = heard u (f ∙ same) n refl refl

  module _ (health : DeviceRecord → FleetDevice) (id : Text) where
    -- An entry that is found is that of a device with the identifier.
    by_id-some :
        (ds : List DeviceRecord) (h : FleetDevice)
        → by_id id (map health ds) ≡ some h
        → (e : DeviceRecord) × Occurs e ds × (health e ≡ h) × ((health e).device_id ≡ id)
    unfolding by_id
    by_id-some [] h f = absurd (none-some f)
    by_id-some (d ∷ ds) h f = elim (Option-cases (by_id id (map health ds))) [
      | inr (g, k) ↦
          let (e, p, same, at) = by_id-some ds h (k ∙ (rw k at f)) in (e, there d ds p, same, at)
      | inl k ↦ elim (Bool-cases ((health d).device_id ≟ id)) [
        | inl t ↦ (d, here d ds refl, some_same (rw (k, t) at f), (≟_iff _ id).0 t)
        | inr t ↦ absurd (none-some (rw (k, t) at f))
      ]
    ]

    -- Where none is found there is no such device.
    by_id-none :
        (ds : List DeviceRecord) (e : DeviceRecord)
        → by_id id (map health ds) ≡ none
        → Occurs e ds
        → (health e).device_id ≢ id
    unfolding by_id
    by_id-none [] e f p same = elim p [ ]
    by_id-none (d ∷ ds) e f p same = elim (Option-cases (by_id id (map health ds))) [
      | inr (g, k) ↦ none-some (sym (rw k at f))
      | inl k ↦ elim (Bool-cases ((health d).device_id ≟ id)) [
        | inl t ↦ none-some (sym (rw (k, t) at f))
        | inr t ↦ elim p [
          | here _ _ q ↦
              true-false (sym ((≟_iff _ id).1 (ap (λ x. (health x).device_id) (sym q) ∙ same)) ∙ t)
          | there _ _ q ↦ by_id-none ds e k q same
        ]
      ]
    ]

  found-IsRow :
      (health : DeviceRecord → FleetDevice) (ds : List DeviceRecord) (d : DeviceRecord)
      → All (λ e. IsHealth json now all e (health e)) ds
      → ¬ (¬ (Occurs d ds))
      → IsRow now all (row_of (map health ds) d)
  unfolding row_of
  found-IsRow health ds d each p = elim (Option-cases (by_id d.device_id (map health ds))) [
    | inr (h, f) ↦
        let (e, q, same, at) = by_id-some health d.device_id ds h f in
        let k = All-Occurs (λ x. IsHealth json now all x (health x)) ds each e q in
        rw (row_of, f)
          (subst
            (λ g.
              IsRow now all
                (record { device = d; last_uplink = g.last_uplink; staleness = g.staleness }))
            same (health-IsRow d e (sym (health_id e k) ∙ at) k))
    | inl f ↦ absurd (
        p (λ q.
          by_id-none health d.device_id ds d f q
            (health_id d (All-Occurs (λ x. IsHealth json now all x (health x)) ds each d q))))
  ]

device-row_of : (health : List FleetDevice) (d : DeviceRecord) → (row_of health d).device ≡ d
unfolding row_of
device-row_of health d = elim (Option-cases (by_id d.device_id health)) [
  | inl e ↦ rw (row_of, e) refl
  | inr (h, e) ↦ rw (row_of, e) refl
]

devices_of_rows :
    (health : List FleetDevice) (ds : List DeviceRecord)
    → map (λ row. row.device) (map (row_of health) ds) ≡ ds
devices_of_rows health [] = refl
devices_of_rows health (d ∷ ds) = rw (device-row_of health d, devices_of_rows health ds) refl

All-map :
    {A B : Type 0} (P : B → Type 0) (f : A → B) (xs : List A)
    → All (λ x. P (f x)) xs
    → All P (map f xs)
All-map P f [] h = tt
All-map P f (x ∷ xs) (h, hs) = (h, All-map P f xs hs)

module _ {V S : Type 0} (now : ℕ) (view : S → Registry V) (s : S) where
  pub data Rows : Result V (List FleetRow) × S → Type 0 where
    read :
        (rows : List FleetRow) (s' : S)
        → Perm (map (λ row. row.device) rows) (view s).devices
        → All (IsRow now (view s).uplinks) rows
        → view s' ≡ view s
        → Rows (ok rows, s')
    unread : (e : StoreError) (s' : S) → view s' ≡ view s → Rows (err (store e), s')

module _ {V S : Type 0} {st : DeviceStore V S} {view : S → Registry V} (reader : IsReader st view)
    (json : SerdeJson V) (s : S) where
  after_snapshot :
      (now : ℕ) (ds : List DeviceRecord) (s' : S)
      → Perm ds (view s).devices
      → view s' ≡ view s
      → {r : Result V (List FleetDevice) × S} → Snapshot json now view s' r
      → Rows now view s (continue r.0 (λ health t. (ok (map (row_of health) ds), t)) r.1)
  after_snapshot now ds s' p same (Newest.failed e t f) = unread e t (f ∙ same)
  after_snapshot now ds s' p same (Newest.taken es health t q each f) =
      let rows = map (row_of (map health es)) ds in
      let q' = subst (λ r. Perm es r.devices) same q in
      let each' = subst (λ r. All (λ e. IsHealth json now r.uplinks e (health e)) es) same each in
      read rows t
        (subst (λ l. Perm l (view s).devices) (sym (devices_of_rows (map health es) ds)) p)
        (All-map (IsRow now (view s).uplinks) (row_of (map health es)) ds (
          Occurs-All (λ d. IsRow now (view s).uplinks (row_of (map health es) d)) ds
            (λ d o.
              found-IsRow json now (view s).uplinks health es d each'
                (Occurs-Perm (Perm.trans p (Perm.symm q')) o))))
        (f ∙ same)

  after_list :
      (now : Option (ℕ × ℕ)) {r : Result V (List DeviceRecord) × S}
      → ListDevices view s r
      → Rows (reading now) view s (
          continue r.0
            (λ ds. Exec.◌>>=◌ (snapshot_now json st now) λ health. pure (map (row_of health) ds))
            r.1)
  unfolding snapshot_now
  after_list now (Contract.listed ds t p e) =
      after_snapshot (reading now) ds t p e (snapshot-Snapshot st view reader json (reading now) t)
  after_list now (Contract.failed x t e) = unread x t e

  -- The fleet table has one row for each device, with the time and the class of its newest uplink, or
  -- neither exactly if there is none.
  pub fleet_rows-Rows :
      (now : Option (ℕ × ℕ)) → Rows (reading now) view s (fleet_rows json st now s)
  unfolding fleet_rows
  fleet_rows-Rows now = after_list now (reader.list_devices s)
