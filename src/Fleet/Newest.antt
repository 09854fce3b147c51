-- ===== src/Fleet/Newest.antt =====
-- The snapshot of the fleet over a store that keeps the contract of its lists.
use mathlib.Core.List.{Perm}
use mathlib.Core.Path.{subst}
use super_victor.Prelude.{
  ℕ, ◌≡◌, ◌≢◌, refl, sym, ap, ◌∙◌, false, Option, none, some, List, [], ◌∷◌, map, All, Option-cases,
  none-some, some_same, true-false, Bool-cases, inl, inr,
}
use super_victor.Prelude.Text.{Text, ◌≟◌, ≟_iff}
use super_victor.Exec
use super_victor.Exec.{Result, ok, err, continue, pure}
use super_victor.Json.{SerdeJson}
use super_victor.Models.{DeviceRecord, UplinkRecord, StoreError, store}
use super_victor.Store.{DeviceStore}
use super_victor.Store.Contract.{
  Registry, Occurs, here, there, IsNewest, AreLatest, IsReader, ListDevices, LatestUplinks,
}
use super_victor.Store.Contract
use super_victor.Fleet.{FleetDevice, unknown, staleness_of, latest_of, fw_of, health_of, snapshot}
use super_victor.Store.Occurs.{All-Occurs, Occurs-All, Occurs-Perm}

-- The health of a device: that it has no uplink, or what its newest uplink says.
pub data IsHealth {V : Type 0} (json : SerdeJson V) (now : ℕ) (all : List (UplinkRecord V))
    (d : DeviceRecord) : FleetDevice → Type 0 where
  silent :
      All (λ v. v.device_id ≢ d.device_id) all
      → IsHealth json now all d (record {
        device_id = d.device_id;
        owner_id = d.owner_id;
        status = d.status;
        last_uplink = none;
        staleness = unknown;
        fw = none;
      })
  heard :
      (u : UplinkRecord V)
      → u.device_id ≡ d.device_id
      → IsNewest u all
      → IsHealth json now all d (record {
        device_id = d.device_id;
        owner_id = d.owner_id;
        status = d.status;
        last_uplink = some u.received_at;
        staleness = staleness_of (some u.received_at) now;
        fw = fw_of json u;
      })

module _ {V S : Type 0} (json : SerdeJson V) (now : ℕ) (view : S → Registry V) (s : S) where
  -- One entry for each device, with its health; or the store's failure.
  pub data Snapshot : Result V (List FleetDevice) × S → Type 0 where
    taken :
        (ds : List DeviceRecord) (health : DeviceRecord → FleetDevice) (s' : S)
        → Perm ds (view s).devices
        → All (λ d. IsHealth json now (view s).uplinks d (health d)) ds
        → view s' ≡ view s
        → Snapshot (ok (map health ds), s')
    failed : (e : StoreError) (s' : S) → view s' ≡ view s → Snapshot (err (store e), s')

module _ {V : Type 0} where
  latest_of-some :
      (id : Text) (us : List (UplinkRecord V)) (u : UplinkRecord V)
      → latest_of id us ≡ some u
      → Occurs u us × (u.device_id ≡ id)
  unfolding latest_of
  latest_of-some id [] u e = absurd (none-some e)
  latest_of-some id (x ∷ us) u e = elim (Option-cases (latest_of id us)) [
    | inr (v, f) ↦ let (p, same) = latest_of-some id us u (f ∙ (rw f at e)) in (there x us p, same)
    | inl f ↦ elim (Bool-cases (x.device_id ≟ id)) [
      | inl t ↦ (
        here x us (sym (some_same (rw (f, t) at e))),
        sym (ap (λ y. y.device_id) (some_same (rw (f, t) at e))) ∙ (≟_iff x.device_id id).0 t,
      )
      | inr t ↦ absurd (none-some (rw (f, t) at e))
    ]
  ]

  behind :
      (id : Text) (x : UplinkRecord V) (us : List (UplinkRecord V))
      → (x.device_id ≟ id) ≡ false
      → ((u : UplinkRecord V) → Occurs u us → u.device_id ≢ id)
      → (u : UplinkRecord V) → Occurs u (x ∷ us)
      → u.device_id ≢ id
  behind id x us t rest u (there _ _ p) = rest u p
  behind id x us t rest u (here _ _ e) = λ same.
      let h = (≟_iff x.device_id id).1 (sym (ap (λ y. y.device_id) e) ∙ same) in
      true-false (sym h ∙ t)

  latest_of-none :
      (id : Text) (us : List (UplinkRecord V))
      → latest_of id us ≡ none
      → (u : UplinkRecord V) → Occurs u us
      → u.device_id ≢ id
  unfolding latest_of
  latest_of-none id [] e u p = elim p [ ]
  latest_of-none id (x ∷ us) e u p = elim (Option-cases (latest_of id us)) [
    | inr (v, f) ↦ absurd (none-some (sym (rw f at e)))
    | inl f ↦ elim (Bool-cases (x.device_id ≟ id)) [
      | inl t ↦ absurd (none-some (sym (rw (f, t) at e)))
      | inr t ↦ behind id x us t (latest_of-none id us f) u p
    ]
  ]

module _ {V : Type 0} (json : SerdeJson V) (now : ℕ) (ds : List DeviceRecord)
    (us all : List (UplinkRecord V)) (latest : AreLatest ds us all) (d : DeviceRecord)
    (known : ¬ (¬ (Occurs d ds))) where
  health : IsHealth json now all d (health_of json now us d)
  unfolding health_of staleness_of
  health = go (latest_of d.device_id us) refl
    where
      go :
          (o : Option (UplinkRecord V))
          → latest_of d.device_id us ≡ o
          → IsHealth json now all d (health_of json now us d)
      go none e =
          rw (health_of, e)
            (silent (
              Occurs-All (λ v. v.device_id ≢ d.device_id) all
                (λ v p same. known (λ q.
                  let (u, r, f) = latest.covers d v q p same in
                  latest_of-none d.device_id us e u r f))))
      go (some u) e =
          let (p, same) = latest_of-some d.device_id us u e in
          rw (health_of, e)
            (heard u same (All-Occurs (λ x. IsNewest x all) us latest.each_newest u p))

module _ {V S : Type 0} (st : DeviceStore V S) (view : S → Registry V) (reader : IsReader st view)
    (json : SerdeJson V) (now : ℕ) (s : S) where
  with_uplinks :
      (ds : List DeviceRecord) (s1 : S)
      → Perm ds (view s).devices
      → view s1 ≡ view s
      → {r : Result V (List (UplinkRecord V)) × S} → LatestUplinks view s1 r
      → Snapshot json now view s
          (continue r.0 (λ uplinks. pure (map (health_of json now uplinks) ds)) r.1)
  with_uplinks ds s1 p same (Contract.failed e s' f) = failed e s' (f ∙ same)
  with_uplinks ds s1 p same (Contract.latest us s' l f) =
      let moved = subst (λ r. AreLatest r.devices us r.uplinks) same l in
      taken ds (health_of json now us) s' p
        (Occurs-All (λ d. IsHealth json now (view s).uplinks d (health_of json now us d)) ds
          (λ d q. health json now (view s).devices us (view s).uplinks moved d (Occurs-Perm p q)))
        (f ∙ same)

  with_devices :
      {r : Result V (List DeviceRecord) × S}
      → ListDevices view s r
      → Snapshot json now view s (
          continue r.0
            (λ ds.
              Exec.◌>>=◌ st.latest_uplinks λ uplinks. pure (map (health_of json now uplinks) ds))
            r.1)
  with_devices (Contract.failed e s' f) = failed e s' f
  with_devices (Contract.listed ds s' p f) = with_uplinks ds s' p f (reader.latest_uplinks s')

  -- Over any store whose lists keep the contract, the snapshot has one entry for each device, with the time,
  -- the class and the firmware of its newest uplink, or none of them exactly if there is no uplink of
  -- it; or the store's failure. Nothing is changed.
  pub snapshot-Snapshot : Snapshot json now view s (snapshot json st now s)
  unfolding snapshot
  snapshot-Snapshot = with_devices (reader.list_devices s)
