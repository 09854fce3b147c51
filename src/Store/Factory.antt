-- ===== src/Store/Factory.antt =====
-- supervictor/endpoint/src/store/factory.rs: the choice of the backend. Whether a backend is built in is a
-- feature of the build; `open_sqlite` is `SqliteDeviceStore::new` and `open_dynamo` the store over a client
-- with the configuration that the AWS SDK loads.
use super_victor.Prelude.{◌≡◌, Bool, true, ◌⊎◌, inl, inr, ◌++◌, if◌then◌else◌, Bool-cases}
use super_victor.Prelude.Text.{Text, codes, ◌≟◌, ≟_iff}
use super_victor.Exec.{Result, ok, err}
use super_victor.Models.{config}
use super_victor.Config.{Config}
use super_victor.Store.{DeviceStore}

module _ {V S : Type 0} (sqlite_feature dynamo_feature : Bool)
    (open_sqlite : Text → Result V (DeviceStore V S))
    (open_dynamo : Text → Text → DeviceStore V S) where
  unfoldable pub create_store : Config → Result V (DeviceStore V S)
  create_store c =
      if c.store_backend ≟ codes "sqlite"
      then (if sqlite_feature
          then open_sqlite c.sqlite_db_path
          else err (config (codes "sqlite feature not enabled")))
      else if c.store_backend ≟ codes "dynamo"
      then (if dynamo_feature
          then ok (open_dynamo c.devices_table c.messages_table)
          else err (config (codes "dynamo feature not enabled")))
      else err (config (codes "unknown store backend: " ++ c.store_backend))

  err_not_ok : {A : Type 0} {e : _} {a : A} → ◌≡◌ {A = Result V A} (err e) (ok a) → ⊥
  err_not_ok e = cc

  -- A store is only made of a backend that is named in the configuration and built in.
  pub create_store-ok :
      (c : Config) (st : DeviceStore V S)
      → create_store c ≡ ok st
      → ((c.store_backend ≡ codes "sqlite") × (sqlite_feature ≡ true))
        ⊎ ((c.store_backend ≡ codes "dynamo") × (dynamo_feature ≡ true))
  unfolding create_store
  create_store-ok c st e = elim (Bool-cases (c.store_backend ≟ codes "sqlite")) [
    | inl p ↦ elim (Bool-cases sqlite_feature) [
      | inl f ↦ inl ((≟_iff c.store_backend (codes "sqlite")).0 p, f)
      | inr f ↦ absurd (err_not_ok (rw (p, f) at e))
    ]
    | inr p ↦ elim (Bool-cases (c.store_backend ≟ codes "dynamo")) [
      | inl q ↦ elim (Bool-cases dynamo_feature) [
        | inl f ↦ inr ((≟_iff c.store_backend (codes "dynamo")).0 q, f)
        | inr f ↦ absurd (err_not_ok (rw (p, q, f) at e))
      ]
      | inr q ↦ absurd (err_not_ok (rw (p, q) at e))
    ]
  ]
