-- ===== src/Dashboard/Actions.antt =====
-- What the two forms of the dashboard do to the registry, over any store that keeps the contract.
use super_victor.Prelude.{
  ℕ, true, false, Option, none, some, List, [], ◌∷◌, ◌++◌, ◌≡◌, ◌≢◌, refl, ap, sym, ◌⊎◌, inl, inr,
  Bool-cases, arith, if◌then◌else◌,
}
use super_victor.Prelude.Text.{Text, codes, ◌≟◌, ≟_iff}
use super_victor.Prelude.Str.{trim, is_empty}
use super_victor.Exec.{Result, ok, err, continue}
use super_victor.Json.{value, SerdeJson}
use super_victor.Models.{
  RegisterDeviceRequest, StoreError, active, inactive, invalid_payload, device_already_exists,
  device_not_found, store,
}
use super_victor.Store.{DeviceStore}
use super_victor.Store.Contract.{Registry, find, IsDeviceStore, SetStatus}
use super_victor.Store.Contract
use super_victor.Middleware.{forbid}
use super_victor.Handlers.{device_record}
use super_victor.Dashboard.{
  csrf_ok, Reply, redirect, RegisterForm, StatusForm, listed_status, set_status,
}

-- The two words that a status may be.
listed_status_lem :
    (s : Text)
    → (((s ≡ active) ⊎ (s ≡ inactive)) × (listed_status s ≡ some s))
      ⊎ ((s ≢ active) × (s ≢ inactive) × (listed_status s ≡ none))
unfolding listed_status
listed_status_lem s = elim (Bool-cases (s ≟ active)) [
  | inl a ↦ inl (inl ((≟_iff s active).0 a), rw a (ap some (sym ((≟_iff s active).0 a))))
  | inr a ↦ elim (Bool-cases (s ≟ inactive)) [
    | inl b ↦ inl (inr ((≟_iff s inactive).0 b), rw (a, b) (ap some (sym ((≟_iff s inactive).0 b))))
    | inr b ↦
        inr (
          λ e. ground (arith, ≟_iff s active),
          λ e. ground (arith, ≟_iff s inactive),
          rw (a, b) refl,
        )
  ]
]

module _ {V S : Type 0} (view : S → Registry V) (cookies : List (Option Text)) (id : Text)
    (form : StatusForm) (s : S) where
  -- The ways in which the status form can end.
  pub data StatusOutcome : Result V Reply × S → Type 0 where
    updated :
        (s' : S) (d : _)
        → csrf_ok cookies form.csrf ≡ true
        → (form.status ≡ active) ⊎ (form.status ≡ inactive)
        → find id (view s).devices ≡ some d
        → view s'
          ≡ record (view s) { devices = Contract.set_status id form.status (view s).devices }
        → StatusOutcome (ok redirect, s')
    rejected :
        csrf_ok cookies form.csrf ≡ false
        → StatusOutcome (ok (forbid (codes "invalid CSRF token")), s)
    unlisted :
        csrf_ok cookies form.csrf ≡ true
        → form.status ≢ active
        → form.status ≢ inactive
        → StatusOutcome
            (err (invalid_payload (codes "status must be 'active' or 'inactive'") none), s)
    unknown :
        (s' : S)
        → find id (view s).devices ≡ none
        → view s' ≡ view s
        → StatusOutcome (err (device_not_found id), s')
    backend : (e : StoreError) (s' : S) → view s' ≡ view s → StatusOutcome (err (store e), s')
    unread :
        (e : StoreError) (s' : S) (d : _)
        → csrf_ok cookies form.csrf ≡ true
        → (form.status ≡ active) ⊎ (form.status ≡ inactive)
        → find id (view s).devices ≡ some d
        → view s'
          ≡ record (view s) { devices = Contract.set_status id form.status (view s).devices }
        → StatusOutcome (err (store e), s')

module _ {V S : Type 0} {st : DeviceStore V S} {view : S → Registry V}
    (contract : IsDeviceStore st view) (cookies : List (Option Text)) (s : S) where
  after_change :
      (id : Text) (form : StatusForm) {r : Result V _ × S}
      → csrf_ok cookies form.csrf ≡ true
      → (form.status ≡ active) ⊎ (form.status ≡ inactive)
      → SetStatus view s id form.status r
      → StatusOutcome view cookies id form s (continue r.0 (λ _ t. (ok redirect, t)) r.1)
  after_change id form c w (Contract.updated s' d e same) = updated s' d c w e same
  after_change id form c w (Contract.missing s' e same) = unknown s' e same
  after_change id form c w (Contract.failed s' e same) = backend e s' same
  after_change id form c w (Contract.unread s' d e f same) = unread e s' d c w f same

  -- The status form changes nothing but the status of the device of its path, to `active` or
  -- `inactive`, and only with the token of the cookie. Without the token, with another word and for an
  -- unknown device the registry is as it was, and each has its own answer; on a backend failure either
  -- nothing or only that change is made.
  pub set_status-Outcome :
      (id : Text) (form : StatusForm)
      → StatusOutcome view cookies id form s (set_status st cookies id form s)
  unfolding set_status
  set_status-Outcome id form = elim (Bool-cases (csrf_ok cookies form.csrf)) [
    | inr c ↦ rw c (rejected c)
    | inl c ↦ elim (listed_status_lem form.status) [
      | inl (word, e) ↦
          rw (set_status, c, e)
            (after_change id form c word (contract.set_device_status id form.status s))
      | inr (a, b, e) ↦ rw (set_status, c, e) (unlisted c a b)
    ]
  ]

-- What a form registers: a blank subject is none.
abbrev pub form_request : RegisterForm → RegisterDeviceRequest
form_request form = record {
  device_id = form.device_id;
  owner_id = form.owner_id;
  subject_dn = if is_empty (trim form.subject_dn) then none else some form.subject_dn;
}

-- Documented behaviour of serde_json on the object that the form builds: its text is not blank, and
-- reading it back gives the fields, a null as none.
pub record FormLaws {V : Type 0} (json : SerdeJson V) : Type 0 where
  pub object_text :
      (fs : List (Text × V)) → is_empty (trim (json.to_string (json.object fs))) ≡ false
  pub read_some :
      (id owner dn : Text)
      → json.register_from_str (
          json.to_string (
            json.object (
              (codes "device_id", json.string id)
              ∷ (codes "owner_id", json.string owner)
              ∷ (codes "subject_dn", json.string dn)
              ∷ [])))
        ≡ value (record { device_id = id; owner_id = owner; subject_dn = some dn })
  pub read_null :
      (id owner : Text)
      → json.register_from_str (
          json.to_string (
            json.object (
              (codes "device_id", json.string id)
              ∷ (codes "owner_id", json.string owner)
              ∷ (codes "subject_dn", json.null)
              ∷ [])))
        ≡ value (record { device_id = id; owner_id = owner; subject_dn = none })

module _ {V S : Type 0} (view : S → Registry V) (cookies : List (Option Text))
    (now : Option (ℕ × ℕ)) (form : RegisterForm) (s : S) where
  -- The ways in which the registration form can end.
  pub data FormOutcome : Result V Reply × S → Type 0 where
    registered :
        (s' : S)
        → csrf_ok cookies form.csrf ≡ true
        → find form.device_id (view s).devices ≡ none
        → view s' ≡ record (view s) {
          devices = (view s).devices ++ device_record (form_request form) now ∷ [];
        }
        → FormOutcome (ok redirect, s')
    rejected :
        csrf_ok cookies form.csrf ≡ false
        → FormOutcome (ok (forbid (codes "invalid CSRF token")), s)
    conflict :
        (s' : S) (d : _)
        → csrf_ok cookies form.csrf ≡ true
        → find form.device_id (view s).devices ≡ some d
        → view s' ≡ view s
        → FormOutcome (err (device_already_exists form.device_id), s')
    failed : (e : StoreError) (s' : S) → view s' ≡ view s → FormOutcome (err (store e), s')
