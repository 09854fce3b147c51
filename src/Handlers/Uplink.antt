-- ===== src/Handlers/Uplink.antt =====
-- What `handle_uplink` does on every input, over any store that keeps the contract.
use super_victor.Prelude.{
  ℕ, Bool, true, false, Option, none, some, List, [], ◌∷◌, ◌++◌, ◌≡◌, refl, ◌∙◌, inl, inr,
  Bool-cases, arith,
}
use super_victor.Prelude.Text.{Text, codes, ◌≟◌, ≟_iff}
use super_victor.Prelude.Str.{trim, is_empty}
use super_victor.Exec.{Result, ok, err, continue, ◌>>=◌}
use super_victor.Json.{Parsed, value, invalid, SerdeJson}
use super_victor.Models.{
  UplinkMessage, DeviceRecord, UplinkRecord, UplinkResponse, StoreError, AppError, active,
  missing_body, invalid_payload, device_not_registered, store,
}
use super_victor.Store.{DeviceStore}
use super_victor.Store.Contract.{
  Registry, find, IsDeviceStore, GetDevice, found, failed, PutUplink, stored,
}
use super_victor.Time.{now_rfc3339}
use super_victor.Handlers.{
  body_of, payload_of, is_active, check_registration, uplink_payload, store_uplink, accept_uplink,
  handle_uplink,
}

-- The record that an accepted message adds.
abbrev pub stored_record :
    {V : Type 0} → SerdeJson V → UplinkMessage → Option (ℕ × ℕ) → UplinkRecord V
stored_record json m now = record {
  device_id = m.id;
  received_at = now_rfc3339 now;
  payload = uplink_payload json m;
}

abbrev pub IsRegistered : Text → List DeviceRecord → Type 0
IsRegistered id devices = (d : DeviceRecord) × (find id devices ≡ some d) × (d.status ≡ active)

-- A body that is missing or blank.
abbrev pub IsBlank : Option Text → Type 0
IsBlank none = Unit
IsBlank (some body) = is_empty (trim body) ≡ true

-- Why an uplink is refused, and the error that says so.
pub data Reason {V : Type 0} (json : SerdeJson V) (raw : Option Text) (required : Bool)
    (devices : List DeviceRecord) : AppError V → Type 0 where
  no_body : IsBlank raw → Reason json raw required devices missing_body
  not_message :
      (body detail : Text)
      → raw ≡ some body
      → json.uplink_from_str body ≡ invalid detail
      → Reason json raw required devices (invalid_payload detail none)
  unregistered :
      (body : Text) (m : UplinkMessage)
      → raw ≡ some body
      → json.uplink_from_str body ≡ value m
      → required ≡ true
      → ¬ IsRegistered m.id devices
      → Reason json raw required devices device_not_registered
  backend : (e : StoreError) → Reason json raw required devices (store e)

module _ {V S : Type 0} (json : SerdeJson V) (view : S → Registry V) where
  -- Either the body is a message, its device was active if that was asked for, and the registry has
  -- one more uplink; or the call fails for a reason and the registry is as it was.
  pub data Outcome (raw subject : Option Text) (required : Bool) (now : Option (ℕ × ℕ)) (s : S)
      : Result V UplinkResponse × S → Type 0 where
    accepted :
        (body : Text) (m : UplinkMessage) (s' : S)
        → raw ≡ some body
        → json.uplink_from_str body ≡ value m
        → (required ≡ true → IsRegistered m.id (view s).devices)
        → view s' ≡ record (view s) { uplinks = (view s).uplinks ++ stored_record json m now ∷ [] }
        → Outcome raw subject required now s (
          ok (record {
            message = codes "Uplink received";
            device_id = m.id;
            current = m.current;
            client_subject = subject;
          }),
          s',
        )
    refused :
        (e : AppError V) (s' : S)
        → Reason json raw required (view s).devices e
        → view s' ≡ view s
        → Outcome raw subject required now s (err e, s')

-- The registration check reads only.
data Checked {V S : Type 0} (view : S → Registry V) (required : Bool) (id : Text) (s : S)
    : Result V (Unit {0}) × S → Type 0 where
  passed :
      (s' : S)
      → (required ≡ true → IsRegistered id (view s).devices)
      → view s' ≡ view s
      → Checked view required id s (ok tt, s')
  unregistered :
      (s' : S)
      → required ≡ true
      → ¬ IsRegistered id (view s).devices
      → view s' ≡ view s
      → Checked view required id s (err device_not_registered, s')
  unanswered :
      (e : StoreError) (s' : S) → view s' ≡ view s → Checked view required id s (err (store e), s')

not-IsRegistered :
    (id : Text) (devices : List DeviceRecord) → find id devices ≡ none → ¬ IsRegistered id devices
not-IsRegistered id devices e (d, e', a) = cc

not_active :
    (id : Text) (devices : List DeviceRecord) (d : DeviceRecord)
    → find id devices ≡ some d
    → (d.status ≟ active) ≡ false
    → ¬ IsRegistered id devices
not_active id devices d e off (d', e', a) = ground (arith, ≟_iff d'.status active)

module _ {V S : Type 0} {st : DeviceStore V S} {view : S → Registry V}
    (contract : IsDeviceStore st view) where
  is_active-Checked :
      (id : Text) (s s' : S) (o : Option DeviceRecord)
      → find id (view s).devices ≡ o
      → view s' ≡ view s
      → Checked view true id s (is_active o s')
  unfolding is_active
  is_active-Checked id s s' none e same = unregistered s' refl (not-IsRegistered id _ e) same
  is_active-Checked id s s' (some d) e same = elim (Bool-cases (d.status ≟ active)) [
    | inl a ↦ rw a (passed s' (λ _. (d, e, (≟_iff d.status active).0 a)) same)
    | inr a ↦ rw a (unregistered s' refl (not_active id _ d e a) same)
  ]

  after_lookup :
      (id : Text) (s : S) {r : Result V (Option DeviceRecord) × S}
      → GetDevice view s id r
      → Checked view true id s (continue r.0 is_active r.1)
  after_lookup id s (found s' same) = is_active-Checked id s s' _ refl same
  after_lookup id s (failed s' e same) = unanswered e s' same

  check-Checked :
      (required : Bool) (id : Text) (s : S)
      → Checked view required id s (check_registration required (some st) id s)
  unfolding check_registration
  check-Checked true id s = after_lookup id s (contract.get_device id s)
  check-Checked false id s = passed s (λ e. cc) refl

  module _ (json : SerdeJson V) (raw subject : Option Text) (required : Bool) (now : Option (ℕ × ℕ))
      (body : Text) (m : UplinkMessage) (is_body : raw ≡ some body)
      (parsed : json.uplink_from_str body ≡ value m) (s : S) where
    abbrev reply : UplinkResponse
    reply = record {
      message = codes "Uplink received";
      device_id = m.id;
      current = m.current;
      client_subject = subject;
    }

    after_store :
        {r : Result V (Unit {0}) × S} (s' : S)
        → (required ≡ true → IsRegistered m.id (view s).devices)
        → view s' ≡ view s
        → PutUplink view s' (stored_record json m now) r
        → Outcome json view raw subject required now s (continue r.0 (λ _ t. (ok reply, t)) r.1)
    after_store s' registered same (stored t grown) =
        accepted body m t is_body parsed registered (rw same at grown)
    after_store s' registered same (failed t e kept) = refused _ t (backend e) (kept ∙ same)

    after_check :
        {r : Result V (Unit {0}) × S}
        → Checked view required m.id s r
        → Outcome json view raw subject required now s
            (continue r.0 (λ _. store_uplink json (some st) m now >>= λ _ t. (ok reply, t)) r.1)
    unfolding store_uplink
    after_check (passed s' registered same) =
        after_store s' registered same (contract.put_uplink (stored_record json m now) s')
    after_check (unregistered s' req absent same) =
        refused _ s' (unregistered body m is_body parsed req absent) same
    after_check (unanswered e s' same) = refused _ s' (backend e) same

  module _ (json : SerdeJson V) (subject : Option Text) (required : Bool) (now : Option (ℕ × ℕ))
      (s : S) where
    after_parse :
        (body : Text) (p : Parsed UplinkMessage)
        → json.uplink_from_str body ≡ p
        → Outcome json view
            (some body)
            subject
            required
            now
            s
            (continue (payload_of p) (accept_uplink json subject (some st) required now) s)
    unfolding payload_of accept_uplink
    after_parse body (value m) e =
        after_check json (some body) subject required now body m refl e s
          (check-Checked required m.id s)
    after_parse body (invalid detail) e = refused _ s (not_message body detail refl e) refl

    -- Whatever the request, an uplink is either accepted, with exactly one record stored and (where
    -- registration is required) its device registered and active, or refused
    -- with nothing stored, and then for one of four reasons: the body is missing or blank, it is not
    -- a message, the device is not registered and active where that is required, or the backend failed.
    pub handle_uplink-Outcome :
        (raw : Option Text)
        → Outcome json view raw subject required now s
            (handle_uplink json raw subject (some st) required now s)
    unfolding handle_uplink body_of
    handle_uplink-Outcome none = refused _ s (no_body tt) refl
    handle_uplink-Outcome (some body) = elim (Bool-cases (is_empty (trim body))) [
      | inl blank ↦ rw blank (refused _ s (no_body blank) refl)
      | inr text ↦ rw text (after_parse body (json.uplink_from_str body) refl)
    ]
