-- ===== src/Store/Stored.antt =====
-- What the backends store: the devices, and the uplinks with their payloads as text; and the registry
-- that its callers see, with the payloads parsed, for supervictor/endpoint/src/store/sqlite.rs and
-- supervictor/endpoint/src/store/dynamo.rs.
use super_victor.Prelude.{◌≡◌, refl, ap, true, List, [], ◌∷◌, map, All, inl, inr, Bool-cases}
use super_victor.Prelude.Text.{Text, ◌≟◌}
use super_victor.Json.{Parsed, value, invalid, SerdeJson}
use super_victor.Models.{UplinkRecord}
use super_victor.Store.Contract.{Registry, uplinks_of, IsNewestFirst, Occurs, IsNewest}
use super_victor.Prelude.Order.{le_text}
use super_victor.Store.Contract

abbrev pub Tables : Type 0
Tables = Registry Text

abbrev pub unwrap_or : {V : Type 0} → Parsed V → V → V
unwrap_or (value v) w = v
unwrap_or (invalid _) w = w

-- `serde_json::from_str(…).unwrap_or(Value::Null)`
unfoldable pub payload_of_text : {V : Type 0} → SerdeJson V → Text → V
payload_of_text json t = unwrap_or (json.value_from_str t) json.null

-- An uplink as the backend's callers see it.
unfoldable pub decode : {V : Type 0} → SerdeJson V → UplinkRecord Text → UplinkRecord V
decode json u = record {
  device_id = u.device_id;
  received_at = u.received_at;
  payload = payload_of_text json u.payload;
}

-- The registry that the tables stand for.
unfoldable pub registry : {V : Type 0} → SerdeJson V → Tables → Registry V
registry json t = record { devices = t.devices; uplinks = map (decode json) t.uplinks }

module _ {V : Type 0} (json : SerdeJson V) where
  -- The text of a payload is decoded to it.
  pub decode-payload :
      (u : UplinkRecord V) (p : Text)
      → json.value_from_str p ≡ value u.payload
      → decode json (record { device_id = u.device_id; received_at = u.received_at; payload = p })
        ≡ u
  unfolding decode payload_of_text
  decode-payload u p e =
      ap
        (λ r. record {
          device_id = u.device_id;
          received_at = u.received_at;
          payload = unwrap_or r json.null;
        })
        e

  pub uplinks_of-decode :
      (id : Text) (us : List (UplinkRecord Text))
      → uplinks_of id (map (decode json) us) ≡ map (decode json) (uplinks_of id us)
  unfolding decode
  uplinks_of-decode id [] = refl
  uplinks_of-decode id (u ∷ us) = elim (Bool-cases (u.device_id ≟ id)) [
    | inl e ↦ rw (e, uplinks_of-decode id us) refl
    | inr e ↦ rw (e, uplinks_of-decode id us) refl
  ]

  pub All-decode :
      (P : Text → Text → Type 0) (us : List (UplinkRecord Text))
      → All (λ u. P u.device_id u.received_at) us
      → All (λ u. P u.device_id u.received_at) (map (decode json) us)
  unfolding decode
  All-decode P [] h = tt
  All-decode P (u ∷ us) h = (h.0, All-decode P us h.1)

  pub IsNewestFirst-decode :
      (us : List (UplinkRecord Text)) → IsNewestFirst us → IsNewestFirst (map (decode json) us)
  unfolding decode
  IsNewestFirst-decode [] h = tt
  IsNewestFirst-decode (u ∷ us) (h, hs) =
      (All-decode (λ _ t. le_text t u.received_at ≡ true) us h, IsNewestFirst-decode us hs)

  pub Occurs-decode :
      (u : UplinkRecord Text) (us : List (UplinkRecord Text))
      → Occurs u us
      → Occurs (decode json u) (map (decode json) us)
  Occurs-decode u _ (Contract.here y xs e) = Contract.here _ _ (ap (decode json) e)
  Occurs-decode u _ (Contract.there y xs p) = Contract.there _ _ (Occurs-decode u xs p)

  -- An uplink of the registry is one of the table.
  pub Occurs-encode :
      (v : UplinkRecord V) (us : List (UplinkRecord Text))
      → Occurs v (map (decode json) us)
      → (u : UplinkRecord Text) × Occurs u us × (v ≡ decode json u)
  Occurs-encode v [] p = elim p [ ]
  Occurs-encode v (u ∷ us) (Contract.here _ _ e) = (u, Contract.here u us refl, e)
  Occurs-encode v (u ∷ us) (Contract.there _ _ p) =
      let (w, q, e) = Occurs-encode v us p in (w, Contract.there u us q, e)

  pub All-IsNewest :
      (all us : List (UplinkRecord Text))
      → All (λ u. IsNewest u all) us
      → All (λ u. IsNewest u (map (decode json) all)) (map (decode json) us)
  unfolding decode
  All-IsNewest all [] h = tt
  All-IsNewest all (u ∷ us) (h, hs) = (
    record {
      occurs = Occurs-decode u all h.occurs;
      newest = All-decode (λ id t. id ≡ u.device_id → le_text t u.received_at ≡ true) all h.newest;
    },
    All-IsNewest all us hs,
  )
