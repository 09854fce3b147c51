-- ===== src/Json.antt =====
-- What the endpoint uses of serde_json, which is not part of the repository: a type `V` of values
-- with its constructors and readers. The laws are those of its documentation, on the values that the
-- program builds.
use super_victor.Prelude.{Option, none, some, List, [], ◌∷◌, ◌≡◌, ◌≢◌}
use super_victor.Prelude.Text.{Text}
use super_victor.Prelude.Int.{ℤ}
use super_victor.Models.{UplinkMessage, RegisterDeviceRequest}

-- A deserialised value, or the message of the error.
pub data Parsed (A : Type 0) : Type 0 where
  value : A → Parsed A
  invalid : Text → Parsed A

pub record SerdeJson (V : Type 0) : Type 0 where
  pub null : V
  pub string : Text → V
  pub number : ℤ → V
  -- `json!({ key: value, … })`
  pub object : List (Text × V) → V
  -- `value[key] = v`
  pub set_index : V → Text → V → V
  pub get : V → Text → Option V
  pub as_str : V → Option Text
  pub to_string : V → Text
  -- `serde_json::from_str` at the three types that the program reads
  pub value_from_str : Text → Parsed V
  pub uplink_from_str : Text → Parsed UplinkMessage
  pub register_from_str : Text → Parsed RegisterDeviceRequest

-- Documented behaviour on the payload that `handle_uplink` stores.
pub record PayloadLaws {V : Type 0} (json : SerdeJson V) : Type 0 where
  pub get_set : (v w : V) (k : Text) → json.get (json.set_index v k w) k ≡ some w
  pub get_absent : (k j : Text) (v : V) → j ≢ k → json.get (json.object ((k, v) ∷ [])) j ≡ none
  pub as_str-string : (t : Text) → json.as_str (json.string t) ≡ some t
