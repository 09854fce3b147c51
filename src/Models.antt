-- ===== src/Models.antt =====
-- Records, wire types and errors of the endpoint: supervictor/common/src/models.rs and status.rs,
-- supervictor/endpoint/src/models.rs, error.rs and store/mod.rs. A JSON value is of the type `V` that
-- serde_json provides; an `i32` is an integer.
use super_victor.Prelude.{ℕ, Option, none, some}
use super_victor.Prelude.Text.{Text, codes}
use super_victor.Prelude.Int.{ℤ}

abbrev pub active : Text
active = codes "active"

abbrev pub inactive : Text
inactive = codes "inactive"

pub record UplinkMessage : Type 0 where
  pub id : Text
  pub current : ℤ
  pub fw : Option Text

pub record RegisterDeviceRequest : Type 0 where
  pub device_id : Text
  pub owner_id : Text
  pub subject_dn : Option Text

pub record DeviceResponse : Type 0 where
  pub device_id : Text
  pub owner_id : Text
  pub subject_dn : Option Text
  pub status : Text
  pub created_at : Text

pub record DeviceRecord : Type 0 where
  pub device_id : Text
  pub owner_id : Text
  pub subject_dn : Option Text
  pub status : Text
  pub created_at : Text

pub record UplinkRecord (V : Type 0) : Type 0 where
  pub device_id : Text
  pub received_at : Text
  pub payload : V

pub record HelloResponse : Type 0 where
  pub message : Text
  pub client_subject : Option Text

pub record UplinkResponse : Type 0 where
  pub message : Text
  pub device_id : Text
  pub current : ℤ
  pub client_subject : Option Text

pub record ErrorResponse (V : Type 0) : Type 0 where
  pub error : Text
  pub detail : Option V

-- `DeviceResponse::from`
unfoldable pub response_of : DeviceRecord → DeviceResponse
response_of r = record {
  device_id = r.device_id;
  owner_id = r.owner_id;
  subject_dn = r.subject_dn;
  status = r.status;
  created_at = r.created_at;
}

-- `op` and `detail` of a storage failure.
pub data StoreError : Type 0 where
  io : Text → Text → StoreError
  serde : Text → Text → StoreError
  poisoned : StoreError

pub data AppError (V : Type 0) : Type 0 where
  missing_body : AppError V
  invalid_payload : Text → Option V → AppError V
  device_already_exists : Text → AppError V
  device_not_found : Text → AppError V
  device_not_registered : AppError V
  store : StoreError → AppError V
  config : Text → AppError V

-- Status code and body of `AppError::into_response`; `string` is `serde_json::Value::String`.
unfoldable pub into_response : {V : Type 0} → (Text → V) → AppError V → ℕ × ErrorResponse V
into_response string missing_body =
    (400, record { error = codes "Missing request body"; detail = none })
into_response string (invalid_payload detail (some structured)) =
    (422, record { error = codes "Invalid payload"; detail = some structured })
into_response string (invalid_payload detail none) =
    (422, record { error = codes "Invalid payload"; detail = some (string detail) })
into_response string (device_already_exists id) =
    (409, record { error = codes "Device already exists"; detail = none })
into_response string (device_not_found id) =
    (404, record { error = codes "Device not found"; detail = none })
into_response string device_not_registered =
    (403, record { error = codes "Device not registered or inactive"; detail = none })
into_response string (store e) =
    (500, record { error = codes "Internal server error"; detail = none })
into_response string (config e) =
    (500, record { error = codes "Configuration error"; detail = none })
