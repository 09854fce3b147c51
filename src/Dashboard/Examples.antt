-- ===== src/Dashboard/Examples.antt =====
-- The dashboard's forms on test data.
use super_victor.Prelude.{
  some_same, suc, ◌≡◌, ◌≢◌, refl, sym, ◌∙◌, ◌↔◌, Bool, true, Option, none, some, List, [], ◌∷◌,
  ◌++◌, arith, ◌==◌, length, any, take, drop,
}
use mathlib.Core.Path.{subst}
use super_victor.Prelude.Text.{Text, codes, IsAscii}
use super_victor.Prelude.Str.{trim, split, split_once}
use super_victor.Json.{Parsed, value, invalid, SerdeJson}
use super_victor.Models.{RegisterDeviceRequest}
use super_victor.Store.Samples.{
  Value, null, string, number, object, entry, memory, memory-IsDeviceStore, one_device, get,
  set_index, as_str,
}
use super_victor.Dashboard.{
  csrf_cookie, cookie_value, csrf_ok, RegisterForm, StatusForm, set_status,
}
use super_victor.Dashboard.Csrf.{csrf_ok_iff}
use super_victor.Dashboard.Actions.{StatusOutcome, set_status-Outcome}

abbrev cookies : List (Option Text)
cookies = none ∷ some (codes "a=b; sv_csrf=c0ffee") ∷ []

found : cookie_value cookies csrf_cookie ≡ some (codes "c0ffee")
unfolding cookie_value trim split split_once
found = refl

found_IsAscii : (c : Text) → cookie_value cookies csrf_cookie ≡ some c → IsAscii c
found_IsAscii c e = subst IsAscii (some_same (sym found ∙ e)) (omega arith)

csrf_ok_iff_example :
    (csrf_ok cookies (codes "c0ffee") ≡ true)
    ↔ ((cookie_value cookies csrf_cookie ≡ some (codes "c0ffee")) × (codes "c0ffee" ≢ []))
csrf_ok_iff_example = csrf_ok_iff cookies (codes "c0ffee") (omega arith) found_IsAscii

abbrev inactive_form : StatusForm
inactive_form = record { csrf = codes "c0ffee"; status = codes "inactive" }

set_status-Outcome_example :
    StatusOutcome
      (λ t. t)
      cookies
      (codes "dev-1")
      inactive_form
      one_device
      (set_status memory cookies (codes "dev-1") inactive_form one_device)
set_status-Outcome_example =
    set_status-Outcome memory-IsDeviceStore cookies one_device (codes "dev-1") inactive_form

-- A writer of the form's object that keeps the lengths of the fields, and its reader.
unfoldable write_subject : Value → Text
write_subject (string t) = 1 ∷ t
write_subject v = 0 ∷ []

unfoldable write_fields : Value → Text
unfolding write_subject
write_fields (entry _ (string id) (entry _ (string owner) (entry _ subject _))) =
    length id ∷ (id ++ length owner ∷ (owner ++ write_subject subject))
write_fields v = []

unfoldable read_subject : Text → Text → Text → Parsed RegisterDeviceRequest
read_subject id owner (suc _ ∷ t) =
    value (record { device_id = id; owner_id = owner; subject_dn = some t })
read_subject id owner _ = value (record { device_id = id; owner_id = owner; subject_dn = none })

unfoldable read_owner : Text → Text → Parsed RegisterDeviceRequest
unfolding read_subject
read_owner id (n ∷ t) = read_subject id (take n t) (drop n t)
read_owner id [] = invalid []

unfoldable read_fields : Text → Parsed RegisterDeviceRequest
unfolding read_owner
read_fields (_ ∷ n ∷ t) = read_owner (take n t) (drop n t)
read_fields _ = invalid []

abbrev json : SerdeJson Value
json = record {
  null = null;
  string = string;
  number = number;
  object = object;
  set_index = set_index;
  get = get;
  as_str = as_str;
  to_string = λ v. b'{' ∷ write_fields v;
  value_from_str = λ t. invalid [];
  uplink_from_str = λ t. invalid [];
  register_from_str = read_fields;
}

has_brace : Text → Bool
has_brace t = any (λ c. c == b'{') t

abbrev form : RegisterForm
form = record {
  csrf = codes "c0ffee";
  device_id = codes "dev-2";
  owner_id = codes "ann";
  subject_dn = codes " ";
}
