-- ===== src/Dashboard/Forms.antt =====
-- The forms of the pages: what a browser sends when one is submitted.
use super_victor.Prelude.{
  Option, List, [], ◌∷◌, ◌++◌, ◌≡◌, refl, sym, ◌∙◌, map, append_assoc, append-nil, Bool-cases, inl,
  inr, leb, length, if◌then◌else◌,
}
use super_victor.Prelude.Text.{Text, codes, ◌≟◌}
use super_victor.Prelude.Int.{ℤ}
use super_victor.Json.{SerdeJson}
use super_victor.Models.{DeviceRecord, UplinkRecord, active, inactive}
use super_victor.Dashboard.{FleetRow, StatusForm, RegisterForm}
use super_victor.Dashboard.Views.{
  Markup, nothing, escaped, raw, element, ◌<>◌, status_path, next_status, status_form, fleet_row,
  each, layout,
}
use super_victor.Dashboard.Pages.{
  register_form, fleet_page, device_page, chart, uplink_table, payload_row, currents, sparkline,
}

-- The value of an attribute, the empty text without it.
abbrev attribute : Text → List (Text × Text) → Text
attribute name [] = []
attribute name ((k, v) ∷ attrs) = if k ≟ name then v else attribute name attrs

-- The names and values of the inputs.
abbrev fields : Markup → List (Text × Text)
fields nothing = []
fields (escaped t m) = fields m
fields (raw t m) = fields m
fields (element tag attrs inside m) =
    (if tag ≟ codes "input"
      then (attribute (codes "name") attrs, attribute (codes "value") attrs) ∷ []
      else [])
    ++ fields inside
    ++ fields m

pub record Post : Type 0 where
  pub method : Text
  pub action : Text
  pub fields_in : List (Text × Text)

unfoldable pub forms : Markup → List Post
forms nothing = []
forms (escaped t m) = forms m
forms (raw t m) = forms m
forms (element tag attrs inside m) =
    (if tag ≟ codes "form"
      then record {
        method = attribute (codes "method") attrs;
        action = attribute (codes "action") attrs;
        fields_in = fields inside;
      }
        ∷ []
      else [])
    ++ forms inside
    ++ forms m

pub forms-append : (m n : Markup) → forms (m <> n) ≡ forms m ++ forms n
unfolding forms
forms-append nothing n = refl
forms-append (escaped t m) n = forms-append m n
forms-append (raw t m) n = forms-append m n
forms-append (element tag attrs inside m) n =
    rw (forms-append m n) (sym (append_assoc _ (forms m) (forms n)))

-- What the two handlers read.
abbrev pub status_post : Text → StatusForm → Post
status_post id form = record {
  method = codes "post";
  action = status_path id;
  fields_in = (codes "csrf", form.csrf) ∷ (codes "status", form.status) ∷ [];
}

abbrev pub register_post : RegisterForm → Post
register_post form = record {
  method = codes "post";
  action = codes "/ui/devices";
  fields_in =
      (codes "csrf", form.csrf)
      ∷ (codes "device_id", form.device_id)
      ∷ (codes "owner_id", form.owner_id)
      ∷ (codes "subject_dn", form.subject_dn)
      ∷ [];
}

-- The status form of a device asks for the other status.
abbrev pub toggle : Text → DeviceRecord → StatusForm
toggle csrf device = record {
  csrf = csrf;
  status = if device.status ≟ active then inactive else active;
}

abbrev pub blank : Text → RegisterForm
blank csrf = record { csrf = csrf; device_id = []; owner_id = []; subject_dn = [] }

forms-status_form :
    (d : DeviceRecord) (csrf : Text)
    → forms (status_form d csrf) ≡ status_post d.device_id (toggle csrf d) ∷ []
unfolding forms status_form next_status
forms-status_form d csrf = elim (Bool-cases (d.status ≟ active)) [
  | inl e ↦ rw e refl
  | inr e ↦ rw e refl
]

forms-fleet_row :
    (csrf : Text) (row : FleetRow)
    → forms (fleet_row csrf row) ≡ status_post row.device.device_id (toggle csrf row.device) ∷ []
unfolding forms fleet_row
forms-fleet_row csrf row = rw (forms-status_form row.device csrf) refl

forms-each :
    {A : Type 0} (f : A → Markup) (post : A → Post)
    → ((x : A) → forms (f x) ≡ post x ∷ [])
    → (xs : List A) → forms (each f xs) ≡ map post xs
unfolding each forms
forms-each f post one [] = refl
forms-each f post one (x ∷ xs) =
    forms-append (f x) (each f xs) ∙ rw (one x, forms-each f post one xs) refl

forms-register_form : (csrf : Text) → forms (register_form csrf) ≡ register_post (blank csrf) ∷ []
unfolding forms register_form
forms-register_form csrf = refl

abbrev pub row_post : Text → FleetRow → Post
row_post csrf row = status_post row.device.device_id (toggle csrf row.device)

pub forms-fleet_page :
    (rows : List FleetRow) (csrf subject : Text)
    → forms (fleet_page rows csrf subject)
      ≡ map (row_post csrf) rows ++ register_post (blank csrf) ∷ []
unfolding fleet_page forms layout
forms-fleet_page rows csrf subject =
    rw (forms-each (fleet_row csrf) (row_post csrf) (forms-fleet_row csrf) rows) (simp append-nil)

module _ {V : Type 0} (json : SerdeJson V) (as_i64 : V → Option ℤ) (points : List ℤ → Text) where
  forms-uplinks :
      (us : List (UplinkRecord V)) → forms (each (payload_row json as_i64 points) us) ≡ []
  unfolding forms each payload_row
  forms-uplinks [] = refl
  forms-uplinks (u ∷ us) = forms-uplinks us

  forms-uplink_table :
      (us : List (UplinkRecord V)) → forms (uplink_table json as_i64 points us) ≡ []
  unfolding forms uplink_table each
  forms-uplink_table [] = refl
  forms-uplink_table (u ∷ us) = rw (forms-uplinks (u ∷ us)) refl

  forms-chart : (values : List ℤ) → forms (chart json as_i64 points values) ≡ []
  unfolding forms chart sparkline
  forms-chart values = elim (Bool-cases (leb 2 (length values))) [
    | inl e ↦ rw e refl
    | inr e ↦ rw e refl
  ]

  pub forms-device_page :
      (d : DeviceRecord) (us : List (UplinkRecord V)) (csrf subject : Text)
      → forms (device_page json as_i64 points d us csrf subject)
        ≡ status_post d.device_id (toggle csrf d) ∷ []
  unfolding device_page forms layout
  forms-device_page d us csrf subject =
      elim (Bool-cases (leb 2 (length (currents json as_i64 points us)))) [
        | inl e ↦ elim (Bool-cases (d.status ≟ active)) [
          | inl f ↦ rw (e, f, forms-uplink_table us) refl
          | inr f ↦ rw (e, f, forms-uplink_table us) refl
        ]
        | inr e ↦ elim (Bool-cases (d.status ≟ active)) [
          | inl f ↦ rw (e, f, forms-uplink_table us) refl
          | inr f ↦ rw (e, f, forms-uplink_table us) refl
        ]
      ]
