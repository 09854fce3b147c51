-- ===== src/Dashboard/Texts.antt =====
-- What the rows of the table of devices show, read off the page.
use super_victor.Prelude.{
  Option, none, some, List, [], ◌∷◌, ◌++◌, ◌≡◌, refl, sym, ◌∙◌, map, append_assoc, append-nil,
  Bool-cases, inl, inr, if◌then◌else◌,
}
use super_victor.Prelude.Text.{Text, codes, ◌≟◌}
use super_victor.Models.{DeviceRecord, active}
use super_victor.Fleet.{Freshness, fresh, stale, dark, unknown, label}
use super_victor.Dashboard.{FleetRow}
use super_victor.Dashboard.Views.{
  Markup, nothing, escaped, raw, element, ◌<>◌, next_status, status_form, shown_or, fleet_row, each,
  layout,
}
use super_victor.Dashboard.Pages.{register_form, fleet_page}

-- The texts that a reader of the page sees, in order.
abbrev pub texts : Markup → List Text
texts nothing = []
texts (escaped t m) = t ∷ texts m
texts (raw t m) = texts m
texts (element tag attrs inside m) = texts inside ++ texts m

abbrev pub attribute_of : Text → List (Text × Text) → Option Text
attribute_of name [] = none
attribute_of name ((k, v) ∷ attrs) = if k ≟ name then some v else attribute_of name attrs

abbrev pub device_row : Text → Option Text → List Text → List (Text × List Text)
device_row tag none shown = []
device_row tag (some id) shown = if tag ≟ codes "tr" then (id, shown) ∷ [] else []

-- The rows of tables that belong to a device: its id in the attribute `data-device`, and the texts of
-- the row.
unfoldable pub device_rows : Markup → List (Text × List Text)
device_rows nothing = []
device_rows (escaped t m) = device_rows m
device_rows (raw t m) = device_rows m
device_rows (element tag attrs inside m) =
    device_row tag (attribute_of (codes "data-device") attrs) (texts inside)
    ++ device_rows inside
    ++ device_rows m

abbrev pub class_word : Freshness → Text
class_word fresh = codes "fresh"
class_word stale = codes "stale"
class_word dark = codes "dark"
class_word unknown = codes "unknown"

abbrev pub time_or_never : Option Text → Text
time_or_never (some time) = time
time_or_never none = codes "never"

-- What the row of a device is to show: its id, its status, its owner, the time of its last uplink or
-- that there is none, the class, and the word on the button.
abbrev pub row_texts : FleetRow → Text × List Text
row_texts row = (
  row.device.device_id,
  row.device.device_id
      ∷ row.device.status
      ∷ row.device.owner_id
      ∷ time_or_never row.last_uplink
      ∷ class_word row.staleness
      ∷ (if row.device.status ≟ active then codes "revoke" else codes "reactivate")
      ∷ [],
)

device_rows-append : (m n : Markup) → device_rows (m <> n) ≡ device_rows m ++ device_rows n
unfolding device_rows
device_rows-append nothing n = refl
device_rows-append (escaped t m) n = device_rows-append m n
device_rows-append (raw t m) n = device_rows-append m n
device_rows-append (element tag attrs inside m) n =
    rw (device_rows-append m n) (sym (append_assoc _ (device_rows m) (device_rows n)))

label-class_word : (f : Freshness) → label f ≡ class_word f
unfolding label
label-class_word fresh = refl
label-class_word stale = refl
label-class_word dark = refl
label-class_word unknown = refl

shown_or-time_or_never : (t : Option Text) → shown_or t (codes "never") ≡ time_or_never t
unfolding shown_or
shown_or-time_or_never (some t) = refl
shown_or-time_or_never none = refl

next_status_word :
    (d : DeviceRecord)
    → (next_status d).1 ≡ (if d.status ≟ active then codes "revoke" else codes "reactivate")
unfolding next_status
next_status_word d = elim (Bool-cases (d.status ≟ active)) [ inl e ↦ rw e refl | inr e ↦ rw e refl ]

device_rows-fleet_row :
    (csrf : Text) (row : FleetRow) → device_rows (fleet_row csrf row) ≡ row_texts row ∷ []
unfolding device_rows fleet_row status_form
device_rows-fleet_row csrf row =
    rw
      (
        shown_or-time_or_never row.last_uplink,
        label-class_word row.staleness,
        next_status_word row.device,
      )
      refl

device_rows-each :
    (csrf : Text) (rows : List FleetRow)
    → device_rows (each (fleet_row csrf) rows) ≡ map row_texts rows
unfolding each device_rows
device_rows-each csrf [] = refl
device_rows-each csrf (row ∷ rows) =
    device_rows-append (fleet_row csrf row) (each (fleet_row csrf) rows)
    ∙ rw (device_rows-fleet_row csrf row, device_rows-each csrf rows) refl

-- The table of devices on the fleet page has one row for each entry, which shows what it is to show.
pub device_rows-fleet_page :
    (rows : List FleetRow) (csrf subject : Text)
    → device_rows (fleet_page rows csrf subject) ≡ map row_texts rows
unfolding fleet_page device_rows layout register_form
device_rows-fleet_page rows csrf subject = rw (device_rows-each csrf rows) (simp append-nil)
