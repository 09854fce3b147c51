-- ===== src/Dashboard/Views.antt =====
-- supervictor/endpoint/src/ui/views.rs: the pages of the dashboard, as the trees that the templates
-- describe. What maud makes of a tree (the tags, the escaping of texts and attribute values) is not
-- part of the repository. The coordinates of the sparkline are computed with floating-point numbers:
-- `points` stands for their text. A Boolean attribute has the empty value.
use super_victor.Prelude.{Option, none, some, List, [], ◌∷◌, ◌++◌, if◌then◌else◌}
use super_victor.Prelude.Text.{Text, codes, ◌≟◌}
use super_victor.Models.{DeviceRecord, active, inactive}
use super_victor.Fleet.{label}
use super_victor.Dashboard.{FleetRow}
use super_victor.Dashboard.Script.{live_script}

-- A sequence of nodes: nothing, an escaped text and the rest, a text that is passed on as it is and
-- the rest, or an element with its attributes, what is inside it, and the rest.
pub data Markup : Type 0 where
  nothing : Markup
  escaped : Text → Markup → Markup
  raw : Text → Markup → Markup
  element : Text → List (Text × Text) → Markup → Markup → Markup

infixr 40 ◌<>◌
abbrev pub ◌<>◌ : Markup → Markup → Markup
nothing <> n = n
escaped t m <> n = escaped t (m <> n)
raw t m <> n = raw t (m <> n)
element tag attrs inside m <> n = element tag attrs inside (m <> n)

abbrev pub say : Text → Markup
say t = escaped t nothing

abbrev pub el : Text → List (Text × Text) → Markup → Markup
el tag attrs inside = element tag attrs inside nothing

abbrev pub class : Text → Text × Text
class t = (codes "class", t)

-- `input type=… name=… value=…` and the like
abbrev pub input : Text → List (Text × Text) → Markup
input kind attrs = el (codes "input") ((codes "type", kind) ∷ attrs) nothing

abbrev pub hidden : Text → Text → Markup
hidden name value = input (codes "hidden") ((codes "name", name) ∷ (codes "value", value) ∷ [])

abbrev pub badge : Text → Text → Markup
badge classes word = el (codes "span") (class (classes ++ codes " " ++ word) ∷ []) (say word)

unfoldable pub layout : Text → Text → Markup → Markup
layout title subject body = raw (codes "<!DOCTYPE html>") (
    el (codes "html") ((codes "lang", codes "en") ∷ []) (
      el (codes "head") [] (
        el (codes "meta") ((codes "charset", codes "utf-8") ∷ []) nothing
        <> el (codes "meta")
            ((codes "name", codes "viewport")
              ∷ (codes "content", codes "width=device-width, initial-scale=1")
              ∷ [])
            nothing
        <> el (codes "title") [] (say title <> say (codes " — supervictor fleet"))
        <> el (codes "link")
            ((codes "rel", codes "stylesheet") ∷ (codes "href", codes "/ui/assets/style.css") ∷ [])
            nothing)
      <> el (codes "body") [] (
          el (codes "header") [] (
            el (codes "h1") []
              (el (codes "a") ((codes "href", codes "/ui") ∷ []) (say (codes "supervictor fleet")))
            <> el (codes "span") ((codes "id", codes "live-dot") ∷ []) (say (codes "static"))
            <> el (codes "span") (class (codes "subject") ∷ []) (say subject))
          <> el (codes "main") [] body
          <> el (codes "script") [] (raw live_script nothing))))

-- The status that the toggle of a device asks for, and the word on its button.
unfoldable pub next_status : DeviceRecord → Text × Text
next_status device =
    if device.status ≟ active then (inactive, codes "revoke") else (active, codes "reactivate")

abbrev pub status_path : Text → Text
status_path id = codes "/ui/devices/" ++ id ++ codes "/status"

unfoldable pub status_form : DeviceRecord → Text → Markup
unfolding next_status
status_form device csrf =
    let (next, verb) = next_status device in
    el (codes "form")
      (class (codes "inline")
        ∷ (codes "method", codes "post")
        ∷ (codes "action", status_path device.device_id)
        ∷ [])
      (hidden (codes "csrf") csrf
        <> hidden (codes "status") next
        <> el (codes "button") ((codes "type", codes "submit") ∷ []) (say verb))

unfoldable pub shown_or : Option Text → Text → Text
shown_or (some t) d = t
shown_or none d = d

-- One row of the table of `fleet_page`.
unfoldable pub fleet_row : Text → FleetRow → Markup
unfolding status_form shown_or
fleet_row csrf row = el (codes "tr") ((codes "data-device", row.device.device_id) ∷ []) (
    el (codes "td") [] (
      el (codes "a") ((codes "href", codes "/ui/devices/" ++ row.device.device_id) ∷ [])
        (say row.device.device_id))
    <> el (codes "td") [] (badge (codes "badge") row.device.status)
    <> el (codes "td") [] (say row.device.owner_id)
    <> el (codes "td") (class (codes "last-uplink") ∷ [])
        (say (shown_or row.last_uplink (codes "never")))
    <> el (codes "td") [] (badge (codes "badge staleness") (label row.staleness))
    <> el (codes "td") [] (status_form row.device csrf))

-- `@for`
unfoldable pub each : {A : Type 0} → (A → Markup) → List A → Markup
each f [] = nothing
each f (x ∷ xs) = f x <> each f xs

abbrev pub heads : List Text → Markup
heads names = each (λ name. el (codes "th") [] (say name)) names
