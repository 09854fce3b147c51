-- ===== src/Dashboard/Shown.antt =====
-- The two pages over any store that keeps the contract: which forms they show.
use mathlib.Core.List.{Perm}
use super_victor.Prelude.{ℕ, Option, none, some, List, [], ◌∷◌, ◌++◌, ◌≡◌, refl, ◌∙◌, map, All}
use super_victor.Prelude.Text.{Text}
use super_victor.Prelude.Int.{ℤ}
use super_victor.Exec.{Result, ok, err, continue, pure, raise}
use super_victor.Exec
use super_victor.Json.{SerdeJson}
use super_victor.Models.{DeviceRecord, UplinkRecord, StoreError, device_not_found, store}
use super_victor.Store.{DeviceStore}
use super_victor.Store.Contract.{
  Registry, find, IsDeviceStore, IsReader, ListDevices, LatestUplinks, GetDevice, GetUplinks,
}
use super_victor.Store.Contract
use super_victor.Dashboard.{FleetRow, ensure_csrf}
use super_victor.Dashboard.Forms.{
  forms, status_post, register_post, toggle, blank, row_post, forms-fleet_page, forms-device_page,
}
use super_victor.Dashboard.Pages.{Page, fleet_page, device_page, fleet, device_detail, subject_of}
use super_victor.Dashboard.Texts.{device_rows, row_texts, device_rows-fleet_page}
use super_victor.Dashboard.Rows.{IsRow, reading, Rows, read, unread, fleet_rows-Rows}

module _ {V S : Type 0} (view : S → Registry V) (cookies : List (Option Text)) (fresh : Text)
    (s : S) where
  abbrev pub token : Text
  token = (ensure_csrf cookies fresh).0

  -- The fleet page has a row and a form for each device, and the form that registers.
  pub data FleetPage (now : ℕ) (subject : Text) : Result V Page × S → Type 0 where
    shown :
        (rows : List FleetRow) (page : Page) (s' : S)
        → Perm (map (λ row. row.device) rows) (view s).devices
        → All (IsRow now (view s).uplinks) rows
        → view s' ≡ view s
        → page.set_cookie ≡ (ensure_csrf cookies fresh).1
        → device_rows page.body ≡ map row_texts rows
        → forms page.body ≡ map (row_post token) rows ++ register_post (blank token) ∷ []
        → FleetPage now subject (ok page, s')
    failed :
        (e : StoreError) (s' : S) → view s' ≡ view s → FleetPage now subject (err (store e), s')

  pub data DevicePage (id : Text) : Result V Page × S → Type 0 where
    shown :
        (d : DeviceRecord) (page : Page) (s' : S)
        → find id (view s).devices ≡ some d
        → view s' ≡ view s
        → page.set_cookie ≡ (ensure_csrf cookies fresh).1
        → forms page.body ≡ status_post d.device_id (toggle token d) ∷ []
        → DevicePage id (ok page, s')
    missing :
        (s' : S)
        → find id (view s).devices ≡ none
        → view s' ≡ view s
        → DevicePage id (err (device_not_found id), s')
    failed : (e : StoreError) (s' : S) → view s' ≡ view s → DevicePage id (err (store e), s')

module _ {V S : Type 0} {st : DeviceStore V S} {view : S → Registry V} (reader : IsReader st view)
    (json : SerdeJson V) (get : Text → Option Text) (cookies : List (Option Text)) (fresh : Text)
    (s : S) where
  page_with : List FleetRow → Page
  page_with rows = record {
    set_cookie = (ensure_csrf cookies fresh).1;
    body = fleet_page rows (ensure_csrf cookies fresh).0 (subject_of json get);
  }

  after-Rows :
      (now : ℕ) {r : Result V (List FleetRow) × S}
      → Rows now view s r
      → FleetPage view cookies fresh s now
          (subject_of json get)
          (continue r.0 (λ rows t. (ok (page_with rows), t)) r.1)
  unfolding page_with
  after-Rows now (read rows s' p each same) =
      shown rows (page_with rows) s' p each same refl
        (device_rows-fleet_page rows (ensure_csrf cookies fresh).0 (subject_of json get))
        (forms-fleet_page rows (ensure_csrf cookies fresh).0 (subject_of json get))
  after-Rows now (unread e s' same) = failed e s' same

  -- Over any store whose lists keep the contract, the table of the fleet page has one row for each
  -- registered device, and shows in it the id, the status, the owner, the time of its newest uplink and
  -- the class of that time, or "never" and "unknown" if it has no uplink, and the word on its button. The page has a form for each row, which asks for the other status, and the form that
  -- registers, each with the token of the page. Nothing is changed, and only a failure of the store
  -- keeps the page away.
  pub fleet-FleetPage :
      (now : Option (ℕ × ℕ))
      → FleetPage view cookies fresh s
          (reading now)
          (subject_of json get)
          (fleet json st get cookies fresh now s)
  unfolding fleet page_with
  fleet-FleetPage now = after-Rows (reading now) (fleet_rows-Rows reader json s now)

module _ {V S : Type 0} {st : DeviceStore V S} {view : S → Registry V}
    (contract : IsDeviceStore st view) (reader : IsReader st view) (json : SerdeJson V)
    (get : Text → Option Text) (cookies : List (Option Text)) (fresh : Text) (as_i64 : V → Option ℤ)
    (points : List ℤ → Text) (s : S) where
  device_page_with : DeviceRecord → List (UplinkRecord V) → Page
  device_page_with d us = record {
    set_cookie = (ensure_csrf cookies fresh).1;
    body = device_page json as_i64 points d us (ensure_csrf cookies fresh).0 (subject_of json get);
  }

  after_uplinks :
      (id : Text) (d : DeviceRecord) (s' : S)
      → find id (view s).devices ≡ some d
      → view s' ≡ view s
      → {r : Result V (List (UplinkRecord V)) × S} → GetUplinks view s' id 20 r
      → DevicePage view cookies fresh s id
          (continue r.0 (λ us t. (ok (device_page_with d us), t)) r.1)
  unfolding device_page_with
  after_uplinks id d s' e same (Contract.newest all t p n f) =
      shown d _ t e (f ∙ same) refl (
        forms-device_page json as_i64 points d _ (ensure_csrf cookies fresh).0
          (subject_of json get))
  after_uplinks id d s' e same (Contract.failed x t f) = failed x t (f ∙ same)

  abbrev detail_of : Text → Option DeviceRecord → Exec.Exec S V Page
  detail_of id found = elim found [
    | some d ↦ Exec.◌>>=◌ (st.get_uplinks id 20) λ us. pure (device_page_with d us)
    | none ↦ raise (device_not_found id)
  ]

  after_get :
      (id : Text) (found : Option DeviceRecord) (s' : S)
      → find id (view s).devices ≡ found
      → view s' ≡ view s
      → DevicePage view cookies fresh s id (detail_of id found s')
  after_get id none s' e same = missing s' e same
  after_get id (some d) s' e same = after_uplinks id d s' e same (reader.get_uplinks id 20 s')

  after_device :
      (id : Text) {r : Result V (Option DeviceRecord) × S}
      → GetDevice view s id r
      → DevicePage view cookies fresh s id (continue r.0 (detail_of id) r.1)
  after_device id (Contract.found t e) = after_get id _ t refl e
  after_device id (Contract.failed t x e) = failed x t e

  -- The page of a registered device shows one form, which asks for the other status with the token of
  -- the page; for an unknown device there is no page. Neither changes anything.
  pub device_detail-DevicePage :
      (id : Text)
      → DevicePage view cookies fresh s id
          (device_detail json st get cookies fresh as_i64 points id s)
  unfolding device_detail device_page_with
  device_detail-DevicePage id = after_device id (contract.get_device id s)
