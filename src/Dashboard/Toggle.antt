-- ===== src/Dashboard/Toggle.antt =====
-- What the button of a device does when it is pressed on a page of the dashboard.
use super_victor.Prelude.{Option, some, none, List, [], ◌∷◌, ◌≡◌, ◌≢◌, if◌then◌else◌}
use super_victor.Prelude.Text.{Text, codes, IsAscii, ◌≟◌}
use super_victor.Exec.{pure}
use super_victor.Exec
use super_victor.Models.{DeviceRecord, active, inactive}
use super_victor.Store.{DeviceStore}
use super_victor.Store.Contract.{Occurs}
use super_victor.Dashboard.{
  StatusForm, csrf_cookie, cookie_value, ensure_csrf, set_status, redirect,
}
use super_victor.Dashboard.Views.{status_path}
use super_victor.Dashboard.Forms.{Post}
use super_victor.Dashboard.Token.{IsToken, cookie_headers, next_cookie}

-- The value of a field of a submitted form.
abbrev pub field : Text → List (Text × Text) → Option Text
field name [] = none
field name ((k, v) ∷ more) = if k ≟ name then some v else field name more

-- The form that the handler is given for the fields of a post.
abbrev pub read_status : List (Text × Text) → Option StatusForm
read_status fields_in = elim (field (codes "csrf") fields_in) [
  | some csrf ↦ elim (field (codes "status") fields_in) [
    | some status ↦ some (record { csrf = csrf; status = status })
    | none ↦ none
  ]
  | none ↦ none
]

abbrev pub other_status : DeviceRecord → Text
other_status d = if d.status ≟ active then inactive else active

-- Among the forms of a page is the button of a device: a post to the path of its status, for which the
-- handler, with the cookies of the next request, does exactly what the store does when it is asked for
-- the other status of the device, and redirects.
pub record IsPressed {V S : Type 0} (st : DeviceStore V S) (cookies : List (Option Text))
    (shown : List Post) (d : DeviceRecord) (s : S) : Type 0 where
  pub post : Post
  pub occurs : Occurs post shown
  pub method : post.method ≡ codes "post"
  pub action : post.action ≡ status_path d.device_id
  pub form : StatusForm
  pub submitted : read_status post.fields_in ≡ some form
  pub done :
      set_status st cookies d.device_id form s
      ≡ Exec.◌>>=◌ (st.set_device_status d.device_id (other_status d)) (λ _. pure redirect) s

module _ {V S : Type 0} (st : DeviceStore V S) (cookie : Option Text) (fresh : Text)
    (is_token : IsToken fresh)
    (ascii : (c : Text) → cookie_value (cookie_headers cookie) csrf_cookie ≡ some c → IsAscii c)
    (filled : cookie_value (cookie_headers cookie) csrf_cookie ≢ some []) (s : S) where
  -- What the page is made with, and what the browser sends next.
  abbrev page_token : Text
  page_token = (ensure_csrf (cookie_headers cookie) fresh).0

  abbrev next_headers : List (Option Text)
  next_headers = cookie_headers (next_cookie cookie (ensure_csrf (cookie_headers cookie) fresh).1)
