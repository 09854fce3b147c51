-- ===== src/Routes/Publish.antt =====
-- What the uplink route tells the dashboard.
use super_victor.Prelude.{
  ℕ, false, Option, some, List, [], ◌∷◌, ◌++◌, ◌≡◌, none-some, some_same, ap, ◌∙◌, Bool-cases, inl,
  inr,
}
use super_victor.Prelude.Text.{Text}
use super_victor.Prelude.Str.{is_empty}
use super_victor.Exec.{Result, ok, err}
use super_victor.Json.{value, SerdeJson}
use super_victor.Models.{AppError, UplinkMessage, UplinkResponse}
use super_victor.Time.{now_rfc3339}
use super_victor.Events.{UplinkEvent}
use super_victor.Store.{DeviceStore}
use super_victor.Store.Contract.{Registry, IsDeviceStore}
use super_victor.Handlers.Uplink.{Outcome, accepted, refused, stored_record, handle_uplink-Outcome}
use super_victor.Routes.{uplink, body_opt, answer_uplink, published}

module _ {V S : Type 0} (json : SerdeJson V) (view : S → Registry V) where
  -- A message that is stored is published once, with its device and its reading and the time of the
  -- second clock reading; a request that is refused is not published, and nothing is stored.
  pub data Publishes (now now' : Option (ℕ × ℕ)) (body : Text) (s : S)
      : (Result V UplinkResponse × S) × List UplinkEvent → Type 0 where
    published_once :
        (m : UplinkMessage) (r : UplinkResponse) (s' : S)
        → json.uplink_from_str body ≡ value m
        → view s' ≡ record (view s) { uplinks = (view s).uplinks ++ stored_record json m now ∷ [] }
        → Publishes now now' body s (
          (ok r, s'),
          record { device_id = m.id; current = m.current; received_at = now_rfc3339 now' } ∷ [],
        )
    unpublished :
        (e : AppError V) (s' : S) → view s' ≡ view s → Publishes now now' body s ((err e, s'), [])

body_opt-some : (body b : Text) → body_opt body ≡ some b → body ≡ b
unfolding body_opt
body_opt-some body b e = elim (Bool-cases (is_empty body)) [
  | inl h ↦ absurd (none-some (rw h at e))
  | inr h ↦ some_same (rw h at e)
]

of_outcome :
    {V S : Type 0} {json : SerdeJson V} {view : S → Registry V} {subject : Option Text}
    {now now' : Option (ℕ × ℕ)} {body : Text} {s : S} {out : Result V UplinkResponse × S}
    → Outcome json view (body_opt body) subject false now s out
    → Publishes json view now now' body s (out, published now' out.0)
unfolding published
of_outcome {json = json} {body = body} (accepted b m s2 e f g h) =
    published_once m _ s2 (ap json.uplink_from_str (body_opt-some body b e) ∙ f) h
of_outcome (refused e s2 r same) = unpublished e s2 same

-- Over any store that keeps the contract, an uplink that is stored is published exactly once, with the
-- device and the reading of its message and the time of the second clock reading; in every other case
-- nothing is published and nothing is stored.
pub uplink-Publishes :
    {V S : Type 0} (json : SerdeJson V) {st : DeviceStore V S} {view : S → Registry V}
    → IsDeviceStore st view
    → (now now' : Option (ℕ × ℕ)) (subject : Option Text) (body : Text) (s : S)
    → Publishes json view now now' body s (uplink json st now now' subject body s)
unfolding uplink answer_uplink
uplink-Publishes json contract now now' subject body s =
    of_outcome (handle_uplink-Outcome contract json subject false now s (body_opt body))
