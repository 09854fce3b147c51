-- ===== src/Store/Dynamo/Latest.antt =====
-- The latest uplinks of the DynamoDB backend: one query per device that the scan returns.
use super_victor.Prelude.{◌≡◌, refl, sym, ◌∙◌, ap, List, [], ◌∷◌, ◌++◌, map, append_assoc}
use super_victor.Prelude.Text.{Text}
use super_victor.Exec.{Result}
use super_victor.Json.{SerdeJson}
use super_victor.Models.{DeviceRecord, UplinkRecord, StoreError}
use super_victor.Store.Contract.{Occurs, here, there, IsNewest, AreLatest}
use super_victor.Store.Stored.{Tables, decode, All-IsNewest}
use super_victor.Store.Aws.{Client}
use super_victor.Store.Dynamo.Laws.{ReadLaws}
use super_victor.Store.Dynamo.Laws
use super_victor.Store.Dynamo.Answers.{Unanswered, Got, Pushed, pushed, not_pushed}

module _ {V S : Type 0} (client : Client S) (devices_table messages_table : Text)
    (json : SerdeJson V) (tables : S → Tables)
    (laws : ReadLaws client devices_table messages_table tables) (t : Tables) where
  abbrev PushedOf :
      List (UplinkRecord V) → List DeviceRecord → Result V (List (UplinkRecord V)) × S → Type 0
  PushedOf = Pushed client devices_table messages_table json tables t

  abbrev GotOf : Text → S → Result V (List (UplinkRecord V)) × S → Type 0
  GotOf = Got client devices_table messages_table json tables t

  latest_first :
      (d : DeviceRecord) (ds : List DeviceRecord) (u : UplinkRecord Text)
      (us : List (UplinkRecord V))
      → u.device_id ≡ d.device_id
      → IsNewest u t.uplinks
      → AreLatest ds us (map (decode json) t.uplinks)
      → AreLatest (d ∷ ds) (decode json u ∷ us) (map (decode json) t.uplinks)
  unfolding decode
  latest_first d ds u us same newest h = record {
    each_newest = ((All-IsNewest json t.uplinks (u ∷ []) (newest, tt)).0, h.each_newest);
    covers = covers;
  }
    where
      covers :
          (x : DeviceRecord) (v : UplinkRecord V)
          → Occurs x (d ∷ ds)
          → Occurs v (map (decode json) t.uplinks)
          → v.device_id ≡ x.device_id
          → (w : UplinkRecord V) × Occurs w (decode json u ∷ us) × (w.device_id ≡ x.device_id)
      covers x v (here _ _ f) q e =
          (decode json u, here _ _ refl, same ∙ sym (ap (λ y. y.device_id) f))
      covers x v (there _ _ p) q e = let (w, r, g) = h.covers x v p q e in (w, there _ _ r, g)

  -- A failure for a device is one for a longer list.
  later :
      (d : DeviceRecord) (ds : List DeviceRecord) (e : StoreError) (state' : S)
      → Unanswered client devices_table messages_table json tables t ds e state'
      → Unanswered client devices_table messages_table json tables t (d ∷ ds) e state'
  later d ds e state' u = record {
    device = u.device;
    occurs = there d ds u.occurs;
    state = u.state;
    same = u.same;
    error = u.error;
    fails = u.fails;
    reported = u.reported;
  }

  push :
      (out : List (UplinkRecord V)) (d : DeviceRecord) (ds : List DeviceRecord)
      (u : UplinkRecord Text)
      → u.device_id ≡ d.device_id
      → IsNewest u t.uplinks
      → {r : Result V (List (UplinkRecord V)) × S} → PushedOf (out ++ decode json u ∷ []) ds r
      → PushedOf out (d ∷ ds) r
  push out d ds u same n (pushed us state' l e) =
      rw (append_assoc out (decode json u ∷ []) us)
        (pushed (decode json u ∷ us) state' (latest_first d ds u us same n l) e)
  push out d ds u same n (not_pushed e state' w f) = not_pushed e state' (later d ds e state' w) f
