-- ===== src/Fleet/Firmware.antt =====
-- The firmware version that an uplink was stored with is the one that the fleet reads off it.
use super_victor.Prelude.{ℕ, Option, none, some, ◌≡◌, ◌≢◌, refl, arith}
use super_victor.Prelude.Text.{codes, ≟_iff}
use super_victor.Json.{SerdeJson, PayloadLaws}
use super_victor.Models.{UplinkMessage}
use super_victor.Handlers.{uplink_payload}
use super_victor.Handlers.Uplink.{stored_record}
use super_victor.Fleet.{fw_of}

-- The record that an accepted message stores has the firmware version of the message, and none if the
-- message has none.
pub fw_of-stored :
    {V : Type 0} (json : SerdeJson V)
    → PayloadLaws json
    → (m : UplinkMessage) (now : Option (ℕ × ℕ)) → fw_of json (stored_record json m now) ≡ m.fw
unfolding fw_of uplink_payload
fw_of-stored json laws m now = go m.fw refl
  where
    other : codes "fw" ≢ codes "current"
    other e = ground (arith, ≟_iff (codes "fw") (codes "current"), e)

    go : (o : _) → m.fw ≡ o → fw_of json (stored_record json m now) ≡ m.fw
    go none e =
        rw (e, laws.get_absent (codes "current") (codes "fw") (json.number m.current) other) refl
    go (some fw) e =
        rw (e, laws.get_set _ (json.string fw) (codes "fw"), laws.as_str-string fw) refl
