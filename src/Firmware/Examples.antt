-- ===== src/Firmware/Examples.antt =====
-- The firmware's loop on a name server that fails twice and a connection that then works.
use super_victor.Prelude.{
  ◌*◌, ◌≤◌, ◌≡◌, refl, length, true, false, some, none, List, [], ◌∷◌, ◌++◌, arith,
}
use super_victor.Prelude.Text.{Text, codes}
use super_victor.Firmware.{
  Event, slept, written, closed, backoff_max, connected, received, timed_out, refused,
  backoff_initial, Exchange, Round, app, app_rounds, established,
}
use super_victor.Firmware.Backoff.{AreDown, total_slept}
use super_victor.Firmware.Pauses.{sleeps, delays, app_rounds-sleeps}
use super_victor.Firmware.Progress.{app_rounds_writes}

abbrev down : Round
down = record {
  addresses = none;
  socket_connected = false;
  session_created = false;
  handshake = refused;
  exchanges = [];
}

abbrev replied : Exchange
replied = record { write_ok = true; reading = received 20 }

abbrev unwritten : Exchange
unwritten = record { write_ok = false; reading = received 0 }

abbrev unread : Exchange
unread = record { write_ok = true; reading = timed_out }

abbrev up : List Exchange → Round
up exchanges = record {
  addresses = some (codes "10.0.0.1" ∷ []);
  socket_connected = true;
  session_created = true;
  handshake = connected;
  exchanges = exchanges;
}

abbrev request : Text
request = codes "POST / HTTP/1.1"

run :
    app (some request) (false ∷ true ∷ []) (true ∷ []) (down ∷ up (replied ∷ unwritten ∷ []) ∷ [])
    ≡ some (
        slept 2000
        ∷ slept 2000
        ∷ slept 2000
        ∷ slept 1000
        ∷ written request
        ∷ slept 5000
        ∷ closed
        ∷ [])
unfolding app
run = refl

downs_AreDown : AreDown (down ∷ down ∷ [])
unfolding established
downs_AreDown = (refl, (refl, tt))

app_rounds_writes_example :
    (before after : List Event) × ((app_rounds
        (some request)
        1000
        ((down ∷ down ∷ []) ++ up (replied ∷ []) ∷ [])).0
      ≡ before ++ written request ∷ after)
    × (total_slept before ≤ backoff_max * length (down ∷ down ∷ []))
unfolding established
app_rounds_writes_example =
    app_rounds_writes request 1000 (down ∷ down ∷ []) (up (replied ∷ [])) replied [] (omega arith)
      downs_AreDown refl refl refl

app_rounds-sleeps_example :
    sleeps
      (app_rounds
        (some request)
        backoff_initial
        (down ∷ down ∷ up (replied ∷ replied ∷ unwritten ∷ []) ∷ up (unread ∷ []) ∷ down ∷ [])).0
    ≡ delays 0
        (down ∷ down ∷ up (replied ∷ replied ∷ unwritten ∷ []) ∷ up (unread ∷ []) ∷ down ∷ [])
app_rounds-sleeps_example =
    app_rounds-sleeps request
      (down ∷ down ∷ up (replied ∷ replied ∷ unwritten ∷ []) ∷ up (unread ∷ []) ∷ down ∷ [])

delays_run :
    delays 0 (down ∷ down ∷ up (replied ∷ replied ∷ unwritten ∷ []) ∷ up (unread ∷ []) ∷ down ∷ [])
    ≡ 1000 ∷ 2000 ∷ 5000 ∷ 5000 ∷ 1000 ∷ []
delays_run = refl
