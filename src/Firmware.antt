-- ===== src/Firmware.antt =====
-- supervictor/edge/src/app/tasks.rs, with the delays of supervictor/edge/src/config.rs in milliseconds.
-- What the network answers is the argument of a round; what the task does that can be observed are the
-- events: the time slept, the requests written, the sessions closed. The request is the text that
-- `post_request` built, or none for its error. Lines of the console are left out.
pub mod Backoff
pub mod Progress
pub mod Pauses
mod Examples
use super_victor.Prelude.{
  ℕ, zero, suc, ◌+◌, ◌*◌, Bool, true, false, not, Option, none, some, List, [], ◌∷◌, ◌++◌, ltb,
  if◌then◌else◌,
}
use super_victor.Prelude.Text.{Text}

abbrev pub network_status_poll_interval : ℕ
network_status_poll_interval = 2000

abbrev pub wifi_delay : ℕ
wifi_delay = 5000

abbrev pub main_loop_delay : ℕ
main_loop_delay = 5000

abbrev pub backoff_initial : ℕ
backoff_initial = 1000

abbrev pub backoff_max : ℕ
backoff_max = 60000

abbrev pub u64_top : ℕ
u64_top = 18446744073709551615

pub data Event : Type 0 where
  slept : ℕ → Event
  written : Text → Event
  closed : Event

-- `backoff.as_millis().saturating_mul(2)`
unfoldable pub doubled : ℕ → ℕ
doubled backoff = if ltb u64_top (backoff * 2) then u64_top else backoff * 2

-- The time slept, and the backoff after it.
unfoldable pub backoff_delay : ℕ → List Event × ℕ
unfolding doubled
backoff_delay backoff =
    (slept backoff ∷ [], if ltb backoff_max (doubled backoff) then backoff_max else doubled backoff)

-- How a TLS handshake ends.
pub data Handshake : Type 0 where
  connected refused timed_out : Handshake

-- How a read ends; `received 0` is a peer that closed the connection.
pub data Reading : Type 0 where
  received : ℕ → Reading
  failed timed_out : Reading

-- What the network does in one turn of the inner loop.
pub record Exchange : Type 0 where
  pub write_ok : Bool
  pub reading : Reading

-- What the network does in one turn of the outer loop. `addresses` is the answer of the name server,
-- or its failure; the exchanges are those that have happened.
pub record Round : Type 0 where
  pub addresses : Option (List Text)
  pub socket_connected : Bool
  pub session_created : Bool
  pub handshake : Handshake
  pub exchanges : List Exchange

-- The branch on the read: whether the loop goes on.
unfoldable pub read_ok : Reading → Bool
read_ok (received zero) = false
read_ok (received (suc n)) = true
read_ok failed = false
read_ok timed_out = false

-- The inner loop over the exchanges so far: what it did, and whether it was left by a `break`.
unfoldable pub exchange_loop : Option Text → List Exchange → List Event × Bool
unfolding read_ok
exchange_loop none xs = ([], true)
exchange_loop (some r) [] = ([], false)
exchange_loop (some r) (x ∷ xs) =
    let (later, left) = exchange_loop (some r) xs in
    if not x.write_ok
    then ([], true)
    else if not (read_ok x.reading)
    then (written r ∷ [], true)
    else (written r ∷ slept main_loop_delay ∷ later, left)

-- Whether the steps in front of the inner loop succeed.
unfoldable pub established : Round → Bool
established round = elim round.addresses [
  | none ↦ false
  | some [] ↦ false
  | some (a ∷ _) ↦
      if not round.socket_connected
      then false
      else if not round.session_created
      then false
      else elim round.handshake [ connected ↦ true | refused ↦ false | timed_out ↦ false ]
]

-- From the inner loop on; the backoff starts anew.
unfoldable pub session_loop : Option Text → List Exchange → List Event × ℕ
unfolding exchange_loop
session_loop request exchanges =
    let (events, left) = exchange_loop request exchanges in
    (if left then events ++ closed ∷ [] else events, backoff_initial)

-- One turn of the outer loop: what happened, and the backoff after it.
unfoldable pub app_round : Option Text → ℕ → Round → List Event × ℕ
unfolding established session_loop backoff_delay
app_round request backoff round =
    if established round then session_loop request round.exchanges else backoff_delay backoff

unfoldable pub app_rounds : Option Text → ℕ → List Round → List Event × ℕ
unfolding app_round
app_rounds request backoff [] = ([], backoff)
app_rounds request backoff (round ∷ rounds) =
    let (events, next) = app_round request backoff round in
    let (later, last) = app_rounds request next rounds in (events ++ later, last)

-- A loop that sleeps and polls until it reads true; `none` if it still polls.
unfoldable pub poll_until : List Bool → Option (List Event)
poll_until [] = none
poll_until (up ∷ polls) =
    let rest = poll_until polls in
    if up then some (slept network_status_poll_interval ∷ []) else elim rest [
      | none ↦ none
      | some events ↦ some (slept network_status_poll_interval ∷ events)
    ]

-- The task `app`: the two polls, of the link and of the address, and the outer loop.
unfoldable pub app : Option Text → List Bool → List Bool → List Round → Option (List Event)
unfolding poll_until app_rounds
app request link config rounds = elim (poll_until link) [
  | none ↦ none
  | some e1 ↦ elim (poll_until config) [
    | none ↦ none
    | some e2 ↦ some (e1 ++ e2 ++ (app_rounds request backoff_initial rounds).0)
  ]
]

-- What the radio does in one turn of `connection`; `started` is what `is_started` answers.
pub record Radio : Type 0 where
  pub associated : Bool
  pub started : Option Bool
  pub start_ok : Bool
  pub connect_ok : Bool

-- The turn from the connection attempt on.
unfoldable pub connect_radio : Radio → List Event
connect_radio radio = if radio.connect_ok then [] else slept wifi_delay ∷ []

unfoldable pub start_radio : Radio → List Event
unfolding connect_radio
start_radio radio = elim radio.started [
  | some true ↦ connect_radio radio
  | some false ↦ if radio.start_ok then connect_radio radio else slept wifi_delay ∷ []
  | none ↦ if radio.start_ok then connect_radio radio else slept wifi_delay ∷ []
]

-- One turn of `connection`, behind the wait for a disconnection if the station is connected.
unfoldable pub connection_round : Radio → List Event
unfolding start_radio
connection_round radio =
    if radio.associated then slept wifi_delay ∷ start_radio radio else start_radio radio
