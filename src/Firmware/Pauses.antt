-- ===== src/Firmware/Pauses.antt =====
-- Every delay of the outer loop, in order.
use super_victor.Prelude.{
  Option, none, true, false, ℕ, zero, suc, ◌*◌, ◌^◌, ◌≡◌, refl, ◌∙◌, ap, Bool, ◌&&◌, some, List, [],
  ◌∷◌, ◌++◌, append-nil, arith, ltb, if◌then◌else◌, inl, inr, Bool-cases, min,
}
use super_victor.Prelude.Text.{Text}
use super_victor.Firmware.{
  Handshake, connected, refused, Event, slept, written, closed, main_loop_delay, backoff_initial,
  backoff_max, Reading, received, failed, timed_out, read_ok, Exchange, exchange_loop, Round,
  established, session_loop, backoff_delay, app_round, app_rounds,
}
use super_victor.Firmware.Backoff.{backoff_delay-min, power_pos}

-- The times slept, one by one.
abbrev pub sleeps : List Event → List ℕ
sleeps [] = []
sleeps (slept ms ∷ es) = ms ∷ sleeps es
sleeps (written r ∷ es) = sleeps es
sleeps (closed ∷ es) = sleeps es

-- An exchange whose request was written and answered with at least one byte.
abbrev pub bytes_read : Reading → ℕ
bytes_read (received n) = n
bytes_read failed = 0
bytes_read timed_out = 0

abbrev pub answered : Exchange → Bool
answered x = x.write_ok && ltb 0 (bytes_read x.reading)

-- One delay of five seconds for each exchange in front of the first that was not answered.
abbrev pub regular : List Exchange → List ℕ
regular [] = []
regular (x ∷ xs) = let rest = regular xs in if answered x then 5000 ∷ rest else []

-- A round in which a session comes about: the host has an address, the socket connects, the session is
-- created, and the handshake ends well.
abbrev pub has_address : Option (List Text) → Bool
has_address (some (a ∷ more)) = true
has_address (some []) = false
has_address none = false

abbrev pub ends_well : Handshake → Bool
ends_well connected = true
ends_well refused = false
ends_well timed_out = false

abbrev pub connects : Round → Bool
connects round =
    has_address round.addresses
    && (round.socket_connected && (round.session_created && ends_well round.handshake))

-- The delays behind `k` rounds in a row without a session: one second, doubled `k` times up to one
-- minute, for a further round without a session; a round with a session has the regular ones.
abbrev pub delays : ℕ → List Round → List ℕ
delays k [] = []
delays k (round ∷ rounds) =
    let up = regular round.exchanges ++ delays 0 rounds in
    let down = min (1000 * 2 ^ k) 60000 ∷ delays (suc k) rounds in
    if connects round then up else down

sleeps-append : (xs ys : List Event) → sleeps (xs ++ ys) ≡ sleeps xs ++ sleeps ys
sleeps-append [] ys = refl
sleeps-append (slept ms ∷ xs) ys = ap (λ l. ms ∷ l) (sleeps-append xs ys)
sleeps-append (written r ∷ xs) ys = sleeps-append xs ys
sleeps-append (closed ∷ xs) ys = sleeps-append xs ys

read_ok-bytes_read : (reading : Reading) → read_ok reading ≡ ltb 0 (bytes_read reading)
unfolding read_ok
read_ok-bytes_read (received zero) = refl
read_ok-bytes_read (received (suc n)) = ground arith
read_ok-bytes_read failed = refl
read_ok-bytes_read timed_out = refl

exchange_loop-regular :
    (r : Text) (xs : List Exchange) → sleeps (exchange_loop (some r) xs).0 ≡ regular xs
unfolding exchange_loop
exchange_loop-regular r [] = refl
exchange_loop-regular r (x ∷ xs) = elim (Bool-cases x.write_ok) [
  | inl w ↦ elim (Bool-cases (ltb 0 (bytes_read x.reading))) [
    | inl a ↦
        rw (w, read_ok-bytes_read x.reading, a)
          (ap (λ l. main_loop_delay ∷ l) (exchange_loop-regular r xs))
    | inr a ↦ rw (w, read_ok-bytes_read x.reading, a) refl
  ]
  | inr w ↦ rw w refl
]

session_loop-regular :
    (r : Text) (xs : List Exchange) → sleeps (session_loop (some r) xs).0 ≡ regular xs
unfolding session_loop
session_loop-regular r xs = elim (Bool-cases (exchange_loop (some r) xs).1) [
  | inl left ↦ rw left (
      sleeps-append (exchange_loop (some r) xs).0 (closed ∷ [])
      ∙ append-nil (sleeps (exchange_loop (some r) xs).0)
      ∙ exchange_loop-regular r xs)
  | inr stays ↦ rw stays (exchange_loop-regular r xs)
]

next_delay :
    (k : ℕ)
    → (backoff_delay (min (backoff_initial * 2 ^ k) backoff_max)).1
      ≡ min (backoff_initial * 2 ^ suc k) backoff_max
next_delay k =
    backoff_delay-min (min (backoff_initial * 2 ^ k) backoff_max) (ground arith)
    ∙ ground (arith, power_pos k)

established-connects : (round : Round) → established round ≡ connects round
unfolding established
established-connects round =
    go round.addresses round.socket_connected round.session_created round.handshake
  where
    of : Option (List Text) → Bool → Bool → Handshake → Round
    of addresses socket_connected session_created handshake = record {
      addresses = addresses;
      socket_connected = socket_connected;
      session_created = session_created;
      handshake = handshake;
      exchanges = [];
    }

    go :
        (addresses : Option (List Text)) (socket session : Bool) (handshake : Handshake)
        → established (of addresses socket session handshake)
          ≡ connects (of addresses socket session handshake)
    go none socket session handshake = refl
    go (some []) socket session handshake = refl
    go (some (a ∷ more)) false session handshake = refl
    go (some (a ∷ more)) true false handshake = refl
    go (some (a ∷ more)) true true connected = refl
    go (some (a ∷ more)) true true refused = refl
    go (some (a ∷ more)) true true timed_out = refl

app_rounds-delays :
    (r : Text) (k : ℕ) (rounds : List Round)
    → sleeps (app_rounds (some r) (min (backoff_initial * 2 ^ k) backoff_max) rounds).0
      ≡ delays k rounds
unfolding app_rounds app_round
app_rounds-delays r k [] = refl
app_rounds-delays r k (round ∷ rounds) = elim (Bool-cases (connects round)) [
  | inl up ↦
      rw (established-connects round, up)
        (sleeps-append (session_loop (some r) round.exchanges).0
            (app_rounds (some r) backoff_initial rounds).0
          ∙ ap (λ l. l ++ sleeps (app_rounds (some r) backoff_initial rounds).0)
              (session_loop-regular r round.exchanges)
          ∙ ap (λ l. regular round.exchanges ++ l) (app_rounds-delays r 0 rounds))
  | inr down ↦
      rw (established-connects round, down)
        (ap (λ l. min (backoff_initial * 2 ^ k) backoff_max ∷ l)
          (ap (λ b. sleeps (app_rounds (some r) b rounds).0) (next_delay k)
            ∙ app_rounds-delays r (suc k) rounds))
]

-- From the first round on, the task that has a request sleeps exactly this, in this order: behind a
-- round without a session once, one second doubled for each such round in a row in front of it, up to
-- one minute; and in a session once for each answered exchange in front of the first that is not,
-- five seconds. Behind a write or a read that fails there is no delay, and a session makes the
-- doubling start anew.
pub app_rounds-sleeps :
    (r : Text) (rounds : List Round)
    → sleeps (app_rounds (some r) backoff_initial rounds).0 ≡ delays 0 rounds
app_rounds-sleeps r rounds = app_rounds-delays r 0 rounds
