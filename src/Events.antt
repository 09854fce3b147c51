-- ===== src/Events.antt =====
-- supervictor/endpoint/src/ui/sse.rs: the task that forwards uplinks to one client. The two channels are
-- those of tokio, which is not part of the repository: what the broadcast yields is the argument of a step,
-- and the channel to the client is a parameter. Serialising an event may fail.
pub mod Forwarding
pub mod Prompt
mod Examples
use super_victor.Prelude.{
  ℕ, suc, ◌≤◌, ◌<◌, ◌≡◌, Bool, true, false, Option, none, some, List, [], ◌∷◌, ◌++◌, length,
  if◌then◌else◌,
}
use super_victor.Prelude.Text.{Text, codes}
use super_victor.Prelude.Int.{ℤ}

pub record UplinkEvent : Type 0 where
  pub device_id : Text
  pub current : ℤ
  pub received_at : Text

abbrev pub client_buffer : ℕ
client_buffer = 16

-- The answer of `try_send`.
pub data Sent : Type 0 where
  sent full closed : Sent

module _ {C : Type 0} (contents : C → List Text) (capacity : ℕ) (c : C) where
  pub data TrySend (e : Text) : Sent × C → Type 0 where
    put :
        (c' : C)
        → length (contents c) < capacity
        → contents c' ≡ contents c ++ e ∷ []
        → TrySend e (sent, c')
    no_room :
        (c' : C) → capacity ≤ length (contents c) → contents c' ≡ contents c → TrySend e (full, c')
    gone : (c' : C) → contents c' ≡ contents c → TrySend e (closed, c')

  pub data Receive : Option Text × C → Type 0 where
    took : (e : Text) (c' : C) → contents c ≡ e ∷ contents c' → Receive (some e, c')
    empty : (c' : C) → contents c ≡ [] → contents c' ≡ [] → Receive (none, c')

-- A bounded channel with the events in it, as documented; `receive` is the client, which takes the first.
pub record Channel (C : Type 0) : Type 0 where
  pub try_send : Text → C → Sent × C
  pub receive : C → Option Text × C
  pub contents : C → List Text
  pub capacity : ℕ
  pub try_send_law : (e : Text) (c : C) → TrySend contents capacity c e (try_send e c)
  pub receive_law : (c : C) → Receive contents capacity c (receive c)

-- What `source.recv` yields.
pub data Received : Type 0 where
  event : UplinkEvent → Received
  lagged : ℕ → Received
  source_closed : Received

pub data Step : Type 0 where
  received : Received → Step
  client_reads : Step

-- Whether the task still runs, the channel, and what the client has read.
pub record Forwarder (C : Type 0) : Type 0 where
  pub running : Bool
  pub channel : C
  pub delivered : List Text

module _ {C : Type 0} (ch : Channel C) (to_string : UplinkEvent → Option Text) where
  -- The match on `try_send`.
  unfoldable pub after_send : Forwarder C → Sent × C → Forwarder C
  after_send f (sent, c) = record f { channel = c }
  after_send f (full, c) = record f { channel = c }
  after_send f (closed, c) = record f { running = false; channel = c }

  unfoldable pub send_data : Forwarder C → Option Text → Forwarder C
  unfolding after_send
  send_data f none = f
  send_data f (some data_) = after_send f (ch.try_send data_ f.channel)

  -- One turn of the loop.
  unfoldable pub turn : Forwarder C → Received → Forwarder C
  unfolding send_data
  turn f (event ev) = send_data f (to_string ev)
  turn f (lagged n) = f
  turn f source_closed = record f { running = false }

  unfoldable pub read_client : Forwarder C → Option Text × C → Forwarder C
  read_client f (none, c) = record f { channel = c }
  read_client f (some e, c) = record f { channel = c; delivered = f.delivered ++ e ∷ [] }

  unfoldable pub step : Forwarder C → Step → Forwarder C
  unfolding turn read_client
  step f (received r) = if f.running then turn f r else f
  step f client_reads = read_client f (ch.receive f.channel)

  unfoldable pub steps : Forwarder C → List Step → Forwarder C
  unfolding step
  steps f [] = f
  steps f (s ∷ rest) = steps (step f s) rest
