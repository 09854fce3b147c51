-- ===== src/Events/Examples.antt =====
-- Forwarding over a channel that is the list of its texts.
use super_victor.Prelude.{
  ◌≤◌, ◌≡◌, refl, true, false, none, some, Option, Bool, List, [], ◌∷◌, ◌++◌, length, ltb, arith,
}
use super_victor.Prelude.Text.{Text, codes}
use super_victor.Prelude.Int.{pos}
use super_victor.Events.{
  UplinkEvent, Sent, sent, full, TrySend, put, no_room, Receive, took, empty, Channel, Received,
  event, lagged, Step, received, client_reads, Forwarder, client_buffer, step, steps, turn,
  send_data, after_send, read_client,
}
use super_victor.Events.Forwarding.{Subsequence, taken, texts_of, steps-Subsequence}
use super_victor.Events.Prompt.{prompt, steps-prompt}

abbrev send : Text → List Text → Bool → Sent × List Text
send e ts true = (sent, ts ++ e ∷ [])
send e ts false = (full, ts)

abbrev take_first : List Text → Option Text × List Text
take_first [] = (none, [])
take_first (t ∷ ts) = (some t, ts)

send_law :
    (e : Text) (ts : List Text) (b : Bool)
    → ltb (length ts) client_buffer ≡ b
    → TrySend (λ c. c) client_buffer ts e (send e ts b)
send_law e ts true h = put (ts ++ e ∷ []) (ground (arith, h)) refl
send_law e ts false h = no_room ts (ground (arith, h)) refl

take_law : (ts : List Text) → Receive (λ c. c) client_buffer ts (take_first ts)
take_law [] = empty [] refl refl
take_law (t ∷ ts) = took t ts refl

abbrev queue : Channel (List Text)
queue = record {
  try_send = λ e ts. send e ts (ltb (length ts) client_buffer);
  receive = take_first;
  contents = λ ts. ts;
  capacity = client_buffer;
  try_send_law = λ e ts. send_law e ts (ltb (length ts) client_buffer) refl;
  receive_law = take_law;
}

abbrev print : UplinkEvent → Option Text
print ev = some ev.device_id

abbrev start : Forwarder (List Text)
start = record { running = true; channel = []; delivered = [] }

abbrev hello : UplinkEvent
hello = record { device_id = codes "dev-1"; current = pos 7; received_at = codes "t" }

abbrev two_events : List Received
two_events = event hello ∷ lagged 3 ∷ event hello ∷ []

abbrev two_steps : List Step
two_steps = received (event hello) ∷ client_reads ∷ received (event hello) ∷ []

steps-Subsequence_example :
    Subsequence
      (taken queue print (steps queue print start two_steps))
      (texts_of queue print two_steps)
    × (length (steps queue print start two_steps).channel ≤ 16)
steps-Subsequence_example = steps-Subsequence queue print start refl refl two_steps

still_runs : (steps queue print start (prompt two_events)).running ≡ true
unfolding steps step turn send_data after_send read_client
still_runs = refl

steps-prompt_example :
    (steps queue print start (prompt two_events)).delivered ≡ codes "dev-1" ∷ codes "dev-1" ∷ []
steps-prompt_example = steps-prompt queue print two_events start (omega arith) refl still_runs
