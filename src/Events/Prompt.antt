-- ===== src/Events/Prompt.antt =====
-- A client that reads each event before the next one comes loses none.
use super_victor.Prelude.{
  ◌<◌, ◌≡◌, refl, sym, ap, ◌∙◌, Bool, true, false, Option, none, some, List, [], ◌∷◌, ◌++◌, length,
  append_assoc, append-nil, true-false, arith, if◌then◌else◌,
}
use super_victor.Prelude.Text.{Text}
use super_victor.Events.{
  UplinkEvent, Sent, TrySend, put, no_room, gone, Receive, took, empty, Channel, Received, event,
  lagged, source_closed, Step, received, client_reads, Forwarder, after_send, send_data, turn,
  read_client, step, steps,
}
use super_victor.Events.Forwarding.{text_of, sent_text, texts_of}

cons_nil : {A : Type 0} {x : A} {xs : List A} → x ∷ xs ≡ [] → ⊥
cons_nil e = cc

cons_same : {A : Type 0} {x y : A} {xs : List A} → x ∷ xs ≡ y ∷ [] → (x ≡ y) × (xs ≡ [])
cons_same e = (cc, cc)

-- Each event, and then the client.
abbrev pub prompt : List Received → List Step
prompt [] = []
prompt (r ∷ rs) = received r ∷ client_reads ∷ prompt rs

module _ {C : Type 0} (ch : Channel C) (to_string : UplinkEvent → Option Text) where
  -- What waits is read, and then nothing waits.
  record Read (f g : Forwarder C) (o : Option Text) : Type 0 where
    delivers : g.delivered ≡ f.delivered ++ text_of o
    empties : ch.contents g.channel ≡ []
    runs : g.running ≡ f.running

  read_lem :
      (f : Forwarder C) (o : Option Text)
      → ch.contents f.channel ≡ text_of o
      → {r : Option Text × C} → Receive ch.contents ch.capacity f.channel r
      → Read f (read_client ch to_string f r) o
  unfolding read_client
  read_lem f none w (empty c p q) = record {
    delivers = sym (append-nil f.delivered);
    empties = q;
    runs = refl;
  }
  read_lem f none w (took e c p) = absurd (cons_nil (sym p ∙ w))
  read_lem f (some t) w (empty c p q) = absurd (cons_nil (sym w ∙ p))
  read_lem f (some t) w (took e c p) =
      let (same, nil) = cons_same (sym p ∙ w) in
      record { delivers = ap (λ x. f.delivered ++ x ∷ []) same; empties = nil; runs = refl }

  -- What is sent waits, and nothing else.
  record Waits (f g : Forwarder C) (o : Option Text) : Type 0 where
    waits : ch.contents g.channel ≡ text_of o
    keeps : g.delivered ≡ f.delivered

  send_lem :
      (f : Forwarder C) (e : Text)
      → 0 < ch.capacity
      → ch.contents f.channel ≡ []
      → {r : Sent × C} → TrySend ch.contents ch.capacity f.channel e r
      → (after_send ch to_string f r).running ≡ true
      → Waits f (after_send ch to_string f r) (some e)
  unfolding after_send
  send_lem f e room w (put c h q) run_ = record {
    waits = q ∙ ap (λ l. l ++ e ∷ []) w;
    keeps = refl;
  }
  send_lem f e room w (no_room c h q) run_ = absurd (omega (arith, room, h, ap length w))
  send_lem f e room w (gone c q) run_ = absurd (true-false (sym run_))

  turn_lem :
      (f : Forwarder C) (r : Received)
      → 0 < ch.capacity
      → ch.contents f.channel ≡ []
      → (turn ch to_string f r).running ≡ true
      → Waits f (turn ch to_string f r) (sent_text ch to_string r)
  unfolding turn send_data
  turn_lem f (lagged n) room w run_ = record { waits = w; keeps = refl }
  turn_lem f source_closed room w run_ = absurd (true-false (sym run_))
  turn_lem f (event ev) room w run_ = go (to_string ev) run_
    where
      go :
          (o : Option Text)
          → (send_data ch to_string f o).running ≡ true
          → Waits f (send_data ch to_string f o) o
      go none h = record { waits = w; keeps = refl }
      go (some e) h = send_lem f e room w (ch.try_send_law e f.channel) h

  received_lem :
      (f : Forwarder C) (r : Received)
      → 0 < ch.capacity
      → ch.contents f.channel ≡ []
      → (step ch to_string f (received r)).running ≡ true
      → Waits f (step ch to_string f (received r)) (sent_text ch to_string r)
  unfolding step
  received_lem f r room w run_ = go f.running refl run_
    where
      go :
          (b : Bool)
          → f.running ≡ b
          → (if b then turn ch to_string f r else f).running ≡ true
          → Waits f (if b then turn ch to_string f r else f) (sent_text ch to_string r)
      go true e h = turn_lem f r room w h
      go false e h = absurd (true-false (sym h ∙ e))

  -- A task that has ended does not start again.
  step_running :
      (f : Forwarder C) (s : Step) → (step ch to_string f s).running ≡ true → f.running ≡ true
  unfolding step read_client
  step_running f (received r) h = go f.running refl h
    where
      go :
          (b : Bool)
          → f.running ≡ b
          → (if b then turn ch to_string f r else f).running ≡ true
          → f.running ≡ true
      go true e h = e
      go false e h = h
  step_running f client_reads h = go (ch.receive f.channel) h
    where
      go : (r : Option Text × C) → (read_client ch to_string f r).running ≡ true → f.running ≡ true
      go (none, c) h = h
      go (some e, c) h = h

  steps_running :
      (ss : List Step) (f : Forwarder C)
      → (steps ch to_string f ss).running ≡ true
      → f.running ≡ true
  unfolding steps
  steps_running [] f h = h
  steps_running (s ∷ ss) f h = step_running f s (steps_running ss (step ch to_string f s) h)

  -- If the channel has room, nothing waits at the start, the client reads after each event and the task
  -- still runs at the end, the client has read the text of every event that could be serialised, in
  -- their order.
  pub steps-prompt :
      (rs : List Received) (f : Forwarder C)
      → 0 < ch.capacity
      → ch.contents f.channel ≡ []
      → (steps ch to_string f (prompt rs)).running ≡ true
      → (steps ch to_string f (prompt rs)).delivered
        ≡ f.delivered ++ texts_of ch to_string (prompt rs)
  unfolding steps step
  steps-prompt [] f room w run_ = sym (append-nil f.delivered)
  steps-prompt (r ∷ rs) f room w run_ =
      let g = step ch to_string f (received r) in
      let h = step ch to_string g client_reads in
      let run_h = steps_running (prompt rs) h run_ in
      let sent_ = received_lem f r room w (step_running g client_reads run_h) in
      let read = read_lem g (sent_text ch to_string r) sent_.waits (ch.receive_law g.channel) in
      steps-prompt rs h room read.empties run_
      ∙ ap (λ l. l ++ texts_of ch to_string (prompt rs))
          (read.delivers ∙ ap (λ l. l ++ text_of (sent_text ch to_string r)) sent_.keeps)
      ∙ append_assoc f.delivered (text_of (sent_text ch to_string r))
          (texts_of ch to_string (prompt rs))
