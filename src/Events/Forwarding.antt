-- ===== src/Events/Forwarding.antt =====
-- What a client gets of the events.
use mathlib.Core.Path.{subst}
use super_victor.Prelude.{
  if◌then◌else◌, ◌≤◌, ◌≡◌, refl, sym, ap, ◌∙◌, ◌⊎◌, inl, inr, Bool, true, false, Option, none, some,
  List, [], ◌∷◌, ◌++◌, length, length-append, append_assoc, append-nil, arith,
}
use super_victor.Prelude.Text.{Text}
use super_victor.Events.{
  UplinkEvent, Sent, TrySend, put, no_room, gone, Receive, took, empty, Channel, Received, event,
  lagged, source_closed, Step, received, client_reads, Forwarder, after_send, send_data, turn,
  read_client, step, steps,
}

-- The elements of a list in its order, some left out.
pub data Subsequence {A : Type 0} : List A → List A → Type 0 where
  nothing : (ys : List A) → Subsequence [] ys
  keep : (x : A) (xs ys : List A) → Subsequence xs ys → Subsequence (x ∷ xs) (x ∷ ys)
  drop : (y : A) (xs ys : List A) → Subsequence xs ys → Subsequence xs (y ∷ ys)

module _ {A : Type 0} where
  keep_all : (xs : List A) {ys zs : List A} → Subsequence ys zs → Subsequence (xs ++ ys) (xs ++ zs)
  keep_all [] h = h
  keep_all (x ∷ xs) h = keep x _ _ (keep_all xs h)

  drop_all : (xs : List A) {ys zs : List A} → Subsequence ys zs → Subsequence ys (xs ++ zs)
  drop_all [] h = h
  drop_all (x ∷ xs) h = drop x _ _ (drop_all xs h)

  either :
      (xs : List A) {us ys zs : List A}
      → (us ≡ []) ⊎ (us ≡ xs)
      → Subsequence ys zs
      → Subsequence (us ++ ys) (xs ++ zs)
  either xs (inl e) h = rw e (drop_all xs h)
  either xs (inr e) h = rw e (keep_all xs h)

-- The texts that an event is sent as.
abbrev pub text_of : Option Text → List Text
text_of none = []
text_of (some t) = t ∷ []

module _ {C : Type 0} (ch : Channel C) (to_string : UplinkEvent → Option Text) where
  abbrev pub sent_text : Received → Option Text
  sent_text (event ev) = to_string ev
  sent_text (lagged n) = none
  sent_text source_closed = none

  abbrev pub texts_of_step : Step → List Text
  texts_of_step (received r) = text_of (sent_text r)
  texts_of_step client_reads = []

  abbrev pub texts_of : List Step → List Text
  texts_of [] = []
  texts_of (s ∷ rest) = texts_of_step s ++ texts_of rest

  -- What the client has and what waits for it.
  abbrev pub taken : Forwarder C → List Text
  taken f = f.delivered ++ ch.contents f.channel

  abbrev Bounded : Forwarder C → Type 0
  Bounded f = length (ch.contents f.channel) ≤ ch.capacity

  -- A step takes the texts of its event or none of them, and keeps the bound.
  record Taken (f g : Forwarder C) (texts : List Text) : Type 0 where
    more : List Text
    fits : (more ≡ []) ⊎ (more ≡ texts)
    adds : taken g ≡ taken f ++ more
    keeps : Bounded f → Bounded g

  record Steps (f g : Forwarder C) (texts : List Text) : Type 0 where
    more : List Text
    fits : Subsequence more texts
    adds : taken g ≡ taken f ++ more
    keeps : Bounded f → Bounded g

  unchanged :
      (f : Forwarder C) (c : C) (r : Bool) (texts : List Text)
      → ch.contents c ≡ ch.contents f.channel
      → Taken f (record f { running = r; channel = c }) texts
  unchanged f c r texts e = record {
    more = [];
    fits = inl refl;
    adds = rw e (sym (append-nil (taken f)));
    keeps = λ h. rw e h;
  }

  send_lem :
      (f : Forwarder C) (e : Text) {r : Sent × C}
      → TrySend ch.contents ch.capacity f.channel e r
      → Taken f (after_send ch to_string f r) (e ∷ [])
  unfolding after_send
  send_lem f e (no_room c h q) = unchanged f c f.running (e ∷ []) q
  send_lem f e (gone c q) = unchanged f c false (e ∷ []) q
  send_lem f e (put c h q) = record {
    more = e ∷ [];
    fits = inr refl;
    adds = rw q (sym (append_assoc f.delivered (ch.contents f.channel) (e ∷ [])));
    keeps = λ _. rw (q, length-append (ch.contents f.channel) (e ∷ [])) (omega (arith, h));
  }

  data_lem : (f : Forwarder C) (o : Option Text) → Taken f (send_data ch to_string f o) (text_of o)
  unfolding send_data
  data_lem f none = unchanged f f.channel f.running [] refl
  data_lem f (some e) = send_lem f e (ch.try_send_law e f.channel)

  turn_lem :
      (f : Forwarder C) (r : Received)
      → Taken f (turn ch to_string f r) (texts_of_step (received r))
  unfolding turn
  turn_lem f (event ev) = data_lem f (to_string ev)
  turn_lem f (lagged n) = unchanged f f.channel f.running [] refl
  turn_lem f source_closed = unchanged f f.channel false [] refl

  read_lem :
      (f : Forwarder C) {r : Option Text × C}
      → Receive ch.contents ch.capacity f.channel r
      → Taken f (read_client ch to_string f r) []
  unfolding read_client
  read_lem f (empty c p q) = unchanged f c f.running [] (q ∙ sym p)
  read_lem f (took e c p) = record {
    more = [];
    fits = inl refl;
    adds =
        append_assoc f.delivered (e ∷ []) (ch.contents c)
        ∙ ap (λ l. f.delivered ++ l) (sym p)
        ∙ sym (append-nil (taken f));
    keeps = λ h. omega (arith, h, ap length p);
  }

  step_lem : (f : Forwarder C) (s : Step) → Taken f (step ch to_string f s) (texts_of_step s)
  unfolding step
  step_lem f client_reads = read_lem f (ch.receive_law f.channel)
  step_lem f (received r) = running f.running
    where
      running :
          (b : Bool) → Taken f (if b then turn ch to_string f r else f) (texts_of_step (received r))
      running true = turn_lem f r
      running false = unchanged f f.channel f.running (texts_of_step (received r)) refl

  steps_lem : (f : Forwarder C) (ss : List Step) → Steps f (steps ch to_string f ss) (texts_of ss)
  unfolding steps
  steps_lem f [] = record {
    more = [];
    fits = nothing [];
    adds = sym (append-nil (taken f));
    keeps = λ h. h;
  }
  steps_lem f (s ∷ ss) =
      let one = step_lem f s in
      let rest = steps_lem (step ch to_string f s) ss in
      record {
        more = one.more ++ rest.more;
        fits = either (texts_of_step s) one.fits rest.fits;
        adds =
            rest.adds
            ∙ ap (λ l. l ++ rest.more) one.adds
            ∙ append_assoc (taken f) one.more rest.more;
        keeps = λ h. rest.keeps (one.keeps h);
      }

  -- However the events come and the client reads, what the client has read, with what waits in its
  -- channel behind it, are texts of the events in their order, some left out, and no more of them wait
  -- than the channel has room for.
  pub steps-Subsequence :
      (f : Forwarder C)
      → f.delivered ≡ []
      → ch.contents f.channel ≡ []
      → (ss : List Step)
      → Subsequence (taken (steps ch to_string f ss)) (texts_of ss)
        × (length (ch.contents (steps ch to_string f ss).channel) ≤ ch.capacity)
  steps-Subsequence f d c ss =
      let all = steps_lem f ss in
      (
        subst (λ l. Subsequence l (texts_of ss))
            (sym (all.adds ∙ ap (λ l. l ++ all.more) (ap (λ l. l ++ ch.contents f.channel) d ∙ c)))
            all.fits,
        all.keeps (rw c (omega arith)),
      )
