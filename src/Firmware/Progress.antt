-- ===== src/Firmware/Progress.antt =====
-- An uplink is written as soon as the network lets it.
use super_victor.Prelude.{
  ℕ, ◌*◌, ◌≤◌, ◌≡◌, refl, ◌∙◌, ap, sym, true, Option, some, List, [], ◌∷◌, ◌++◌, inl, inr,
  Bool-cases, length, append-nil, append_assoc,
}
use super_victor.Prelude.Text.{Text}
use super_victor.Firmware.{
  Event, slept, written, closed, backoff_max, read_ok, main_loop_delay, Round, Exchange,
  established, exchange_loop, session_loop, app_round, app_rounds,
}
use super_victor.Firmware.Backoff.{IsDelay, AreDown, total_slept, app_rounds_slept}

app_rounds-append :
    (request : Option Text) (b : ℕ) (rounds more : List Round)
    → (app_rounds request b (rounds ++ more)).0
      ≡ (app_rounds request b rounds).0
        ++ (app_rounds request (app_rounds request b rounds).1 more).0
unfolding app_rounds
app_rounds-append request b [] more = refl
app_rounds-append request b (round ∷ rounds) more =
    let (events, next) = app_round request b round in
    rw (app_rounds-append request next rounds more) (sym (append_assoc events _ _))

-- An exchange whose write succeeds writes the request first.
exchange_loop_writes :
    (r : Text) (x : Exchange) (xs : List Exchange)
    → x.write_ok ≡ true
    → (after : List Event) × ((exchange_loop (some r) (x ∷ xs)).0 ≡ written r ∷ after)
unfolding exchange_loop
exchange_loop_writes r x xs h = elim (Bool-cases (read_ok x.reading)) [
  | inl good ↦ rw (h, good) (slept main_loop_delay ∷ (exchange_loop (some r) xs).0, refl)
  | inr bad ↦ rw (h, bad) ([], refl)
]

session_loop_writes :
    (r : Text) (x : Exchange) (xs : List Exchange)
    → x.write_ok ≡ true
    → (after : List Event) × ((session_loop (some r) (x ∷ xs)).0 ≡ written r ∷ after)
unfolding session_loop
session_loop_writes r x xs h =
    let run = exchange_loop (some r) (x ∷ xs) in
    let (after, e) = exchange_loop_writes r x xs h in
    elim (Bool-cases run.1) [
      | inl left ↦ (after ++ closed ∷ [], rw (left, e) refl)
      | inr on ↦ (after, rw (on, e) refl)
    ]

app_round_writes :
    (r : Text) (b : ℕ) (round : Round) (x : Exchange) (xs : List Exchange)
    → established round ≡ true
    → round.exchanges ≡ x ∷ xs
    → x.write_ok ≡ true
    → (after : List Event) × ((app_round (some r) b round).0 ≡ written r ∷ after)
unfolding app_round
app_round_writes r b round x xs up e h = rw (up, e) (session_loop_writes r x xs h)

-- After any number of rounds in which no session comes about, the first round that has a session
-- writes the request if its first write succeeds, and the task has slept at most a minute a round
-- until then.
pub app_rounds_writes :
    (r : Text) (b : ℕ) (downs : List Round) (round : Round) (x : Exchange) (xs : List Exchange)
    → IsDelay b
    → AreDown downs
    → established round ≡ true
    → round.exchanges ≡ x ∷ xs
    → x.write_ok ≡ true
    → (before after : List Event) × ((app_rounds (some r) b (downs ++ round ∷ [])).0
        ≡ before ++ written r ∷ after)
      × (total_slept before ≤ backoff_max * length downs)
unfolding app_rounds
app_rounds_writes r b downs round x xs h d up e w =
    let (before, last) = app_rounds (some r) b downs in
    let (after, q) = app_round_writes r last round x xs up e w in
    (
      before,
      after,
      app_rounds-append (some r) b downs (round ∷ []) ∙ ap (λ t. before ++ t) (append-nil _ ∙ q),
      app_rounds_slept (some r) b downs h d,
    )
