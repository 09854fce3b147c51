-- ===== src/Firmware/Backoff.antt =====
-- The delay between attempts: how it grows, and its bounds.
use super_victor.Prelude.{
  ℕ, zero, suc, ◌+◌, ◌*◌, ◌^◌, ◌≤◌, ◌≡◌, false, Option, List, [], ◌∷◌, ◌++◌, arith, inl, inr,
  Bool-cases, length, All, min,
}
use super_victor.Prelude.Text.{Text}
use super_victor.Firmware.{
  Event, slept, written, closed, backoff_initial, backoff_max, doubled, backoff_delay, Round,
  established, session_loop, app_round, app_rounds,
}

abbrev pub IsDelay : ℕ → Type 0
IsDelay backoff = (backoff_initial ≤ backoff) × (backoff ≤ backoff_max)

abbrev pub time_of : Event → ℕ
time_of (slept ms) = ms
time_of (written r) = 0
time_of closed = 0

-- The time that a run slept.
abbrev pub total_slept : List Event → ℕ
total_slept [] = 0
total_slept (e ∷ es) = time_of e + total_slept es

pub total_slept-append :
    (xs ys : List Event) → total_slept (xs ++ ys) ≡ total_slept xs + total_slept ys
total_slept-append [] ys = omega arith
total_slept-append (x ∷ xs) ys = omega (arith, total_slept-append xs ys)

backoff_slept : (b : ℕ) → total_slept (backoff_delay b).0 ≡ b
unfolding backoff_delay
backoff_slept b = omega arith

backoff_delay-IsDelay : (b : ℕ) → IsDelay b → IsDelay (backoff_delay b).1
unfolding backoff_delay doubled
backoff_delay-IsDelay b h = ground arith

pub app_round-IsDelay :
    (request : Option Text) (b : ℕ) (round : Round)
    → IsDelay b
    → IsDelay (app_round request b round).1
unfolding app_round session_loop
app_round-IsDelay request b round h = elim (Bool-cases (established round)) [
  | inl up ↦ rw up (omega arith)
  | inr down ↦ rw down (backoff_delay-IsDelay b h)
]

-- Rounds in which no session comes about.
abbrev pub AreDown : List Round → Type 0
AreDown = All (λ round. established round ≡ false)

-- Whatever the network does, the backoff stays between one second and one minute.
pub app_rounds-IsDelay :
    (request : Option Text) (b : ℕ) (rounds : List Round)
    → IsDelay b
    → IsDelay (app_rounds request b rounds).1
unfolding app_rounds
app_rounds-IsDelay request b [] h = h
app_rounds-IsDelay request b (round ∷ rounds) h =
    app_rounds-IsDelay request (app_round request b round).1 rounds
      (app_round-IsDelay request b round h)

pub power_pos : (k : ℕ) → 1 ≤ 2 ^ k
power_pos zero = omega arith
power_pos (suc k) = omega (arith, power_pos k)

pub backoff_delay-min : (b : ℕ) → b ≤ backoff_max → (backoff_delay b).1 ≡ min (b * 2) backoff_max
unfolding backoff_delay doubled
backoff_delay-min b h = ground arith

-- A round of failures sleeps once, for the backoff.
pub app_rounds_slept :
    (request : Option Text) (b : ℕ) (rounds : List Round)
    → IsDelay b
    → AreDown rounds
    → total_slept (app_rounds request b rounds).0 ≤ backoff_max * length rounds
unfolding app_rounds app_round
app_rounds_slept request b [] h downs = omega arith
app_rounds_slept request b (round ∷ rounds) h (down, downs) = rw down (
    omega (
      arith,
      backoff_slept b,
      h.1,
      total_slept-append (backoff_delay b).0 (app_rounds request (backoff_delay b).1 rounds).0,
      app_rounds_slept request (backoff_delay b).1 rounds (backoff_delay-IsDelay b h) downs,
    ))
