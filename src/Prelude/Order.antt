-- ===== src/Prelude/Order.antt =====
-- The order of texts that the storage backends sort by, that of their characters from the left, and how
-- it reads numbers of a fixed width.
use Prim.Native.Nat.{ℕ, zero, suc, ◌+◌, ◌/◌, ◌%◌, ◌^◌, ◌<◌, ◌≤◌}
use mathlib.Core.Path.{◌≡◌, refl}
use mathlib.Core.Logic.{◌⊎◌, inl, inr}
use mathlib.Core.Bool.{Bool, true, false, ◌&&◌, ◌||◌}
use mathlib.Core.List.{[], ◌∷◌, ◌++◌, append_assoc}
use native.Mathlib.Omega.{arith}
use native.Mathlib.Nat.{pow-suc}
use super_victor.Prelude.Tests.{ltb, ◌==◌, Bool-cases}
use super_victor.Prelude.Text.{Text}
use super_victor.Prelude.Decimal.{fixed}

abbrev pub le_text : Text → Text → Bool
le_text [] t = true
le_text (c ∷ s) [] = false
le_text (c ∷ s) (d ∷ t) = ltb c d || (c == d && le_text s t)

pub le_text-same : (p s t : Text) → le_text (p ++ s) (p ++ t) ≡ le_text s t
le_text-same [] s t = refl
le_text-same (c ∷ p) s t = ground (arith, le_text-same p s t)

pub lt-or-eq : (a b : ℕ) → a ≤ b → (a < b) ⊎ (a ≡ b)
lt-or-eq a b h = elim (Bool-cases (ltb a b)) [
  | inl e ↦ inl (ground arith)
  | inr e ↦ inr (ground arith)
]

pub le_text-fixed :
    (w n m : ℕ) (s t : Text) → n < m → m < 10 ^ w → le_text (fixed w n ++ s) (fixed w m ++ t) ≡ true
unfolding fixed
le_text-fixed zero n m s t h k = absurd (omega arith)
le_text-fixed (suc w) n m s t h k =
    rw
      (
        append_assoc (fixed w (n / 10)) ((48 + n % 10) ∷ []) s,
        append_assoc (fixed w (m / 10)) ((48 + m % 10) ∷ []) t,
      )
      (elim (lt-or-eq (n / 10) (m / 10) (omega arith)) [
        | inl l ↦ le_text-fixed w (n / 10) (m / 10) _ _ l (omega (arith, pow-suc 10 w))
        | inr e ↦
            rw (e, le_text-same (fixed w (m / 10)) ((48 + n % 10) ∷ s) ((48 + m % 10) ∷ t))
              (ground arith)
      ])

-- Two numbers of one width, with what follows them.
pub le_text_field :
    (w n m : ℕ) (s t : Text)
    → m < 10 ^ w
    → (n < m) ⊎ ((n ≡ m) × (le_text s t ≡ true))
    → le_text (fixed w n ++ s) (fixed w m ++ t) ≡ true
le_text_field w n m s t k (inl h) = le_text-fixed w n m s t h k
le_text_field w n m s t k (inr (e, h)) = rw (e, le_text-same (fixed w m) s t) h
