-- ===== src/Config/Ports.antt =====
-- The numbers of the configuration.
use super_victor.Prelude.{
  ℕ, ◌*◌, ◌+◌, ◌-◌, ◌≤◌, ◌≡◌, refl, Option, some, [], ◌∷◌, arith, Option-cases, inl, inr,
}
use super_victor.Prelude.Text.{Text, codes}
use super_victor.Prelude.Decimal.{parse_unsigned, parse_digits, parse_digits1}
use super_victor.Exec.{Result, ok, err}
use super_victor.Config.{Config, u16_top, u64_top, from_env, number_or, loaded, unwrap_or, or_else}
use super_victor.Models.{AppError}
use mathlib.Core.Path.{subst}

-- A number that is read fits its type.
parse_digits_bound :
    (top : ℕ) (s : Text) (n m : ℕ) → n ≤ top → parse_digits top s n ≡ some m → m ≤ top
unfolding parse_digits
parse_digits_bound top [] n m h e = ground arith
parse_digits_bound top (c ∷ s) n m h e =
    ground (arith, parse_digits_bound top s (n * 10 + (c - 48)) m)

parse_unsigned_bound : (top : ℕ) (s : Text) (m : ℕ) → parse_unsigned top s ≡ some m → m ≤ top
unfolding parse_unsigned parse_digits1
parse_unsigned_bound top [] m e = cc
parse_unsigned_bound top (c ∷ []) m e = ground (arith, parse_digits_bound top (c ∷ []) 0 m)
parse_unsigned_bound top (c ∷ d ∷ s) m e =
    ground (arith, parse_digits_bound top (d ∷ s) 0 m, parse_digits_bound top (c ∷ d ∷ s) 0 m)

ok_same : {V A : Type 0} {a b : A} → ◌≡◌ {A = Result V A} (ok a) (ok b) → a ≡ b
ok_same e = cc

err_not_ok : {V A : Type 0} {x : AppError V} {a : A} → ◌≡◌ {A = Result V A} (err x) (ok a) → ⊥
err_not_ok e = cc

module _ {V : Type 0} (reason : Text → Text) (env : Text → Option Text) where
  -- A configuration that is read has a port of 16 bits and an interval of 64 bits, and the rest of
  -- it is what the environment has, with the defaults.
  pub from_env_bounds :
      (c : Config)
      → from_env {V = V} reason env ≡ ok c
      → (c ≡ loaded env c.port c.watchdog_interval_secs)
        × (c.port ≤ u16_top)
        × (c.watchdog_interval_secs ≤ u64_top)
  unfolding from_env number_or loaded
  from_env_bounds c e =
      let port_str =
        unwrap_or (or_else (env (codes "PORT")) (env (codes "AWS_LWA_PORT"))) (codes "8000") in
      let raw = unwrap_or (env (codes "WATCHDOG_INTERVAL_SECS")) (codes "300") in
      elim (Option-cases (parse_unsigned u16_top port_str)) [
        | inl f ↦ absurd (err_not_ok (rw f at e))
        | inr (port, f) ↦ elim (Option-cases (parse_unsigned u64_top raw)) [
          | inl g ↦ absurd (err_not_ok (rw (f, g) at e))
          | inr (secs, g) ↦
              let same : loaded env port secs ≡ c = ok_same (rw (f, g) at e) in
              subst
                (λ c.
                  (c ≡ loaded env c.port c.watchdog_interval_secs)
                  × (c.port ≤ u16_top)
                  × (c.watchdog_interval_secs ≤ u64_top))
                same
                (
                  refl,
                  parse_unsigned_bound u16_top port_str port f,
                  parse_unsigned_bound u64_top raw secs g,
                )
        ]
      ]
