-- ===== src/Time/Order.antt =====
-- The texts of timestamps sort as their times do.
use super_victor.Prelude.{
  ℕ, zero, suc, ◌+◌, ◌*◌, ◌/◌, ◌^◌, ◌≤◌, ◌<◌, ◌≡◌, refl, sym, ap, ◌∙◌, ◌⊎◌, inl, inr, true, [], ◌∷◌,
  ◌++◌, arith,
}
use mathlib.Core.Path.{subst}
use super_victor.Prelude.Text.{Text}
use super_victor.Prelude.Order.{le_text, lt-or-eq, le_text-same, le_text_field}
use super_victor.Prelude.Decimal.{fixed}
use super_victor.Time.{format_rfc3339}
use super_victor.Time.Civil.{CivilDate, civil_from_days}
use super_victor.Time.Civil.Gregorian.{IsDate, next_day, days_in_month}
use super_victor.Time.Civil.Counting.{civil_from_days-suc, civil_from_days-IsDate}
use super_victor.Time.Layout.{spelled}
use super_victor.Time.Range.{second_10000}
use super_victor.Time.RoundTrip.{
  tail, hour, minute, second, date, date-Fits, format-spelled, format_rfc3339-eq,
}
use super_victor.Time.Tail.{tail_le}

-- Days in the order of the calendar.
abbrev key : CivilDate → ℕ
key c = c.year * 372 + c.month * 31 + c.day

key-next_day : (c : CivilDate) → IsDate c → key c < key (next_day c)
unfolding next_day days_in_month
key-next_day c v = ground (arith, v)

key-suc : (n : ℕ) → key (civil_from_days n) < key (civil_from_days (suc n))
key-suc n =
    let e : key (civil_from_days (suc n)) ≡ key (next_day (civil_from_days n)) =
      ap key (civil_from_days-suc n) in
    omega (arith, e, key-next_day (civil_from_days n) (civil_from_days-IsDate n).0)

key_mono : (a b : ℕ) → a < b → key (civil_from_days a) < key (civil_from_days b)
key_mono a zero h = absurd (omega (arith, h))
key_mono a (suc b) h = elim (lt-or-eq a b (omega (arith, h))) [
  | inl l ↦ omega (arith, key_mono a b l, key-suc b)
  | inr e ↦ subst (λ x. key (civil_from_days x) < key (civil_from_days (suc b))) (sym e) (key-suc b)
]

-- A number after its separator, with what follows it.
separated :
    (sep n m : ℕ) (s t : Text)
    → m < 100
    → (n < m) ⊎ ((n ≡ m) × (le_text s t ≡ true))
    → le_text (sep ∷ (fixed 2 n ++ s)) (sep ∷ (fixed 2 m ++ t)) ≡ true
separated sep n m s t k h =
    le_text-same (sep ∷ []) (fixed 2 n ++ s) (fixed 2 m ++ t) ∙ le_text_field 2 n m s t k h

-- `spelled`, from the left.
abbrev clock : ℕ → ℕ → ℕ → Text → Text
clock h m sec t = b'T' ∷ (fixed 2 h ++ b':' ∷ (fixed 2 m ++ b':' ∷ (fixed 2 sec ++ t)))

abbrev stamped : CivilDate → ℕ → ℕ → ℕ → Text → Text
stamped c h m sec t =
    fixed 4 c.year ++ b'-' ∷ (fixed 2 c.month ++ b'-' ∷ (fixed 2 c.day ++ clock h m sec t))

spelled-stamped :
    (c : CivilDate) (h m sec : ℕ) (t : Text) → spelled c h m sec t ≡ stamped c h m sec t
unfolding spelled fixed
spelled-stamped c h m sec t = refl

-- The times of one day.
module _ (h m s h' m' s' : ℕ) (t u : Text) (day : h' < 24) (m_in : m < 60) (s_in : s < 60)
    (m'_in : m' < 60) (s'_in : s' < 60) where
  clock_le :
      (h * 3600 + m * 60 + s < h' * 3600 + m' * 60 + s')
        ⊎ ((h * 3600 + m * 60 + s ≡ h' * 3600 + m' * 60 + s') × (le_text t u ≡ true))
      → le_text (clock h m s t) (clock h' m' s' u) ≡ true
  clock_le o =
      separated b'T' h h' _ _ (omega (arith, day))
        (elim (lt-or-eq h h' (omega (arith, o, day, m_in, s_in, m'_in, s'_in))) [
          | inl l ↦ inl l
          | inr e ↦ inr (
            e,
            separated b':' m m' _ _ (omega (arith, m'_in))
                (elim (lt-or-eq m m' (omega (arith, o, e, m_in, s_in, m'_in, s'_in))) [
                  | inl l ↦ inl l
                  | inr f ↦
                      inr (
                        f,
                        separated b':' s s' t u (omega (arith, s'_in)) (ground (arith, o, e, f)),
                      )
                ]),
          )
        ])

module _ (c d : CivilDate) (t u : Text) (v : IsDate c) (w : IsDate d) (year : d.year < 10000) where
  stamped_le :
      (h m s h' m' s' : ℕ)
      → (key c < key d) ⊎ ((key c ≡ key d) × (le_text (clock h m s t) (clock h' m' s' u) ≡ true))
      → le_text (stamped c h m s t) (stamped d h' m' s' u) ≡ true
  unfolding days_in_month
  stamped_le h m s h' m' s' o =
      le_text_field 4 c.year d.year _ _ year
        (elim (lt-or-eq c.year d.year (ground (arith, o, v, w))) [
          | inl l ↦ inl l
          | inr e ↦ inr (
            e,
            separated b'-' c.month d.month _ _ (ground (arith, w))
                (elim (lt-or-eq c.month d.month (ground (arith, o, e, v, w))) [
                  | inl l ↦ inl l
                  | inr f ↦ inr (
                    f,
                    separated b'-' c.day d.day _ _ (ground (arith, w)) (ground (arith, o, e, f)),
                  )
                ]),
          )
        ])

-- Two times of one day, with their fractions.
times_le :
    (s n t m : ℕ)
    → s * 10 ^ 9 + n ≤ t * 10 ^ 9 + m
    → n < 10 ^ 9
    → m < 10 ^ 9
    → s / 86400 ≡ t / 86400
    → le_text
        (clock (hour s) (minute s) (second s) (tail n))
        (clock (hour t) (minute t) (second t) (tail m))
      ≡ true
times_le s n t m h nn mm e =
    clock_le (hour s) (minute s) (second s) (hour t) (minute t) (second t) (tail n) (tail m)
      (omega arith) (omega arith) (omega arith) (omega arith) (omega arith)
      (elim (lt-or-eq s t (omega (arith, h, nn, mm))) [
        | inl l ↦ inl (omega (arith, l, e))
        | inr f ↦ inr (omega (arith, f), tail_le n m (omega (arith, h, f)) mm)
      ])

-- Sorting timestamps as texts is sorting them by time, down to the nanosecond.
pub format_rfc3339_le :
    (s n t m : ℕ)
    → s * 10 ^ 9 + n ≤ t * 10 ^ 9 + m
    → t < second_10000
    → n < 10 ^ 9
    → m < 10 ^ 9
    → le_text (format_rfc3339 s n) (format_rfc3339 t m) ≡ true
format_rfc3339_le s n t m h k nn mm =
    rw
      (
        format_rfc3339-eq,
        format-spelled (date s) (hour s) (minute s) (second s) (tail n)
            (date-Fits s (omega (arith, h, k, nn, mm))),
        spelled-stamped,
        format_rfc3339-eq t m,
        format-spelled (date t) (hour t) (minute t) (second t) (tail m) (date-Fits t k),
        spelled-stamped (date t) (hour t) (minute t) (second t) (tail m),
      )
      (stamped_le (date s) (date t) (tail n) (tail m) (civil_from_days-IsDate (s / 86400)).0
        (civil_from_days-IsDate (t / 86400)).0 (date-Fits t k).year _ _ _ _ _ _
        (elim (lt-or-eq (s / 86400) (t / 86400) (omega (arith, h, nn, mm))) [
          | inl l ↦ inl (key_mono (s / 86400) (t / 86400) l)
          | inr e ↦ inr (ap (λ x. key (civil_from_days x)) e, times_le s n t m h nn mm e)
        ]))
