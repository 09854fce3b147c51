-- ===== src/Time/Tail.antt =====
-- The fractions of timestamps, as `format_rfc3339` prints them, sort as their nanoseconds do.
use super_victor.Prelude.{
  ℕ, suc, ◌/◌, ◌%◌, ◌^◌, ◌≤◌, ◌<◌, ◌≡◌, refl, ◌∙◌, ◌⊎◌, inl, inr, true, false, [], ◌∷◌, ◌++◌,
  append_assoc, ◌==◌, if◌then◌else◌, arith, Bool-cases, lt→ltb,
}
use super_victor.Prelude.Text.{Text, codes}
use super_victor.Prelude.Order.{le_text, lt-or-eq, le_text-same, le_text_field}
use super_victor.Prelude.Decimal.{fixed}
use super_victor.Time.{fraction}
use super_victor.Time.RoundTrip.{tail}

abbrev off : Text
off = codes "+00:00"

fixed_groups : (v n : ℕ) → fixed (suc (suc (suc v))) n ≡ fixed v (n / 1000) ++ fixed 3 (n % 1000)
unfolding fixed
fixed_groups v n =
    let e0 : n / 10 / 10 / 10 ≡ n / 1000 = omega arith in
    let e1 : n % 1000 / 10 / 10 % 10 ≡ n / 10 / 10 % 10 = omega arith in
    let e2 : n % 1000 / 10 % 10 ≡ n / 10 % 10 = omega arith in
    let e3 : n % 1000 % 10 ≡ n % 10 = omega arith in
    rw (append_assoc, append_assoc, e0, e1, e2, e3) refl

-- A group of three digits with what follows it, or nothing but the offset.
abbrev part : ℕ → ℕ → Text → Text
part p x u = if p == 0 then off else fixed 3 x ++ u

abbrev dotted : ℕ → ℕ → Text → Text
dotted p x u = if p == 0 then off else b'.' ∷ (fixed 3 x ++ u)

-- The tail of a timestamp, group by group.
abbrev groups : ℕ → Text
groups nanos =
    dotted nanos (nanos / 1000000)
      (part (nanos % 1000000) (nanos / 1000 % 1000) (part (nanos % 1000) (nanos % 1000) off))

le_text-off : (n : ℕ) (t : Text) → le_text off (fixed 3 n ++ t) ≡ true
unfolding fixed
le_text-off n t = ground arith

module _ (p q x y : ℕ) (u v : Text) (zeros : q ≡ 0 → p ≡ 0) (small : y < 1000)
    (order : (x < y) ⊎ ((x ≡ y) × (le_text u v ≡ true))) where
  part_le : le_text (part p x u) (part q y v) ≡ true
  part_le = elim (Bool-cases (p == 0)) [
    | inl e ↦ elim (Bool-cases (q == 0)) [
      | inl f ↦ rw (e, f) refl
      | inr f ↦ rw (e, f) (le_text-off y v)
    ]
    | inr e ↦
        let f : (q == 0) ≡ false = ground (arith, e, zeros) in
        rw (e, f) (le_text_field 3 x y u v small order)
  ]

  dotted_le : le_text (dotted p x u) (dotted q y v) ≡ true
  dotted_le = elim (Bool-cases (p == 0)) [
    | inl e ↦ elim (Bool-cases (q == 0)) [ inl f ↦ rw (e, f) refl | inr f ↦ rw (e, f) refl ]
    | inr e ↦
        let f : (q == 0) ≡ false = ground (arith, e, zeros) in
        rw (e, f)
          (le_text-same (b'.' ∷ []) (fixed 3 x ++ u) (fixed 3 y ++ v)
            ∙ le_text_field 3 x y u v small order)
  ]

module _ (nanos : ℕ) (h : nanos < 10 ^ 9) (e : (nanos == 0) ≡ false) where
  fraction_three : (nanos % 1000000 == 0) ≡ true → fraction nanos ≡ b'.' ∷ fixed 3 (nanos / 1000000)
  unfolding fraction
  fraction_three e1 = rw (e, e1, lt→ltb (nanos / 1000000) 1000 (omega arith))

  fraction_six :
      (nanos % 1000000 == 0) ≡ false
      → (nanos % 1000 == 0) ≡ true
      → fraction nanos ≡ b'.' ∷ fixed 6 (nanos / 1000)
  unfolding fraction
  fraction_six e1 e2 = rw (e, e1, e2, lt→ltb (nanos / 1000) 1000000 (omega arith))

  fraction_nine :
      (nanos % 1000000 == 0) ≡ false
      → (nanos % 1000 == 0) ≡ false
      → fraction nanos ≡ b'.' ∷ fixed 9 nanos
  unfolding fraction
  fraction_nine e1 e2 = rw (e, e1, e2, lt→ltb nanos 1000000000 h)

fixed_six :
    (n : ℕ) (u : Text)
    → fixed 6 (n / 1000) ++ u ≡ fixed 3 (n / 1000000) ++ (fixed 3 (n / 1000 % 1000) ++ u)
fixed_six n u =
    let d : n / 1000 / 1000 ≡ n / 1000000 = omega arith in
    rw (fixed_groups 3 (n / 1000), d, append_assoc) refl

fixed_nine :
    (n : ℕ) (u : Text)
    → fixed 9 n ++ u
      ≡ fixed 3 (n / 1000000) ++ (fixed 3 (n / 1000 % 1000) ++ (fixed 3 (n % 1000) ++ u))
fixed_nine n u = rw (fixed_groups 6 n, append_assoc, fixed_six n (fixed 3 (n % 1000) ++ u)) refl

tail-groups : (nanos : ℕ) → nanos < 10 ^ 9 → tail nanos ≡ groups nanos
tail-groups nanos h = elim (Bool-cases (nanos == 0)) [
  | inl e ↦ unfold fraction in rw e refl
  | inr e ↦ elim (Bool-cases (nanos % 1000000 == 0)) [
    | inl e1 ↦ rw (fraction_three nanos h e e1, e, e1) refl
    | inr e1 ↦ elim (Bool-cases (nanos % 1000 == 0)) [
      | inl e2 ↦ rw (fraction_six nanos h e e1 e2, e, e1, e2, fixed_six nanos off) refl
      | inr e2 ↦ rw (fraction_nine nanos h e e1 e2, e, e1, e2, fixed_nine nanos off) refl
    ]
  ]
]

groups_le : (n m : ℕ) → n ≤ m → m < 10 ^ 9 → le_text (groups n) (groups m) ≡ true
groups_le n m h k =
    dotted_le n m (n / 1000000) (m / 1000000) _ _ (λ e. omega (arith, e, h)) (omega (arith, k))
      (elim (lt-or-eq (n / 1000000) (m / 1000000) (omega (arith, h))) [
        | inl l ↦ inl l
        | inr e ↦ inr (
          e,
          part_le (n % 1000000) (m % 1000000) (n / 1000 % 1000) (m / 1000 % 1000) _ _
              (λ z. omega (arith, z, e, h)) (omega arith)
              (elim (lt-or-eq (n / 1000 % 1000) (m / 1000 % 1000) (omega (arith, e, h))) [
                | inl l ↦ inl l
                | inr f ↦ inr (
                  f,
                  part_le (n % 1000) (m % 1000) (n % 1000) (m % 1000) off off
                      (λ z. omega (arith, z, e, f, h)) (omega arith)
                      (elim (lt-or-eq (n % 1000) (m % 1000) (omega (arith, e, f, h))) [
                        | inl l ↦ inl l
                        | inr g ↦ inr (g, refl)
                      ]),
                )
              ]),
        )
      ])

pub tail_le : (n m : ℕ) → n ≤ m → m < 10 ^ 9 → le_text (tail n) (tail m) ≡ true
tail_le n m h k = rw (tail-groups n (omega (arith, h, k)), tail-groups m k) (groups_le n m h k)
