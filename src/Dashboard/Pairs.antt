-- ===== src/Dashboard/Pairs.antt =====
-- Pairs of a name and a token in a `Cookie` header, as `cookie_value` of
-- supervictor/endpoint/src/ui/mod.rs takes them apart.
use super_victor.Prelude.{
  ℕ, ◌≤◌, ◌≡◌, ◌≢◌, refl, sym, ◌∙◌, ◌⊎◌, inl, inr, Option, none, some, List, [], ◌∷◌, ◌++◌, All,
  arith, false, Option-cases, none-some,
}
use mathlib.Core.List.{reverse, reverse_aux, reverse-reverse}
use super_victor.Prelude.Text.{Text, codes}
use super_victor.Prelude.Str.{trim, trim_start, split, split_first, split_once, is_whitespace}
use super_victor.Dashboard.{csrf_cookie, pair_value, find_map}
use super_victor.Middleware.Admin.{split_first-append}

abbrev pub IsHexDigit : ℕ → Type 0
IsHexDigit c = ((48 ≤ c) × (c ≤ 57)) ⊎ ((97 ≤ c) × (c ≤ 102))

-- A text without the separator is one part.
pub split_first-whole : (sep : ℕ) (s : Text) → All (λ c. c ≢ sep) s → split_first sep s ≡ (s, [])
unfolding split_first
split_first-whole sep [] h = refl
split_first-whole sep (c ∷ s) (h, hs) = ground (arith, h, split_first-whole sep s hs)

pub split-append : (sep : ℕ) (s u : Text) → split sep (s ++ sep ∷ u) ≡ split sep s ++ split sep u
unfolding split
split-append sep s u = rw (split_first-append sep s u) refl

module _ {A B : Type 0} (f : A → Option B) where
  skip : {x : A} → f x ≡ none → (xs : List A) → find_map f (x ∷ xs) ≡ find_map f xs
  unfolding find_map
  skip e xs = rw (find_map, e) refl

  pub hit : {x : A} {b : B} → f x ≡ some b → (xs : List A) → find_map f (x ∷ xs) ≡ some b
  unfolding find_map
  hit e xs = rw (find_map, e) refl

  pub find_map-append :
      (xs ys : List A) → find_map f xs ≡ none → find_map f (xs ++ ys) ≡ find_map f ys
  find_map-append [] ys h = refl
  find_map-append (x ∷ xs) ys h = elim (Option-cases (f x)) [
    | inl e ↦ skip e (xs ++ ys) ∙ find_map-append xs ys (sym (skip e xs) ∙ h)
    | inr (b, e) ↦ absurd (none-some (sym h ∙ hit e xs))
  ]

pub weaken : {P Q : ℕ → Type 0} → ((c : ℕ) → P c → Q c) → (s : Text) → All P s → All Q s
weaken f [] h = tt
weaken f (c ∷ s) (h, hs) = (f c h, weaken f s hs)

-- A text without blanks is its own trim.
IsSolid : Text → Type 0
IsSolid = All (λ c. is_whitespace c ≡ false)

reverse_aux-IsSolid : (s t : Text) → IsSolid s → IsSolid t → IsSolid (reverse_aux s t)
unfolding IsSolid
reverse_aux-IsSolid [] t h k = k
reverse_aux-IsSolid (c ∷ s) t (h, hs) k = reverse_aux-IsSolid s (c ∷ t) hs (h, k)

trim_start-solid : (s : Text) → IsSolid s → trim_start s ≡ s
unfolding IsSolid trim_start
trim_start-solid [] h = refl
trim_start-solid (c ∷ s) (h, hs) = rw h refl

-- One blank in front is what `; ` leaves.
trim-solid : (s : Text) → IsSolid s → (trim s ≡ s) × (trim (b' ' ∷ s) ≡ s)
unfolding trim trim_start
trim-solid s h =
    let back : trim_start (reverse s) ≡ reverse s =
      trim_start-solid (reverse s) (reverse_aux-IsSolid s [] h (unfold IsSolid in tt)) in
    (
      rw (trim_start-solid s h, back) (reverse-reverse s),
      rw (trim_start-solid s h, back) (reverse-reverse s),
    )

abbrev pub pair : Text → Text
pair token = csrf_cookie ++ codes "=" ++ token

pair-IsSolid : (token : Text) → All IsHexDigit token → IsSolid (pair token)
unfolding IsSolid
pair-IsSolid token h =
    let rest = weaken (λ c d. ground (arith, d)) token h in
    (refl, (refl, (refl, (refl, (refl, (refl, (refl, (refl, rest))))))))

pub pair_value-pair :
    (token : Text)
    → All IsHexDigit token
    → (pair_value csrf_cookie (pair token) ≡ some token)
      × (pair_value csrf_cookie (b' ' ∷ pair token) ≡ some token)
unfolding pair_value split_once
pair_value-pair token h = (
  rw (trim-solid (pair token) (pair-IsSolid token h)).0 refl,
  rw (trim-solid (pair token) (pair-IsSolid token h)).1 refl,
)
