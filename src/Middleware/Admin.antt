-- ===== src/Middleware/Admin.antt =====
-- Who passes the admin gate, and what the log guard keeps.
use super_victor.Prelude.{
  ℕ, Bool, true, false, ◌||◌, ◌≡◌, ◌≢◌, refl, ◌↔◌, Option, none, some, List, [], ◌∷◌, ◌++◌, arith,
  any, All, Bool-cases, inl, inr, append_assoc,
}
use super_victor.Prelude.Text.{Text, codes}
use super_victor.Prelude.Str.{
  trim, split, split_first, split_once, eq_ignore_ascii_case, is_control,
}
use super_victor.Middleware.{
  is_admin_component, is_admin_subject, next, require_admin, sanitize_for_log,
}

-- The gate lets the route run exactly for a subject with an admin component; without a certificate
-- it does not.
pub require_admin_iff :
    {A : Type 0} (subject : Option Text) (run : A)
    → (require_admin subject run ≡ next run)
      ↔ ((dn : Text) × (subject ≡ some dn) × (is_admin_subject dn ≡ true))
unfolding require_admin
require_admin_iff none run = (λ e. cc, λ (dn, e, a). cc)
require_admin_iff (some dn) run = elim (Bool-cases (is_admin_subject dn)) [
  | inl a ↦ (λ _. (dn, refl, a), λ _. rw a)
  | inr a ↦ (λ e. absurd (ground (arith, a, e)), λ (dn', e, b). ground (arith, a, e, b))
]

-- A text with the separator is split there.
pub split_first-append :
    (sep : ℕ) (c s : Text)
    → split_first sep (c ++ sep ∷ s) ≡ ((split_first sep c).0, (split_first sep c).1 ++ split sep s)
unfolding split split_first
split_first-append sep [] s = ground arith
split_first-append sep (x ∷ c) s = ground (arith, split_first-append sep c s)

any-append : (p : Text → Bool) (xs ys : List Text) → any p (xs ++ ys) ≡ (any p xs || any p ys)
any-append p [] ys = refl
any-append p (x ∷ xs) ys = ground (arith, any-append p xs ys)

split_first-lacks : (c : Text) → All (λ x. x ≢ b',') c → split_first b',' c ≡ (c, [])
unfolding split_first
split_first-lacks [] h = refl
split_first-lacks (x ∷ c) h = ground (arith, split_first-lacks c h.1)

admin_passes : is_admin_subject (codes "OU=admin") ≡ true
unfolding is_admin_subject is_admin_component trim split split_once eq_ignore_ascii_case
admin_passes = refl

-- A comma separates what is admitted: a subject passes exactly if the text before the comma does or
-- the text behind it does.
pub is_admin_subject-append :
    (c s : Text) → is_admin_subject (c ++ b',' ∷ s) ≡ (is_admin_subject c || is_admin_subject s)
unfolding is_admin_subject split
is_admin_subject-append c s = rw (split_first-append b',' c s) (
    unfold split in
    ground (arith, any-append is_admin_component (split_first b',' c).1 (split b',' s)))

-- Without a comma a subject is one component.
pub is_admin_subject_single :
    (c : Text) → All (λ x. x ≢ b',') c → is_admin_subject c ≡ is_admin_component c
unfolding is_admin_subject split
is_admin_subject_single c h = rw (split_first-lacks c h) (ground arith)

-- A comma that the DN escapes separates too: whatever stands before it, a subject that ends in
-- `\\,OU=admin` passes, though by RFC 4514 this is the end of the value before the comma.
pub is_admin_subject_escaped : (s : Text) → is_admin_subject (s ++ codes "\\,OU=admin") ≡ true
is_admin_subject_escaped s =
    let comma : s ++ codes "\\,OU=admin" ≡ (s ++ codes "\\") ++ b',' ∷ codes "OU=admin" =
      simp append_assoc in
    rw (comma, is_admin_subject-append (s ++ codes "\\") (codes "OU=admin"), admin_passes)
      (ground arith)

-- The log guard removes every control character.
pub sanitize_for_log-clean : (s : Text) → All (λ c. is_control c ≡ false) (sanitize_for_log s)
unfolding sanitize_for_log
sanitize_for_log-clean [] = tt
sanitize_for_log-clean (c ∷ s) = ground (arith, sanitize_for_log-clean s)

pub sanitize_for_log_idem : (s : Text) → sanitize_for_log (sanitize_for_log s) ≡ sanitize_for_log s
unfolding sanitize_for_log
sanitize_for_log_idem [] = refl
sanitize_for_log_idem (c ∷ s) = ground (arith, sanitize_for_log_idem s)
