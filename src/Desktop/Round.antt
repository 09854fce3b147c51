-- ===== src/Desktop/Round.antt =====
-- The request that the desktop client sends, and the turn of its loop.
use super_victor.Prelude.{
  ◌≤◌, ◌≡◌, refl, ◌∙◌, ap, sym, inl, inr, Option, none, ◌∷◌, arith, Option-cases,
}
use super_victor.Prelude.Text.{Text, len}
use super_victor.Http.{HttpError, HttpResult, ok, err, HeaplessString, LambdaResponse}
use super_victor.Http.Build.{post_text, post_request_lem, post_request-none}
use super_victor.Desktop.{JsonCore, panics, json_body, request_of, print_body}

ok_same : {r s : Text} → ◌≡◌ {A = HttpResult Text} (ok r) (ok s) → r ≡ s
ok_same e = cc

err_not_ok : {x : HttpError} {s : Text} → ◌≡◌ {A = HttpResult Text} (err x) (ok s) → ⊥
err_not_ok e = cc

module _ (string : HeaplessString) (json : JsonCore) (host : Text) (message : Option Text) where
  -- The body of every request that the client builds is a JSON string, so none is the JSON object of
  -- an uplink: the body has been serialised before and `post_request` does it again.
  pub request_of_quoted :
      (r : Text)
      → request_of string json host message ≡ ok r
      → (rest : Text) × (r ≡ post_text host (b'"' ∷ rest) none)
  unfolding request_of
  request_of_quoted r e = elim (Option-cases (json.encode 256 (json_body message))) [
    | inl f ↦ elim (post_request-none string host none) [
      | inl (bad, _) ↦ absurd (err_not_ok (sym bad ∙ rw f at e))
      | inr (over, _) ↦ absurd (err_not_ok (sym over ∙ rw f at e))
    ]
    | inr (j, f) ↦
        let (rest, q) = json.encode_quoted 256 (json_body message) j f in
        elim (post_request_lem string host none j
          (omega (arith, json.encode_room 256 (json_body message) j f))) [
            | inl (built, _) ↦
                (rest, ok_same (sym (rw f at e) ∙ built) ∙ ap (λ b. post_text host b none) q)
            | inr (over, _) ↦ absurd (err_not_ok (sym over ∙ rw f at e))
          ]
  ]

-- A response whose body has 1023 or 1024 bytes is within the bounds of the parser, and ends the
-- client: its JSON string does not have room in 1024 bytes.
pub print_body_panics :
    (string : HeaplessString) (json : JsonCore) (response : LambdaResponse)
    → 1023 ≤ len response.body
    → print_body string json response ≡ panics
unfolding print_body
print_body_panics string json response h =
    rw (print_body, json.encode_full 1024 response.body (omega arith)) refl
