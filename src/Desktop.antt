-- ===== src/Desktop.antt =====
-- supervictor/edge/src/bin/desktop_main.rs: the loop of `socket_app`. What the peer does is the argument
-- of a round. serde_json_core is not part of the repository: `encode n t` is its `to_string` of the text
-- `t` into `n` bytes.
pub mod Round
mod Examples
use super_victor.Prelude.{
  ℕ, ◌+◌, ◌<◌, ◌≡◌, Bool, true, false, not, Option, none, some, List, [], ◌∷◌, ◌++◌, leb,
  if◌then◌else◌,
}
use super_victor.Prelude.Text.{Text, codes, len}
use super_victor.Http.{
  HttpResult, ok, err, panicked, HeaplessString, LambdaResponse, post_request, parse_response,
}

pub record JsonCore : Type 0 where
  pub encode : ℕ → Text → Option Text
  -- A text is encoded as a JSON string, with its two quotes and no character left out.
  pub encode_quoted : (n : ℕ) (t j : Text) → encode n t ≡ some j → (rest : Text) × (j ≡ b'"' ∷ rest)
  pub encode_room : (n : ℕ) (t j : Text) → encode n t ≡ some j → len j < n + 1
  pub encode_full : (n : ℕ) (t : Text) → n < len t + 2 → encode n t ≡ none

pub data Event : Type 0 where
  slept : ℕ → Event
  written parsed : Text → Event
  panic : Event

-- What the match on the response prints of its body, if it is one.
pub data Printed : Type 0 where
  nothing panics : Printed
  printed : Text → Printed

-- What the peer does in one turn; `response` is none if the read fails and `some none` if it is not
-- UTF-8.
pub record Peer : Type 0 where
  pub connected : Bool
  pub handshake_ok : Bool
  pub write_ok : Bool
  pub response : Option (Option Text)

-- `unwrap_or("{}").try_into().unwrap_or_default()`; `message` is what `to_string` made of the uplink.
unfoldable pub json_body : Option Text → Text
json_body none = codes "{}"
json_body (some t) = if leb (len t) 512 then t else []

module _ (string : HeaplessString) (json : JsonCore) where
  -- `post_request` serialises its data, here the body, which is a text.
  unfoldable pub request_of : Text → Option Text → HttpResult Text
  unfolding json_body
  request_of host message = post_request string host (json.encode 256 (json_body message)) none

  -- The print of the body of a response, whose `unwrap` may panic.
  unfoldable pub print_body : LambdaResponse → Printed
  print_body response = elim (json.encode 1024 response.body) [ some j ↦ printed j | none ↦ panics ]

  unfoldable pub print_response : Option (Option Text) → Printed
  unfolding print_body
  print_response none = nothing
  print_response (some none) = nothing
  print_response (some (some t)) = elim (parse_response string t) [
    | ok response ↦ print_body response
    | err e ↦ nothing
    | panicked ↦ panics
  ]

  -- One turn of the loop. A request that cannot be built or written sleeps and goes on with the next
  -- turn; the others sleep at the end.
  unfoldable pub turn : Text → Option Text → Peer → List Event
  unfolding request_of print_response
  turn host message peer =
      let last = slept 1000 ∷ [] in
      if not peer.connected
      then last
      else if not peer.handshake_ok
      then last
      else elim (request_of host message) [
        | err e ↦ last
        | panicked ↦ panic ∷ []
        | ok r ↦ if not peer.write_ok then last else elim (print_response peer.response) [
          | nothing ↦ written r ∷ last
          | printed j ↦ written r ∷ parsed j ∷ last
          | panics ↦ written r ∷ panic ∷ []
        ]
      ]
