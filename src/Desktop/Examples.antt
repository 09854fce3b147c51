-- ===== src/Desktop/Examples.antt =====
-- The desktop client's request for a test message.
use super_victor.Prelude.{
  ℕ, ◌+◌, ◌≤◌, ◌<◌, ◌≡◌, refl, Option, none, some, [], ◌∷◌, ◌++◌, arith, leb, if◌then◌else◌, length,
  replicate,
}
use super_victor.Prelude.Text.{Text, codes, len, as_bytes}
use super_victor.Http.Samples.{plain}
use super_victor.Http.{ok, HeaplessString, empty_response, LambdaResponse}
use super_victor.Http.Build.{post_text, len-append}
use super_victor.Desktop.{JsonCore, request_of}
use super_victor.Desktop.Round.{request_of_quoted}

-- Quotes around a text, without escapes.
abbrev quoted : Text → Text
quoted t = b'"' ∷ (t ++ codes "\"")

abbrev encode : ℕ → Text → Option Text
encode n t = if leb (len (quoted t)) n then some (quoted t) else none

encode_quoted : (n : ℕ) (t j : Text) → encode n t ≡ some j → (rest : Text) × (j ≡ b'"' ∷ rest)
encode_quoted n t j e = (t ++ codes "\"", ground arith)

encode_room : (n : ℕ) (t j : Text) → encode n t ≡ some j → len j < n + 1
encode_room n t j e = ground arith

len-quoted : (t : Text) → len (quoted t) ≡ len t + 2
len-quoted t =
    omega (arith, len-append (codes "\"") (t ++ codes "\""), len-append t (codes "\""), len_quote)
  where
    len_quote : len (codes "\"") ≡ 1
    len_quote = unfold len as_bytes in refl

encode_full : (n : ℕ) (t : Text) → n < len t + 2 → encode n t ≡ none
encode_full n t h = ground (arith, len-quoted t)

abbrev json : JsonCore
json = record {
  encode = encode;
  encode_quoted = encode_quoted;
  encode_room = encode_room;
  encode_full = encode_full;
}

abbrev message : Text
message = codes "{\"id\":\"1\"}"

abbrev request : Text
request = post_text (codes "api.test") (quoted message) none

builds : request_of plain json (codes "api.test") (some message) ≡ ok request
unfolding request_of super_victor.Http.post_request super_victor.Http.pushes len
    super_victor.Http.digits super_victor.Prelude.Decimal.decimal
builds = refl

request_of_quoted_example :
    (rest : Text) × (request ≡ post_text (codes "api.test") (b'"' ∷ rest) none)
request_of_quoted_example =
    request_of_quoted plain json (codes "api.test") (some message) request builds
