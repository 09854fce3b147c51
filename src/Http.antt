-- ===== src/Http.antt =====
-- supervictor/edge/src/network/http.rs, with `HttpError` of supervictor/edge/src/error.rs and
-- `LambdaResponse` of supervictor/edge/src/models/uplink.rs. `heapless::String` is not part of the
-- repository: `extend` is its `push_str` at a capacity in bytes.
pub mod Build
pub mod Parse
pub mod Samples
mod Examples
use super_victor.Prelude.{
  ℕ, zero, suc, ◌+◌, ◌/◌, ◌%◌, ◌≤◌, ◌<◌, ◌≡◌, Option, none, some, List, [], ◌∷◌, ◌++◌, ◌==◌,
  if◌then◌else◌, map,
}
use super_victor.Prelude.Text.{Text, codes, len}
use super_victor.Prelude.Str.{trim, is_empty, split_once, eq_ignore_ascii_case, lines}

pub data HttpError : Type 0 where
  deserialization serialization generic_parse_error buffer_overflow : HttpError

-- `Result<A, HttpError>`; `panicked` is an index out of bounds.
pub data HttpResult (A : Type 0) : Type 0 where
  ok : A → HttpResult A
  err : HttpError → HttpResult A
  panicked : HttpResult A

infixl 5 ◌>>=◌
abbrev pub ◌>>=◌ : {A B : Type 0} → HttpResult A → (A → HttpResult B) → HttpResult B
ok a >>= f = f a
err e >>= f = err e
panicked >>= f = panicked

-- `push_str`: appends, or fails if the capacity is passed; so does `push` of one character.
pub record HeaplessString : Type 0 where
  pub extend : ℕ → Text → Text → Option Text
  pub extend_fits : (n : ℕ) (buf s : Text) → len buf + len s ≤ n → extend n buf s ≡ some (buf ++ s)
  pub extend_full : (n : ℕ) (buf s : Text) → n < len buf + len s → extend n buf s ≡ none

-- The digits of `push_usize`, written to an array of `fuel` places, in the order in which they are
-- pushed; `none` is the write behind the end of the array.
unfoldable pub digits : ℕ → ℕ → Text → Option Text
digits zero n acc = if n == 0 then some acc else none
digits (suc fuel) n acc =
    let rest = digits fuel (n / 10) ((48 + n % 10) ∷ acc) in if n == 0 then some acc else rest

-- `path.unwrap_or("/")`
abbrev pub path_of : Option Text → Text
path_of (some p) = p
path_of none = codes "/"

pub record LambdaResponse : Type 0 where
  pub x_amzn_request_id : Text
  pub x_amz_apigw_id : Text
  pub x_amzn_trace_id : Text
  pub content_type : Text
  pub content_length : Text
  pub date : Text
  pub body : Text

abbrev pub empty_response : LambdaResponse
empty_response = record {
  x_amzn_request_id = [];
  x_amz_apigw_id = [];
  x_amzn_trace_id = [];
  content_type = [];
  content_length = [];
  date = [];
  body = [];
}

module _ (string : HeaplessString) where
  open string use {extend}

  unfoldable pub push : ℕ → Text → Text → HttpResult Text
  push n buf s = elim (extend n buf s) [ some r ↦ ok r | none ↦ err buffer_overflow ]

  -- `push(…)?` for each of the parts in turn.
  unfoldable pub pushes : ℕ → Text → List Text → HttpResult Text
  unfolding push
  pushes n buf [] = ok buf
  pushes n buf (s ∷ ss) = push n buf s >>= λ r. pushes n r ss

  -- The loop that pushes the digits one by one.
  unfoldable pub push_digits : ℕ → Text → Option Text → HttpResult Text
  push_digits n buf (some ds) = pushes n buf (map (λ c. c ∷ []) ds)
  push_digits n buf none = panicked

  unfoldable pub push_usize : ℕ → Text → ℕ → HttpResult Text
  unfolding push_digits
  push_usize n buf value =
      if value == 0 then push n buf (codes "0") else push_digits n buf (digits 10 value [])

  unfoldable pub get_request : Text → Option Text → HttpResult Text
  unfolding pushes
  get_request host path = pushes 192 [] (
      codes "GET "
      ∷ path_of path
      ∷ codes " HTTP/1.1\r\n"
      ∷ codes "Host: "
      ∷ host
      ∷ codes "\r\n"
      ∷ codes "User-Agent: Uplink/0.1.0 (Platform; ESP32-C3)\r\n"
      ∷ codes "Connection: close\r\n"
      ∷ codes "Accept: */*\r\n\r\n"
      ∷ [])

  -- From the serialised data on; `json` is what `serde_json_core::to_string::<T, 256>` made of it.
  unfoldable pub post_data : Option Text → Text → HttpResult Text
  unfolding push_usize
  post_data none head = err serialization
  post_data (some j) head = push 512 head (codes "Content-Length: ") >>= λ r1.
      push_usize 512 r1 (len j) >>= λ r2. pushes 512 r2 (codes "\r\n\r\n" ∷ j ∷ [])

  unfoldable pub post_request : Text → Option Text → Option Text → HttpResult Text
  unfolding post_data
  post_request host json path =
      pushes 512 [] (
        codes "POST "
        ∷ path_of path
        ∷ codes " HTTP/1.1\r\n"
        ∷ codes "Host: "
        ∷ host
        ∷ codes "\r\nContent-Type: application/json\r\n"
        ∷ codes "Connection: close\r\n"
        ∷ [])
      >>= λ head. post_data json head

  -- `push_to_hstring`: the field is cleared first.
  unfoldable pub push_to_hstring : ℕ → Text → HttpResult Text
  push_to_hstring n v = elim (extend n [] v) [ some r ↦ ok r | none ↦ err deserialization ]

  -- The chain of tests on the key of a header.
  unfoldable pub set_field : LambdaResponse → Text → Text → HttpResult LambdaResponse
  unfolding push_to_hstring
  set_field r key v =
      if eq_ignore_ascii_case key (codes "x-amzn-RequestId")
      then (push_to_hstring 64 v >>= λ t. ok (record r { x_amzn_request_id = t }))
      else if eq_ignore_ascii_case key (codes "x-amz-apigw-id")
      then (push_to_hstring 32 v >>= λ t. ok (record r { x_amz_apigw_id = t }))
      else if eq_ignore_ascii_case key (codes "X-Amzn-Trace-Id")
      then (push_to_hstring 128 v >>= λ t. ok (record r { x_amzn_trace_id = t }))
      else if eq_ignore_ascii_case key (codes "content-type")
      then (push_to_hstring 32 v >>= λ t. ok (record r { content_type = t }))
      else if eq_ignore_ascii_case key (codes "content-length")
      then (push_to_hstring 8 v >>= λ t. ok (record r { content_length = t }))
      else if eq_ignore_ascii_case key (codes "date")
      then (push_to_hstring 32 v >>= λ t. ok (record r { date = t }))
      else ok r

  unfoldable pub header_line : LambdaResponse → Text → HttpResult LambdaResponse
  unfolding set_field
  header_line r line = elim (split_once b':' line) [
    | some (key, v) ↦ set_field r (trim key) (trim v)
    | none ↦ ok r
  ]

  -- The first loop: up to the first empty line; what is left are the lines of the body.
  unfoldable pub headers : LambdaResponse → List Text → HttpResult (LambdaResponse × List Text)
  unfolding header_line
  headers r [] = ok (r, [])
  headers r (line ∷ rest) =
      let next = header_line r line >>= λ r'. headers r' rest in
      if is_empty line then ok (r, rest) else next

  -- A push to the body.
  unfoldable pub add_body : Text → Text → HttpResult Text
  add_body buf s = elim (extend 1024 buf s) [ some b ↦ ok b | none ↦ err deserialization ]

  -- The second loop: the lines, with a line feed in front of each but the first.
  unfoldable pub body_lines : Text → List Text → HttpResult Text
  unfolding add_body
  body_lines buf [] = ok buf
  body_lines buf (line ∷ rest) =
      add_body buf (codes "\n") >>= λ b. add_body b line >>= λ b'. body_lines b' rest

  unfoldable pub body_text : List Text → HttpResult Text
  unfolding body_lines
  body_text [] = ok []
  body_text (line ∷ rest) = add_body [] line >>= λ b. body_lines b rest

  unfoldable pub parse_lines : List Text → HttpResult LambdaResponse
  unfolding headers body_text
  parse_lines [] = err deserialization
  parse_lines (status ∷ rest) = headers empty_response rest >>= λ (r, left).
      body_text left >>= λ text. ok (record r { body = text })

  unfoldable pub parse_response : Text → HttpResult LambdaResponse
  unfolding parse_lines
  parse_response response = parse_lines (lines response)
