-- ===== src/Http/Parse.antt =====
-- What `parse_response` reads, apart from the capacities of the fields it reads into.
use super_victor.Prelude.{
  ℕ, ◌+◌, ◌≤◌, ◌≡◌, refl, Bool, true, false, ◌&&◌, Option, none, some, List, [], ◌∷◌, ◌++◌, arith,
  leb, if◌then◌else◌, inl, inr, Bool-cases, append-nil, append_assoc, all,
}
use mathlib.Core.Path.{subst}
use super_victor.Prelude.Text.{Text, codes, len, len-nil}
use super_victor.Prelude.Str.{trim, is_empty, split_once, eq_ignore_ascii_case, lines}
use super_victor.Http.{
  deserialization, HttpResult, ok, err, ◌>>=◌, HeaplessString, LambdaResponse, push_to_hstring,
  set_field, header_line, headers, add_body, body_lines, body_text, empty_response, parse_response,
}
use super_victor.Http.Build.{len-append}

-- The bytes that there are for the value of a header; no field, no bound.
abbrev pub capacity : Text → Option ℕ
capacity key =
    if eq_ignore_ascii_case key (codes "x-amzn-RequestId")
    then some 64
    else if eq_ignore_ascii_case key (codes "x-amz-apigw-id")
    then some 32
    else if eq_ignore_ascii_case key (codes "X-Amzn-Trace-Id")
    then some 128
    else if eq_ignore_ascii_case key (codes "content-type")
    then some 32
    else if eq_ignore_ascii_case key (codes "content-length")
    then some 8
    else if eq_ignore_ascii_case key (codes "date")
    then some 32
    else none

-- The field that a header sets.
abbrev pub assign : LambdaResponse → Text → Text → LambdaResponse
assign r key v =
    if eq_ignore_ascii_case key (codes "x-amzn-RequestId")
    then record r { x_amzn_request_id = v }
    else if eq_ignore_ascii_case key (codes "x-amz-apigw-id")
    then record r { x_amz_apigw_id = v }
    else if eq_ignore_ascii_case key (codes "X-Amzn-Trace-Id")
    then record r { x_amzn_trace_id = v }
    else if eq_ignore_ascii_case key (codes "content-type")
    then record r { content_type = v }
    else if eq_ignore_ascii_case key (codes "content-length")
    then record r { content_length = v }
    else if eq_ignore_ascii_case key (codes "date")
    then record r { date = v }
    else r

abbrev within : Text → Option ℕ → Bool
within v none = true
within v (some n) = leb (len v) n

abbrev pub parts_fit : Option (Text × Text) → Bool
parts_fit none = true
parts_fit (some (key, v)) = within (trim v) (capacity (trim key))

-- A line is read if its value has the bytes it needs.
abbrev pub line_fits : Text → Bool
line_fits line = parts_fit (split_once b':' line)

abbrev assign_parts : LambdaResponse → Option (Text × Text) → LambdaResponse
assign_parts r none = r
assign_parts r (some (key, v)) = assign r (trim key) (trim v)

abbrev pub read_headers : LambdaResponse → List Text → LambdaResponse
read_headers r [] = r
read_headers r (line ∷ rest) = read_headers (assign_parts r (split_once b':' line)) rest

-- The lines in front of the first empty one, and those behind it.
abbrev pub before_blank : List Text → List Text
before_blank [] = []
before_blank (line ∷ rest) =
    let more = before_blank rest in if is_empty line then [] else line ∷ more

abbrev pub after_blank : List Text → List Text
after_blank [] = []
after_blank (line ∷ rest) = let more = after_blank rest in if is_empty line then rest else more

abbrev join_rest : List Text → Text
join_rest [] = []
join_rest (line ∷ rest) = (10 ∷ line) ++ join_rest rest

-- The lines with a line feed between any two.
abbrev pub join : List Text → Text
join [] = []
join (line ∷ rest) = line ++ join_rest rest

-- A value, or the error of every capacity.
abbrev pub checked : {A : Type 0} → Bool → A → HttpResult A
checked b a = if b then ok a else err deserialization

abbrev Reads : HttpResult Text → Text → Type 0
Reads r t = r ≡ checked (leb (len t) 1024) t

module _ (string : HeaplessString) where
  push_to_hstring_lem : (n : ℕ) (v : Text) → push_to_hstring string n v ≡ checked (leb (len v) n) v
  unfolding push_to_hstring
  push_to_hstring_lem n v = elim (Bool-cases (leb (len v) n)) [
    | inl fits ↦
        rw (push_to_hstring, fits, string.extend_fits n [] v (ground (arith, len-nil))) refl
    | inr full ↦
        rw (push_to_hstring, full, string.extend_full n [] v (ground (arith, len-nil))) refl
  ]

  store_lem :
      (n : ℕ) (v : Text) (f : Text → LambdaResponse)
      → (push_to_hstring string n v >>= λ t. ok (f t)) ≡ checked (leb (len v) n) (f v)
  store_lem n v f = elim (Bool-cases (leb (len v) n)) [
    | inl fits ↦ rw (push_to_hstring_lem n v, fits) refl
    | inr full ↦ rw (push_to_hstring_lem n v, full) refl
  ]

  -- One test of the chain.
  field_case :
      (b : Bool) (n : ℕ) (v : Text) (f : Text → LambdaResponse) {other : HttpResult LambdaResponse}
      (cap : Option ℕ) (r : LambdaResponse)
      → other ≡ checked (within v cap) r
      → (if b then (push_to_hstring string n v >>= λ t. ok (f t)) else other)
        ≡ checked (within v (if b then some n else cap)) (if b then f v else r)
  field_case true n v f cap r e = store_lem n v f
  field_case false n v f cap r e = e

  set_field_lem :
      (r : LambdaResponse) (key v : Text)
      → set_field string r key v ≡ checked (within v (capacity key)) (assign r key v)
  unfolding set_field
  set_field_lem r key v =
      let is = λ (name : Text). eq_ignore_ascii_case key name in
      field_case (is (codes "x-amzn-RequestId")) 64 v (λ t. record r { x_amzn_request_id = t }) _ _
        (field_case (is (codes "x-amz-apigw-id")) 32 v (λ t. record r { x_amz_apigw_id = t }) _ _
          (field_case (is (codes "X-Amzn-Trace-Id")) 128 v (λ t. record r { x_amzn_trace_id = t }) _
            _
            (field_case (is (codes "content-type")) 32 v (λ t. record r { content_type = t }) _ _
              (field_case (is (codes "content-length")) 8 v (λ t. record r { content_length = t }) _
                _ (field_case (is (codes "date")) 32 v (λ t. record r { date = t }) _ _ refl)))))

  header_line_lem :
      (r : LambdaResponse) (o : Option (Text × Text)) (line : Text)
      → split_once b':' line ≡ o
      → header_line string r line ≡ checked (parts_fit o) (assign_parts r o)
  unfolding header_line
  header_line_lem r none line e = rw (header_line, e) refl
  header_line_lem r (some (key, v)) line e =
      rw (header_line, e) (set_field_lem r (trim key) (trim v))

  headers_lem :
      (r : LambdaResponse) (rest : List Text)
      → headers string r rest
        ≡ checked
            (all line_fits (before_blank rest))
            (read_headers r (before_blank rest), after_blank rest)
  unfolding headers
  headers_lem r [] = refl
  headers_lem r (line ∷ rest) = elim (Bool-cases (is_empty line)) [
    | inl blank ↦ rw blank refl
    | inr text ↦ elim (Bool-cases (line_fits line)) [
      | inl fits ↦
          rw (text, header_line_lem r (split_once b':' line) line refl, fits)
            (headers_lem (assign_parts r (split_once b':' line)) rest)
      | inr full ↦ rw (text, header_line_lem r (split_once b':' line) line refl, full) refl
    ]
  ]

  add_body_lem :
      (buf s u : Text) (f : Text → HttpResult Text)
      → (len (buf ++ s) ≤ 1024 → Reads (f (buf ++ s)) ((buf ++ s) ++ u))
      → Reads (add_body string buf s >>= f) (buf ++ s ++ u)
  unfolding add_body
  add_body_lem buf s u f next = elim (Bool-cases (leb (len buf + len s) 1024)) [
    | inl fits ↦
        rw (add_body, string.extend_fits 1024 buf s (ground arith))
          (next (ground (arith, len-append buf s)))
    | inr full ↦
        let over : leb (len (buf ++ s ++ u)) 1024 ≡ false =
          ground (arith, len-append (buf ++ s) u, len-append buf s) in
        rw (add_body, string.extend_full 1024 buf s (ground arith), over) refl
  ]

  body_lines_lem :
      (buf : Text) (rest : List Text)
      → len buf ≤ 1024
      → Reads (body_lines string buf rest) (buf ++ join_rest rest)
  unfolding body_lines
  body_lines_lem buf [] h =
      let fits : leb (len buf) 1024 ≡ true = ground arith in rw (append-nil buf, fits) refl
  body_lines_lem buf (line ∷ rest) h =
      let b = buf ++ codes "\n" in
      let tail = join_rest rest in
      subst (Reads _) (append_assoc buf (codes "\n") (line ++ tail)) (
        add_body_lem buf (codes "\n") (line ++ tail)
          (λ b'. add_body string b' line >>= λ b2. body_lines string b2 rest)
          (λ k. subst (Reads _) (append_assoc b line tail) (
            add_body_lem b line tail (λ b2. body_lines string b2 rest)
              (body_lines_lem (b ++ line) rest))))

  body_text_lem : (rest : List Text) → Reads (body_text string rest) (join rest)
  unfolding body_text
  body_text_lem [] = let fits : leb (len []) 1024 ≡ true = ground (arith, len-nil) in rw fits refl
  body_text_lem (line ∷ rest) =
      add_body_lem [] line (join_rest rest) (λ b. body_lines string b rest)
        (body_lines_lem line rest)

  -- A response with a first line is read if every header in front of the first empty line has a value
  -- that its field can hold and the lines behind it, with a line feed between any two, have at most
  -- 1024 bytes. It has the last value of each header (of its key in any case, trimmed) and those
  -- lines. Any other response is the error of deserialisation.
  pub parse_response_lem :
      (response status : Text) (rest : List Text)
      → lines response ≡ status ∷ rest
      → parse_response string response
        ≡ checked
            (all line_fits (before_blank rest) && leb (len (join (after_blank rest))) 1024)
            (record (read_headers empty_response (before_blank rest)) {
              body = join (after_blank rest);
            })
  unfolding parse_response
  parse_response_lem response status rest e =
      elim (Bool-cases (all line_fits (before_blank rest))) [
        | inr full ↦ rw (e, headers_lem (empty_response) rest, full) refl
        | inl fits ↦ elim (Bool-cases (leb (len (join (after_blank rest))) 1024)) [
          | inl short ↦
              rw (e, headers_lem empty_response rest, fits, body_text_lem (after_blank rest), short)
                refl
          | inr long ↦
              rw (e, headers_lem empty_response rest, fits, body_text_lem (after_blank rest), long)
                refl
        ]
      ]
