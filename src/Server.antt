-- ===== src/Server.antt =====
-- supervictor/edge/src/network/server.rs: reading a request of the captive portal and building the
-- answers. A push to a `heapless::String` whose error is dropped (`.ok()`) leaves the buffer as it was
-- when the capacity would be passed.
pub mod Escape
pub mod Address
pub mod Serve
pub mod Chunks
pub mod Total
mod Examples
use super_victor.Prelude.{
  ℕ, zero, suc, ◌+◌, ◌*◌, Bool, true, false, Option, none, some, List, [], ◌∷◌, ◌++◌, ◌>>=◌, ◌==◌,
  if◌then◌else◌, map,
}
use super_victor.Prelude.Text.{Text, codes, len}
use super_victor.Prelude.Str.{is_whitespace, is_empty, lines}
use super_victor.Http.{HeaplessString, digits}

-- The parts of `split_whitespace`: the runs of characters that are not white space.
unfoldable pub words_from : Text → Text × List Text
words_from [] = ([], [])
words_from (c ∷ s) =
    let (word, more) = words_from s in
    if is_whitespace c then ([], if is_empty word then more else word ∷ more) else (c ∷ word, more)

unfoldable pub split_whitespace : Text → List Text
unfolding words_from
split_whitespace s = let (word, more) = words_from s in if is_empty word then more else word ∷ more

-- `parts.next()` with what stands for a missing part.
unfoldable pub method_and_path : List Text → Text × Text
method_and_path [] = ([], codes "/")
method_and_path (method ∷ []) = (method, codes "/")
method_and_path (method ∷ path ∷ _) = (method, path)

-- `request.lines().next().unwrap_or("")`
unfoldable pub first_line : List Text → Text
first_line [] = []
first_line (line ∷ _) = line

unfoldable pub parse_request_line : Text → Text × Text
unfolding method_and_path first_line split_whitespace
parse_request_line request = method_and_path (split_whitespace (first_line (lines request)))

-- `strip_prefix("\r\n\r\n")`
unfoldable pub behind_separator : Text → Option Text
behind_separator (a ∷ b ∷ c ∷ d ∷ s) =
    if a == 13
    then if b == 10 then if c == 13 then if d == 10 then some s else none else none else none
    else none
behind_separator _ = none

-- What stands behind the first separator.
unfoldable pub extract_body : Text → Text
unfolding behind_separator
extract_body [] = []
extract_body (c ∷ s) =
    let rest = extract_body s in elim (behind_separator (c ∷ s)) [ some body ↦ body | none ↦ rest ]

module _ (string : HeaplessString) (capacity : ℕ) where
  open string use {extend}

  -- `s.push_str(…).ok()` and `s.push(…).ok()`
  unfoldable pub push_ok : Text → Text → Text
  push_ok buf s = elim (extend capacity buf s) [ some r ↦ r | none ↦ buf ]

  -- One round of the loop over the characters.
  unfoldable pub push_escaped : Text → ℕ → Text
  unfolding push_ok
  push_escaped buf c =
      if c == b'"'
      then push_ok (push_ok buf (codes "\\")) (codes "\"")
      else if c == b'\\'
      then push_ok (push_ok buf (codes "\\")) (codes "\\")
      else push_ok buf (c ∷ [])

  unfoldable pub push_json_str : Text → Text → Text
  unfolding push_escaped
  push_json_str buf [] = buf
  push_json_str buf (c ∷ s) = push_json_str (push_escaped buf c) s

  -- The loop that pushes the digits.
  unfoldable pub push_all : Text → Text → Text
  unfolding push_ok
  push_all buf [] = buf
  push_all buf (c ∷ s) = push_all (push_ok buf (c ∷ [])) s

  -- The digits go to an array of 7; `none` is the write behind its end.
  unfoldable pub write_usize : Text → ℕ → Option Text
  unfolding push_all
  write_usize buf n =
      if n == 0
      then some (push_ok buf (codes "0"))
      else (digits 7 n [] >>= λ ds. some (push_all buf ds))

module _ (string : HeaplessString) where
  unfoldable pub build_response_header : Text → ℕ → Option Text → Option Text
  unfolding push_ok write_usize
  build_response_header content_type content_length extra_headers =
      let push = push_ok string 256 in
      let head =
        push (push (push [] (codes "HTTP/1.0 200 OK\r\nContent-Type: ")) content_type)
          (codes "\r\nContent-Length: ") in
      write_usize string 256 head content_length >>= λ h.
      let closed = push h (codes "\r\nConnection: close\r\n") in
      let extended : Text = elim extra_headers [ some extra ↦ push closed extra | none ↦ closed ] in
      some (push extended (codes "\r\n"))

  unfoldable pub build_redirect : Text → Text
  unfolding push_ok
  build_redirect location =
      let push = push_ok string 256 in
      push (push (push [] (codes "HTTP/1.0 302 Found\r\nLocation: ")) location)
        (codes "\r\nContent-Length: 0\r\nConnection: close\r\n\r\n")

  unfoldable pub build_error_response : ℕ → Text → Option Text
  unfolding push_json_str write_usize
  build_error_response status message =
      let body =
        push_ok string 128
          (push_json_str string 128 (push_ok string 128 [] (codes "{\"error\":\"")) message)
          (codes "\"}") in
      let push = push_ok string 256 in
      write_usize string 256 (push [] (codes "HTTP/1.0 ")) status >>= λ h.
      write_usize string 256
        (push h (
          codes
            " Error\r\nContent-Type: application/json\r\nConnection: close\r\nContent-Length: "))
        (len body)
      >>= λ h2. some (push (push h2 (codes "\r\n\r\n")) body)

  -- `version` is the package's version, which the build sets.
  unfoldable pub build_status_json : Text → Text → Text → Text → Text
  unfolding push_json_str
  build_status_json version device_id ip state =
      let push = push_ok string 256 in
      let json = push_json_str string 256 in
      let b1 = json (push [] (codes "{\"device_id\":\"")) device_id in
      let b2 = json (push b1 (codes "\",\"fw_version\":\"")) version in
      let b3 = json (push b2 (codes "\",\"ip\":\"")) ip in
      push (json (push b3 (codes "\",\"state\":\"")) state) (codes "\"}")

  unfoldable pub build_configure_response : Bool → Text → Text
  unfolding push_json_str
  build_configure_response ok message =
      let push = push_ok string 256 in
      let head = push (push [] (codes "{\"ok\":")) (if ok then codes "true" else codes "false") in
      push (push_json_str string 256 (push head (codes ",\"message\":\"")) message) (codes "\"}")

  -- The loop over the octets behind the first.
  unfoldable pub push_octets : Text → List ℕ → Option Text
  unfolding push_ok write_usize
  push_octets s [] = some s
  push_octets s (o ∷ os) =
      write_usize string 16 (push_ok string 16 s (codes ".")) o >>= λ s'. push_octets s' os

  unfoldable pub format_ip_octets : ℕ → ℕ → ℕ → ℕ → Option Text
  unfolding push_octets
  format_ip_octets a b c d = write_usize string 16 [] a >>= λ s. push_octets s (b ∷ c ∷ d ∷ [])
