-- ===== src/Server/Examples.antt =====
-- The portal's server on test data, over buffers that are plain lists.
use super_victor.Server.Total.{serve_rounds_total}
use super_victor.Server.Serve.{
  Portal, Connection, unaccepted, nothing_read, requested, SocketEvent, serve_rounds, until_failure,
  write_chunked, chunks, chunks_on,
}
use super_victor.Server.Chunks.{Streamed, write_chunked-Streamed}
use super_victor.Prelude.{
  ℕ, List, true, ◌≤◌, ◌≡◌, refl, false, Option, some, none, [], ◌∷◌, ◌++◌, arith, if◌then◌else◌,
}
use super_victor.Prelude.Text.{Text, codes, len, encode_char, as_bytes}
use super_victor.Prelude.Str.{lines, split}
use super_victor.Http.{digits}
use super_victor.Http.Samples.{plain}
use super_victor.Server.{
  build_response_header, push_ok, push_all, push_json_str, write_usize, parse_request_line,
  extract_body,
}
use super_victor.Server.Escape.{escape, read_string, printable, read_string-push_json_str}
use super_victor.Server.Address.{write_usize_panics}

request :
    (parse_request_line (codes "GET /api/status HTTP/1.0\r\nHost: x\r\n\r\nbody")
      ≡ (codes "GET", codes "/api/status"))
    × (extract_body (codes "GET / HTTP/1.0\r\nHost: x\r\n\r\nbody") ≡ codes "body")
unfolding parse_request_line extract_body lines split
request = (refl, refl)

escape_short : len (escape (codes "a\"b\\")) ≤ 128
unfolding len encode_char escape
escape_short = omega arith

read_string-push_json_str_example :
    read_string false (push_json_str plain 128 [] (codes "a\"b\\") ++ b'"' ∷ codes "}")
    ≡ (if printable (codes "a\"b\\") then some (codes "a\"b\\", codes "}") else none)
read_string-push_json_str_example =
    read_string-push_json_str plain 128 (codes "a\"b\\") (codes "}") escape_short

printable_run : (printable (codes "a\"b\\") ≡ true) × (printable (codes "a\nb") ≡ false)
printable_run = (refl, refl)

write_usize_panics_example : ◌≡◌ {A = Option Text} (write_usize plain 256 [] 10000000) none
write_usize_panics_example = write_usize_panics plain 256 [] 10000000 (omega arith)

abbrev page : List ℕ
page = 1 ∷ 2 ∷ 3 ∷ []

abbrev page_header : Text
page_header =
    codes
      "HTTP/1.0 200 OK\r\nContent-Type: text/html\r\nContent-Length: 3\r\nConnection: close\r\n\r\n"

page_written :
    write_chunked plain (codes "text/html") page none
    ≡ some (until_failure (as_bytes page_header ∷ page ∷ []))
unfolding write_chunked chunks chunks_on build_response_header write_usize push_ok push_all as_bytes
    digits len
page_written = refl

write_chunked-Streamed_example :
    (header : Text) × (build_response_header plain (codes "text/html") 3 none ≡ some header)
    × Streamed plain
        (codes "text/html")
        page
        none
        header
        (until_failure (as_bytes page_header ∷ page ∷ []))
        (true ∷ false ∷ [])
write_chunked-Streamed_example =
    write_chunked-Streamed plain (codes "text/html") page none
      (until_failure (as_bytes page_header ∷ page ∷ [])) page_written (true ∷ false ∷ [])

abbrev small_portal : Portal
small_portal = record {
  index_html = page;
  portal_js = [];
  portal_wasm_gz = [];
  configure_from_str = λ body. none;
  version = codes "0.1.0";
  ip = codes "192.168.4.1";
}

abbrev connections : List Connection
connections =
    unaccepted
    ∷ nothing_read
    ∷ requested (some (codes "GET / HTTP/1.0\r\n\r\n")) (true ∷ false ∷ [])
    ∷ requested none []
    ∷ []

serve_rounds_total_example :
    (events : List SocketEvent) × (serve_rounds plain small_portal connections ≡ some events)
serve_rounds_total_example =
    serve_rounds_total plain small_portal
      (record { index_html = omega arith; portal_js = omega arith; portal_wasm_gz = omega arith })
      connections
