-- ===== src/Http/Examples.antt =====
-- The HTTP client on test data, over buffers that are plain lists.
use super_victor.Prelude.{◌≤◌, ◌≡◌, refl, ◌&&◌, none, some, List, [], ◌∷◌, arith, leb, all}
use super_victor.Prelude.Text.{Text, codes, len, encode_char}
use super_victor.Prelude.Str.{lines, split}
use super_victor.Http.Samples.{plain}
use super_victor.Http.{post_request, empty_response, parse_response}
use super_victor.Http.Build.{Built, post_text, post_request_lem}
use super_victor.Http.Parse.{
  before_blank, after_blank, line_fits, read_headers, join, checked, parse_response_lem,
}

abbrev host : Text
host = codes "api.test"

abbrev body : Text
body = codes "{\"id\":\"1\"}"

body_short : len body ≤ 256
unfolding len encode_char
body_short = omega arith

post_request_lem_example :
    Built 512 (post_text host body none) (post_request plain host (some body) none)
post_request_lem_example = post_request_lem plain host none body body_short

abbrev response : Text
response = codes "HTTP/1.1 200 OK\r\nDate: today\r\n\r\n{}\nend\n"

abbrev rest : List Text
rest = codes "Date: today" ∷ [] ∷ codes "{}" ∷ codes "end" ∷ []

response-lines : lines response ≡ codes "HTTP/1.1 200 OK" ∷ rest
unfolding lines split
response-lines = refl

parse_response_lem_example :
    parse_response plain response
    ≡ checked
        (all line_fits (before_blank rest) && leb (len (join (after_blank rest))) 1024)
        (record (read_headers empty_response (before_blank rest)) {
          body = join (after_blank rest);
        })
parse_response_lem_example =
    parse_response_lem plain response (codes "HTTP/1.1 200 OK") rest response-lines
