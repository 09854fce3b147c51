-- ===== src/Server/Serve.antt =====
-- The task `serve` of supervictor/edge/src/network/server.rs, from the request of a connection to what is
-- written. The assets, the reader of the JSON body and the version are parameters.
use super_victor.Prelude.{
  ℕ, zero, suc, ◌-◌, Bool, true, Option, none, some, List, [], ◌∷◌, ◌++◌, ◌>>=◌, ◌&&◌, ◌||◌, leb,
  if◌then◌else◌, length, take, drop,
}
use super_victor.Prelude.Text.{Text, codes, len, ◌≟◌, as_bytes}
use super_victor.Http.{HeaplessString}
use super_victor.Server.{
  parse_request_line, extract_body, build_response_header, build_redirect, build_error_response,
  build_status_json, build_configure_response,
}

-- What is written to the socket: up to the first failure, or each piece whatever comes of the others.
pub data Writing : Type 0 where
  until_failure each : List (List ℕ) → Writing

abbrev pub ends_with : Text → Text → Bool
ends_with s suffix = leb (length suffix) (length s) && (drop (length s - length suffix) s ≟ suffix)

-- `data.chunks(2048)`, on as much fuel as there are bytes.
unfoldable pub chunks_on : ℕ → List ℕ → List (List ℕ)
chunks_on zero data_ = []
chunks_on (suc fuel) [] = []
chunks_on (suc fuel) (b ∷ data_) = take 2048 (b ∷ data_) ∷ chunks_on fuel (drop 2048 (b ∷ data_))

unfoldable pub chunks : List ℕ → List (List ℕ)
unfolding chunks_on
chunks data_ = chunks_on (length data_) data_

-- The writes that are tried, of which some fail: none behind the first failure.
unfoldable pub tried : List (List ℕ) → List Bool → List (List ℕ)
tried [] oks = []
tried (p ∷ ps) [] = p ∷ ps
tried (p ∷ ps) (ok ∷ oks) = let rest = tried ps oks in if ok then p ∷ rest else p ∷ []

unfoldable pub written : Writing → List Bool → List (List ℕ)
unfolding tried
written (until_failure ps) oks = tried ps oks
written (each ps) oks = ps

abbrev pub concat : List (List ℕ) → List ℕ
concat [] = []
concat (p ∷ ps) = p ++ concat ps

pub record Portal : Type 0 where
  pub index_html : List ℕ
  pub portal_js : List ℕ
  pub portal_wasm_gz : List ℕ
  -- `serde_json_core::from_str` of the body: network and password
  pub configure_from_str : Text → Option (Text × Text)
  pub version : Text
  pub ip : Text

module _ (string : HeaplessString) where
  unfoldable pub write_chunked : Text → List ℕ → Option Text → Option Writing
  unfolding chunks
  write_chunked content_type data_ extra =
      build_response_header string content_type (length data_) extra >>= λ header.
      some (until_failure (as_bytes header ∷ chunks data_))

  -- A JSON body behind its header.
  abbrev pub json_reply : Text → Option Writing
  json_reply body =
      build_response_header string (codes "application/json") (len body) none >>= λ header.
      some (each (as_bytes header ∷ as_bytes body ∷ []))

  unfoldable pub configure_reply : Option (Text × Text) → Option Writing
  configure_reply (some config) =
      json_reply (build_configure_response string true (codes "Configuration saved. Rebooting..."))
  configure_reply none = build_error_response string 400 (codes "Invalid JSON") >>= λ resp.
      some (each (as_bytes resp ∷ []))

-- What becomes of a connection: it is not accepted, nothing is read from it, or a request is, whose
-- text is `none` if its bytes are not UTF-8; with how the writes turn out.
pub data Connection : Type 0 where
  unaccepted nothing_read : Connection
  requested : Option Text → List Bool → Connection

pub data SocketEvent : Type 0 where
  wrote : List (List ℕ) → SocketEvent
  socket_closed : SocketEvent

abbrev pub or_empty : Option Text → Text
or_empty none = []
or_empty (some t) = t

module _ (string : HeaplessString) (portal : Portal) where
  -- The match on method and path.
  unfoldable pub route : Text → Text → Text → Option Writing
  unfolding write_chunked configure_reply
  route request method path =
      let get = method ≟ codes "GET" in
      if get && ((path ≟ codes "/") || (path ≟ codes "/index.html"))
      then write_chunked string (codes "text/html") portal.index_html none
      else if get && ends_with path (codes ".js")
      then write_chunked string (codes "application/javascript") portal.portal_js none
      else if get && ends_with path (codes ".wasm")
      then write_chunked string (codes "application/wasm") portal.portal_wasm_gz
          (some (codes "Content-Encoding: gzip\r\n"))
      else if get && (path ≟ codes "/api/status")
      then json_reply string (
          build_status_json string portal.version (codes "supervictor") portal.ip (codes "ap_mode"))
      else if (method ≟ codes "POST") && (path ≟ codes "/api/configure")
      then configure_reply string (portal.configure_from_str (extract_body request))
      else some (each (as_bytes (build_redirect string (codes "http://192.168.4.1/")) ∷ []))

  -- From the request, which is empty if it is not UTF-8.
  unfoldable pub serve_request : Text → Option Writing
  unfolding route
  serve_request request =
      let (method, path) = parse_request_line request in route request method path

  -- One round of the loop of `serve`; `none` is a panic.
  unfoldable pub serve_round : Connection → Option (List SocketEvent)
  unfolding serve_request written
  serve_round unaccepted = some []
  serve_round nothing_read = some (socket_closed ∷ [])
  serve_round (requested text oks) =
      serve_request (or_empty text) >>= λ w. some (wrote (written w oks) ∷ socket_closed ∷ [])

  unfoldable pub serve_rounds : List Connection → Option (List SocketEvent)
  unfolding serve_round
  serve_rounds [] = some []
  serve_rounds (c ∷ later) =
      serve_round c >>= λ events. serve_rounds later >>= λ rest. some (events ++ rest)
