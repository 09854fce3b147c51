-- ===== src/Server/Total.antt =====
-- The portal answers every request: no number that it writes is too long for its array.
use super_victor.Prelude.{
  ℕ, zero, suc, ◌+◌, ◌^◌, ◌≤◌, ◌<◌, ◌≡◌, refl, true, false, Bool, Option, none, some, List, [], ◌∷◌,
  ◌>>=◌, ◌==◌, ◌&&◌, ◌||◌, leb, arith, length, Bool-cases, inl, inr,
}
use super_victor.Prelude.Text.{Text, codes, len, len-nil, ◌≟◌}
use super_victor.Prelude.Decimal.{decimal}
use super_victor.Http.{HeaplessString}
use super_victor.Http.Build.{digits-decimal, len-append}
use super_victor.Server.Serve.{
  Portal, Connection, unaccepted, nothing_read, requested, SocketEvent, wrote, socket_closed,
  written, or_empty, ends_with, write_chunked, json_reply, configure_reply, route, serve_request,
  serve_round, serve_rounds,
}
use super_victor.Server.{
  parse_request_line, push_ok, push_escaped, push_json_str, push_all, write_usize,
  build_response_header, build_error_response, build_status_json, build_configure_response,
}

abbrev Given : {A : Type 0} → Option A → Type 0
Given {A} o = (a : A) × (o ≡ some a)

bind_total :
    {A B : Type 0} {o : Option A} (f : A → Option B)
    → Given o
    → ((a : A) → Given (f a))
    → Given (o >>= f)
bind_total f (a, e) g = let (b, h) = g a in (b, rw e h)

module _ (string : HeaplessString) (capacity : ℕ) where
  pub write_usize_total :
      (buf : Text) (n : ℕ) → n < 10 ^ 7 → (t : Text) × (write_usize string capacity buf n ≡ some t)
  unfolding write_usize
  write_usize_total buf zero h = (_, refl)
  write_usize_total buf (suc n) h =
      let digit : (suc n == 0) ≡ false = ground arith in
      (
        push_all string capacity buf (decimal (suc n)),
        rw (digit, digits-decimal 7 (suc n) (omega arith) h) refl,
      )

  -- A push keeps to the capacity.
  len-push_ok : (buf s : Text) → len buf ≤ capacity → len (push_ok string capacity buf s) ≤ capacity
  unfolding push_ok
  len-push_ok buf s h = elim (Bool-cases (leb (len buf + len s) capacity)) [
    | inl e ↦
        rw (push_ok, string.extend_fits capacity buf s (ground (arith, e)))
          (ground (arith, e, len-append buf s))
    | inr e ↦ rw (push_ok, string.extend_full capacity buf s (ground (arith, e))) h
  ]

  len-push_escaped :
      (buf : Text) (c : ℕ)
      → len buf ≤ capacity
      → len (push_escaped string capacity buf c) ≤ capacity
  unfolding push_escaped
  len-push_escaped buf c h = elim (Bool-cases (c == b'"')) [
    | inl e ↦ rw e (len-push_ok _ _ (len-push_ok _ _ h))
    | inr e ↦ elim (Bool-cases (c == b'\\')) [
      | inl f ↦ rw (e, f) (len-push_ok _ _ (len-push_ok _ _ h))
      | inr f ↦ rw (e, f) (len-push_ok _ _ h)
    ]
  ]

  len-push_json_str :
      (buf s : Text) → len buf ≤ capacity → len (push_json_str string capacity buf s) ≤ capacity
  unfolding push_json_str
  len-push_json_str buf [] h = h
  len-push_json_str buf (c ∷ s) h =
      len-push_json_str (push_escaped string capacity buf c) s (len-push_escaped buf c h)

module _ (string : HeaplessString) where
  header_total :
      (content_type : Text) (n : ℕ) (extra : Option Text)
      → n < 10 ^ 7
      → Given (build_response_header string content_type n extra)
  unfolding build_response_header
  header_total content_type n extra h =
      bind_total _ (write_usize_total string 256 _ n h) (λ t. (_, refl))

  error_total : (message : Text) → Given (build_error_response string 400 message)
  unfolding build_error_response
  error_total message = bind_total _ (write_usize_total string 256 _ 400 (omega arith)) (λ t.
      bind_total _
        (write_usize_total string 256 _ _ (
          omega (
            arith,
            len-push_ok string 128 _ (codes "\"}") (
                len-push_json_str string 128 _ message
                  (len-push_ok string 128 [] (codes "{\"error\":\"") (omega (arith, len-nil)))),
          )))
        (λ u. (_, refl)))

  len-status :
      (version device_id ip state : Text)
      → len (build_status_json string version device_id ip state) ≤ 256
  unfolding build_status_json
  len-status version device_id ip state = len-push_ok string 256 _ _ (
      len-push_json_str string 256 _ state (
        len-push_ok string 256 _ _ (
          len-push_json_str string 256 _ ip (
            len-push_ok string 256 _ _ (
              len-push_json_str string 256 _ version (
                len-push_ok string 256 _ _ (
                  len-push_json_str string 256 _ device_id
                    (len-push_ok string 256 _ _ (omega (arith, len-nil))))))))))

  len-configure :
      (ok : Bool) (message : Text) → len (build_configure_response string ok message) ≤ 256
  unfolding build_configure_response
  len-configure ok message = len-push_ok string 256 _ _ (
      len-push_json_str string 256 _ message (
        len-push_ok string 256 _ _
          (len-push_ok string 256 _ _ (len-push_ok string 256 _ _ (omega (arith, len-nil))))))

-- The assets have fewer than 10^7 bytes each.
pub record IsSmall (portal : Portal) : Type 0 where
  pub index_html : length portal.index_html < 10 ^ 7
  pub portal_js : length portal.portal_js < 10 ^ 7
  pub portal_wasm_gz : length portal.portal_wasm_gz < 10 ^ 7

module _ (string : HeaplessString) where
  chunked_total :
      (content_type : Text) (data_ : List ℕ) (extra : Option Text)
      → length data_ < 10 ^ 7
      → Given (write_chunked string content_type data_ extra)
  unfolding write_chunked
  chunked_total content_type data_ extra h =
      bind_total _ (header_total string content_type (length data_) extra h) (λ t. (_, refl))

  json_total : (body : Text) → len body ≤ 256 → Given (json_reply string body)
  json_total body h =
      bind_total _
        (header_total string (codes "application/json") (len body) none (omega (arith, h)))
        (λ t. (_, refl))

  configure_total : (config : Option (Text × Text)) → Given (configure_reply string config)
  unfolding configure_reply
  configure_total (some config) = json_total _ (len-configure string true _)
  configure_total none = bind_total _ (error_total string (codes "Invalid JSON")) (λ t. (_, refl))

  module _ (portal : Portal) (small : IsSmall portal) where
    route_total : (request method path : Text) → Given (route string portal request method path)
    unfolding route
    route_total request method path =
        let is_get = method ≟ codes "GET" in
        elim (Bool-cases (is_get && ((path ≟ codes "/") || (path ≟ codes "/index.html")))) [
          | inl e ↦
              rw (route, e)
                (chunked_total (codes "text/html") portal.index_html none small.index_html)
          | inr e ↦ elim (Bool-cases (is_get && ends_with path (codes ".js"))) [
            | inl f ↦
                rw (route, e, f)
                  (chunked_total (codes "application/javascript") portal.portal_js none
                    small.portal_js)
            | inr f ↦ elim (Bool-cases (is_get && ends_with path (codes ".wasm"))) [
              | inl g ↦
                  rw (route, e, f, g)
                    (chunked_total (codes "application/wasm") portal.portal_wasm_gz
                      (some (codes "Content-Encoding: gzip\r\n")) small.portal_wasm_gz)
              | inr g ↦ elim (Bool-cases (is_get && (path ≟ codes "/api/status"))) [
                | inl h ↦
                    rw (route, e, f, g, h) (json_total _ (len-status string portal.version _ _ _))
                | inr h ↦
                    elim (Bool-cases ((method ≟ codes "POST") && (path ≟ codes "/api/configure"))) [
                      | inl k ↦ rw (route, e, f, g, h, k) (configure_total _)
                      | inr k ↦ rw (route, e, f, g, h, k) (_, refl)
                    ]
              ]
            ]
          ]
        ]

    round_total : (c : Connection) → Given (serve_round string portal c)
    unfolding serve_round serve_request
    round_total unaccepted = (_, refl)
    round_total nothing_read = (_, refl)
    round_total (requested text oks) =
        let parsed = parse_request_line (or_empty text) in
        bind_total (λ w. some (wrote (written w oks) ∷ socket_closed ∷ []))
          (route_total (or_empty text) parsed.0 parsed.1) (λ w. (_, refl))

    -- If no asset has 10^7 bytes, the portal goes through any sequence of connections without a panic,
    -- whatever their requests and however their writes turn out.
    pub serve_rounds_total :
        (connections : List Connection)
        → (events : List SocketEvent) × (serve_rounds string portal connections ≡ some events)
    unfolding serve_rounds
    serve_rounds_total [] = ([], refl)
    serve_rounds_total (c ∷ later) =
        bind_total _ (round_total c)
          (λ events. bind_total _ (serve_rounds_total later) (λ rest. (_, refl)))
