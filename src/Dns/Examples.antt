-- ===== src/Dns/Examples.antt =====
-- The DNS responder on a query for `a.b`, over buffers that are plain lists.
use super_victor.Prelude.{
  ℕ, ◌+◌, ◌≤◌, ◌<◌, ◌≡◌, refl, ◌↔◌, Option, none, some, List, [], ◌∷◌, ◌++◌, arith, leb,
  if◌then◌else◌, length,
}
use super_victor.Dns.{
  Bytes, HeaplessVec, qname_loop, dns_hijack, find_qname_end, build_dns_response,
}
use super_victor.Dns.Qname.{qname_loop_total}
use super_victor.Dns.Hijack.{Answers, dns_hijack-Answers}
use super_victor.Dns.Response.{IsAnswered, response_to, build_dns_response_iff}

abbrev extend : ℕ → Bytes → Bytes → Option Bytes
extend n buf s = if leb (length buf + length s) n then some (buf ++ s) else none

extend_fits : (n : ℕ) (buf s : Bytes) → length buf + length s ≤ n → extend n buf s ≡ some (buf ++ s)
extend_fits n buf s h = ground arith

extend_full : (n : ℕ) (buf s : Bytes) → n < length buf + length s → extend n buf s ≡ none
extend_full n buf s h = ground arith

abbrev plain : HeaplessVec
plain = record { extend = extend; extend_fits = extend_fits; extend_full = extend_full }

abbrev query : Bytes
query =
    0xbe ∷ 0xef ∷ 1 ∷ 0 ∷ 0 ∷ 1 ∷ 0 ∷ 0 ∷ 0 ∷ 0 ∷ 0 ∷ 0 ∷ 1 ∷ b'a' ∷ 1 ∷ b'b' ∷ 0 ∷ 0 ∷ 1 ∷ 0 ∷ 1
    ∷ []

abbrev response : Bytes
response = response_to query 17

finds : find_qname_end query 12 ≡ some 17
unfolding find_qname_end
finds = refl

answers : build_dns_response plain query ≡ some response
unfolding build_dns_response
answers = refl

qname_loop_total_example : (r : Option ℕ) × (qname_loop 10 query 12 ≡ some r)
qname_loop_total_example = qname_loop_total 10 query 12 (omega arith)

build_dns_response_iff_example :
    (build_dns_response plain query ≡ some response)
    ↔ ((end : ℕ) × IsAnswered query end × (response ≡ response_to query end))
build_dns_response_iff_example = build_dns_response_iff plain query response

abbrev received : List (Option (Bytes × ℕ))
received = none ∷ some (query, 1) ∷ some (0 ∷ [], 2) ∷ []

dns_hijack-Answers_example : Answers received (dns_hijack plain received)
dns_hijack-Answers_example = dns_hijack-Answers plain received
