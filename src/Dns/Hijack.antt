-- ===== src/Dns/Hijack.antt =====
-- What the task `dns_hijack` sends for what it receives.
use super_victor.Prelude.{
  refl, Option, none, some, List, [], ◌∷◌, Option-cases, inl, inr, none-some, sym, ◌∙◌,
}
use super_victor.Dns.{Bytes, HeaplessVec, build_dns_response, hijack_turn, dns_hijack}
use super_victor.Dns.Response.{IsAnswered, response_to, build_dns_response_iff}

-- Every query that is answered gets its response, sent to its sender, in the order of the queries.
pub data Answers {Remote : Type 0}
    : List (Option (Bytes × Remote)) → List (Bytes × Remote) → Type 0 where
  over : Answers [] []
  lost :
      (later : List (Option (Bytes × Remote))) (sent : List (Bytes × Remote))
      → Answers later sent
      → Answers (none ∷ later) sent
  unanswered :
      (query : Bytes) (remote : Remote) (later : List (Option (Bytes × Remote)))
      (sent : List (Bytes × Remote))
      → ¬ ((end : _) × IsAnswered query end)
      → Answers later sent
      → Answers (some (query, remote) ∷ later) sent
  answered :
      (query : Bytes) (remote : Remote) (end : _) (later : List (Option (Bytes × Remote)))
      (sent : List (Bytes × Remote))
      → IsAnswered query end
      → Answers later sent
      → Answers (some (query, remote) ∷ later) ((response_to query end, remote) ∷ sent)

-- The task sends the response of each query that has one to its sender, in the order of the queries, and
-- nothing else; an error of the socket and a query without a response are passed over.
pub dns_hijack-Answers :
    {Remote : Type 0} (vec : HeaplessVec) (received : List (Option (Bytes × Remote)))
    → Answers received (dns_hijack vec received)
unfolding dns_hijack hijack_turn
dns_hijack-Answers vec [] = over
dns_hijack-Answers vec (none ∷ later) = lost later _ (dns_hijack-Answers vec later)
dns_hijack-Answers vec (some (query, remote) ∷ later) =
    elim (Option-cases (build_dns_response vec query)) [
      | inl e ↦
          rw (hijack_turn, e)
            (unanswered query remote later (dns_hijack vec later)
              (λ (end, a). none-some (
                sym e
                ∙ (build_dns_response_iff vec query (response_to query end)).1 (end, a, refl)))
              (dns_hijack-Answers vec later))
      | inr (r, e) ↦
          let (end, a, same) = (build_dns_response_iff vec query r).0 e in
          rw (hijack_turn, e, same)
            (answered query remote end later (dns_hijack vec later) a
              (dns_hijack-Answers vec later))
    ]
