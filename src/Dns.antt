-- ===== src/Dns.antt =====
-- supervictor/edge/src/network/dns.rs: `find_qname_end`, `build_dns_response` and `dns_hijack`.
-- `heapless::Vec` is not part of the repository: `extend` is its `extend_from_slice`, at the capacity
-- 512.
pub mod Qname
pub mod Response
pub mod Hijack
mod Examples
use super_victor.Prelude.{
  ℕ, zero, suc, ◌+◌, ◌-◌, ◌≤◌, ◌<◌, ◌≡◌, Option, none, some, List, [], ◌∷◌, ◌++◌, ltb, leb, ◌==◌,
  if◌then◌else◌, ◌>>=◌, length, get_or, take, drop,
}

abbrev pub Bytes : Type 0
Bytes = List ℕ

abbrev pub gateway : Bytes
gateway = 192 ∷ 168 ∷ 4 ∷ 1 ∷ []

-- The loop of `find_qname_end`; each round passes at least one byte, so the length of the data is
-- enough fuel. The outer `none` is the fuel that ran out, the inner one the function's `None`.
unfoldable pub qname_loop : ℕ → Bytes → ℕ → Option (Option ℕ)
qname_loop zero bytes offset = none
qname_loop (suc fuel) bytes offset =
    let label_len = get_or bytes offset 0 in
    let rest = qname_loop fuel bytes (offset + (1 + label_len)) in
    if leb (length bytes) offset
    then some none
    else if label_len == 0
    then some (some (offset + 1))
    else if leb 0xc0 label_len
    then some (some (offset + 2))
    else rest

-- A result of the loop; `none` also where the fuel would run out, which `qname_loop_total` excludes.
unfoldable pub find_qname_end : Bytes → ℕ → Option ℕ
unfolding qname_loop
find_qname_end bytes offset = qname_loop (length bytes + 1) bytes offset >>= λ r. r

-- `extend_from_slice` of a `heapless::Vec<u8, N>`: appends, or fails if the capacity is passed.
pub record HeaplessVec : Type 0 where
  pub extend : ℕ → Bytes → Bytes → Option Bytes
  pub extend_fits :
      (n : ℕ) (buf s : Bytes) → length buf + length s ≤ n → extend n buf s ≡ some (buf ++ s)
  pub extend_full : (n : ℕ) (buf s : Bytes) → n < length buf + length s → extend n buf s ≡ none

-- `&query[i..j]`
abbrev pub slice : Bytes → ℕ → ℕ → Bytes
slice b i j = take (j - i) (drop i b)

module _ (vec : HeaplessVec) where
  open vec use {extend}

  unfoldable pub answer : Bytes → Option Bytes
  answer resp = do
    r ←
        extend 512 resp
          (0xc0 ∷ 0x0c ∷ 0x00 ∷ 0x01 ∷ 0x00 ∷ 0x01 ∷ 0x00 ∷ 0x00 ∷ 0x00 ∷ 0x3c ∷ 0x00 ∷ 0x04 ∷ [])
    extend 512 r gateway

  -- The question section, copied from the query, and the answer.
  unfoldable pub question : Bytes → Bytes → ℕ → Option Bytes
  unfolding answer
  question query resp qname_end =
      let question_end = qname_end + 4 in
      if ltb (length query) question_end
      then none
      else do r ← extend 512 resp (slice query 12 question_end); answer r

  unfoldable pub build_dns_response : Bytes → Option Bytes
  unfolding question find_qname_end
  build_dns_response query = if ltb (length query) 17 then none else do
    r1 ← extend 512 [] (slice query 0 2)
    r2 ← extend 512 r1 (0x81 ∷ 0x80 ∷ [])
    r3 ← extend 512 r2 (slice query 4 6)
    r4 ← extend 512 r3 (0x00 ∷ 0x01 ∷ [])
    r5 ← extend 512 r4 (0x00 ∷ 0x00 ∷ [])
    r6 ← extend 512 r5 (0x00 ∷ 0x00 ∷ [])
    qname_end ← find_qname_end query 12
    question query r6 qname_end

  -- One round of `dns_hijack`: an error, or a query with its sender; what is sent, and to whom.
  unfoldable pub hijack_turn : {Remote : Type 0} → Option (Bytes × Remote) → List (Bytes × Remote)
  unfolding build_dns_response
  hijack_turn none = []
  hijack_turn (some (query, remote)) = elim (build_dns_response query) [
    | some response ↦ (response, remote) ∷ []
    | none ↦ []
  ]

  -- The loop, over what the socket receives.
  unfoldable pub dns_hijack :
      {Remote : Type 0} → List (Option (Bytes × Remote)) → List (Bytes × Remote)
  unfolding hijack_turn
  dns_hijack [] = []
  dns_hijack (received ∷ later) = hijack_turn received ++ dns_hijack later
