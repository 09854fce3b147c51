-- ===== src/Dns/Response.antt =====
-- The response to a query, byte for byte, and the queries that have none.
use super_victor.Prelude.{
  ℕ, ◌+◌, ◌-◌, ◌≤◌, ◌<◌, ◌≡◌, refl, ◌↔◌, ◌∙◌, ap, sym, true, false, Option, none, some, [], ◌∷◌,
  ◌++◌, arith, ltb, leb, if◌then◌else◌, ◌>>=◌, length, drop, length-append, length-take,
  length-drop, Bool-cases, inl, inr,
}
use super_victor.Dns.{
  Bytes, gateway, find_qname_end, HeaplessVec, slice, answer, question, build_dns_response,
}
use super_victor.Dns.Qname.{Name, Name_bounds, find_qname_end_iff}

-- Transaction id, flags, question count, one answer.
abbrev pub header : Bytes → Bytes
header query =
    slice query 0 2
    ++ (0x81 ∷ 0x80 ∷ [])
    ++ slice query 4 6
    ++ (0x00 ∷ 0x01 ∷ [])
    ++ (0x00 ∷ 0x00 ∷ [])
    ++ (0x00 ∷ 0x00 ∷ [])

-- A pointer to the name of the question, type A, class IN, 60 seconds, 4 bytes.
abbrev pub record_head : Bytes
record_head = 0xc0 ∷ 0x0c ∷ 0x00 ∷ 0x01 ∷ 0x00 ∷ 0x01 ∷ 0x00 ∷ 0x00 ∷ 0x00 ∷ 0x3c ∷ 0x00 ∷ 0x04 ∷ []

abbrev pub response_to : Bytes → ℕ → Bytes
response_to query end = header query ++ slice query 12 (end + 4) ++ record_head ++ gateway

-- The queries that are answered, by the end of the name of their question.
pub record IsAnswered (query : Bytes) (end : ℕ) : Type 0 where
  pub long : 17 ≤ length query
  pub name : Name query 12 end
  pub inside : end + 4 ≤ length query
  pub fits : end ≤ 492

length-slice : (b : Bytes) (i j : ℕ) → j ≤ length b → length (slice b i j) ≡ j - i
length-slice b i j h = omega (arith, length-take (j - i) (drop i b), length-drop i b)

length-header : (query : Bytes) → 17 ≤ length query → length (header query) ≡ 12
length-header query h =
    simp length-append
      (omega (arith, length-slice query 0 2 (omega arith), length-slice query 4 6 (omega arith)))

some-inj : {a b : Bytes} → ◌≡◌ {A = Option Bytes} (some a) (some b) → a ≡ b
some-inj e = cc

none-ne-some : {r : Bytes} → ◌≡◌ {A = Option Bytes} none (some r) → ⊥
none-ne-some e = cc

module _ (vec : HeaplessVec) where
  -- An append within the capacity, by the lengths.
  fits_after :
      (n : ℕ) (buf s : Bytes)
      → length buf ≡ n
      → n + length s ≤ 512
      → vec.extend 512 buf s ≡ some (buf ++ s)
  fits_after n buf s h k = vec.extend_fits 512 buf s (omega arith)

  extend-eq :
      (buf s : Bytes)
      → vec.extend 512 buf s ≡ (if leb (length buf + length s) 512 then some (buf ++ s) else none)
  extend-eq buf s = elim (Bool-cases (leb (length buf + length s) 512)) [
    | inl fits ↦ rw fits (vec.extend_fits 512 buf s (ground arith))
    | inr full ↦ rw full (vec.extend_full 512 buf s (ground arith))
  ]

  build-header :
      (query : Bytes)
      → 17 ≤ length query
      → build_dns_response vec query
        ≡ (find_qname_end query 12 >>= λ end. question vec query (header query) end)
  unfolding build_dns_response
  build-header query h =
      let s1 = slice query 0 2 in
      let s2 = s1 ++ (0x81 ∷ 0x80 ∷ []) in
      let s3 = s2 ++ slice query 4 6 in
      let s4 = s3 ++ (0x00 ∷ 0x01 ∷ []) in
      let s5 = s4 ++ (0x00 ∷ 0x00 ∷ []) in
      let l1 = length-slice query 0 2 (omega arith) in
      let l = length-slice query 4 6 (omega arith) in
      let l2 : length s2 ≡ 4 = omega (arith, l1, length-append s1 (0x81 ∷ 0x80 ∷ [])) in
      let l3 : length s3 ≡ 6 = omega (arith, l2, l, length-append s2 (slice query 4 6)) in
      let l4 : length s4 ≡ 8 = omega (arith, l3, length-append s3 (0x00 ∷ 0x01 ∷ [])) in
      let l5 : length s5 ≡ 10 = omega (arith, l4, length-append s4 (0x00 ∷ 0x00 ∷ [])) in
      let long : ltb (length query) 17 ≡ false = ground arith in
      rw (
        long,
        fits_after 0 [] s1 refl (omega (arith, l1)),
        fits_after 2 s1 (0x81 ∷ 0x80 ∷ []) l1 (omega arith),
        fits_after 4 s2 (slice query 4 6) l2 (omega (arith, l)),
        fits_after 6 s3 (0x00 ∷ 0x01 ∷ []) l3 (omega arith),
        fits_after 8 s4 (0x00 ∷ 0x00 ∷ []) l4 (omega arith),
        fits_after 10 s5 (0x00 ∷ 0x00 ∷ []) l5 (omega arith),
      )

  module _ (query : Bytes) (end : ℕ) (h : 17 ≤ length query) (behind : 12 < end) where
    abbrev body : Bytes
    body = header query ++ slice query 12 (end + 4)

    length-body : end + 4 ≤ length query → length body ≡ end + 4
    length-body inside = omega (
      arith,
      length-append (header query) (slice query 12 (end + 4)),
      length-header query h,
      length-slice query 12 (end + 4) inside,
    )

    question-some :
        end + 4 ≤ length query
        → end ≤ 492
        → question vec query (header query) end ≡ some (response_to query end)
    unfolding question answer
    question-some inside fits =
        let l = length-body inside in
        let l2 : length (body ++ record_head) ≡ end + 16 =
          omega (arith, l, length-append body record_head) in
        let e : ltb (length query) (end + 4) ≡ false = ground arith in
        rw (
          e,
          fits_after 12 (header query) (slice query 12 (end + 4)) (length-header query h)
              (omega (arith, length-slice query 12 (end + 4) inside)),
          fits_after (end + 4) body record_head l (omega arith),
          fits_after (end + 16) (body ++ record_head) gateway l2 (omega arith),
        )

    length-all : end + 4 ≤ length query → length (body ++ record_head) ≡ end + 16
    length-all inside = omega (arith, length-body inside, length-append body record_head)

    question-fits :
        (r : Bytes)
        → question vec query (header query) end ≡ some r
        → (end + 4 ≤ length query) × (end ≤ 492)
    unfolding question answer
    question-fits r e = elim (Bool-cases (ltb (length query) (end + 4))) [
      | inl out ↦ absurd (none-ne-some (rw out at e))
      | inr inside ↦
          let within : end + 4 ≤ length query = ground arith in
          ground (
            arith,
            extend-eq (header query) (slice query 12 (end + 4)),
            extend-eq body record_head,
            extend-eq (body ++ record_head) gateway,
            length-header query h,
            length-slice query 12 (end + 4) within,
            length-body within,
            length-all within,
          )
    ]

  no_answer :
      (query : Bytes)
      → ltb (length query) 17 ≡ true
      → ◌≡◌ {A = Option Bytes} (build_dns_response vec query) none
  unfolding build_dns_response
  no_answer query short = rw short

  -- A query is answered exactly if it has 17 bytes, the name of its question ends inside it with four
  -- bytes to follow, and the response stays within 512 bytes. The response is the query's id, flags and
  -- question count, its question, and one record with the gateway's address.
  pub build_dns_response_iff :
      (query r : Bytes)
      → (build_dns_response vec query ≡ some r)
        ↔ ((end : ℕ) × IsAnswered query end × (r ≡ response_to query end))
  build_dns_response_iff query r = (λ e. there e, λ (end, a, e). back end a ∙ ap some (sym e))
    where
      after_name :
          17 ≤ length query
          → (o : Option ℕ) → find_qname_end query 12 ≡ o
          → (o >>= λ end. question vec query (header query) end) ≡ some r
          → (end : ℕ) × IsAnswered query end × (r ≡ response_to query end)
      after_name h none f e = absurd (none-ne-some e)
      after_name h (some end) f e =
          let name = (find_qname_end_iff query 12 end).0 f in
          let (inside, fits) = question-fits query end h (Name_bounds name).0 r e in
          let q = question-some query end h (Name_bounds name).0 inside fits in
          (
            end,
            record { long = h; name = name; inside = inside; fits = fits },
            some-inj (sym e ∙ q),
          )

      there :
          build_dns_response vec query ≡ some r
          → (end : ℕ) × IsAnswered query end × (r ≡ response_to query end)
      there e = elim (Bool-cases (ltb (length query) 17)) [
        | inl short ↦ absurd (none-ne-some (sym (no_answer query short) ∙ e))
        | inr long ↦
            let h : 17 ≤ length query = ground arith in
            after_name h (find_qname_end query 12) refl (sym (build-header query h) ∙ e)
      ]

      back :
          (end : ℕ)
          → IsAnswered query end
          → build_dns_response vec query ≡ some (response_to query end)
      back end a =
          rw (build-header query a.long, (find_qname_end_iff query 12 end).1 a.name)
            (question-some query end a.long (Name_bounds a.name).0 a.inside a.fits)
