-- ===== src/Server/Chunks.antt =====
-- What a client gets of an asset that is written in chunks.
use mathlib.Core.Path.{subst}
use super_victor.Prelude.{
  ℕ, zero, suc, ◌≤◌, ◌≡◌, refl, sym, ap, ◌∙◌, Bool, true, false, Option, some, List, [], ◌∷◌, ◌++◌,
  append_assoc, append-nil, Option-cases, none-some, false-true, some_same, inl, inr, length,
  length-drop, length-take, take, drop, take-append-drop, All, arith,
}
use super_victor.Prelude.Text.{Text, as_bytes}
use super_victor.Http.{HeaplessString}
use super_victor.Server.{build_response_header}
use super_victor.Server.Serve.{
  Writing, until_failure, chunks_on, chunks, tried, written, concat, write_chunked,
}

concat-chunks_on :
    (fuel : ℕ) (data_ : List ℕ) → length data_ ≤ fuel → concat (chunks_on fuel data_) ≡ data_
unfolding chunks_on
concat-chunks_on zero [] h = refl
concat-chunks_on zero (b ∷ data_) h = absurd (omega (arith, h))
concat-chunks_on (suc fuel) [] h = refl
concat-chunks_on (suc fuel) (b ∷ data_) h =
    ap (λ l. b ∷ (take 2047 data_ ++ l))
      (concat-chunks_on fuel (drop 2047 data_) (omega (arith, h, length-drop 2047 data_)))
    ∙ ap (λ l. b ∷ l) (take-append-drop 2047 data_)

chunks_on-All : (fuel : ℕ) (data_ : List ℕ) → All (λ p. length p ≤ 2048) (chunks_on fuel data_)
unfolding chunks_on
chunks_on-All zero data_ = tt
chunks_on-All (suc fuel) [] = tt
chunks_on-All (suc fuel) (b ∷ data_) =
    (omega (arith, length-take 2047 data_), chunks_on-All fuel (drop 2047 data_))

concat-append : (ps qs : List (List ℕ)) → concat (ps ++ qs) ≡ concat ps ++ concat qs
concat-append [] qs = refl
concat-append (p ∷ ps) qs =
    ap (λ l. p ++ l) (concat-append ps qs) ∙ sym (append_assoc p (concat ps) (concat qs))

-- The pieces that are tried are a beginning of all of them, and all if none fails.
record Beginning (all some_ : List (List ℕ)) (oks : List Bool) : Type 0 where
  rest : List (List ℕ)
  splits : some_ ++ rest ≡ all
  complete : All (λ ok. ok ≡ true) oks → some_ ≡ all

tried-Beginning : (ps : List (List ℕ)) (oks : List Bool) → Beginning ps (tried ps oks) oks
unfolding tried
tried-Beginning [] oks = record { rest = []; splits = refl; complete = λ _. refl }
tried-Beginning (p ∷ ps) [] = record {
  rest = [];
  splits = append-nil (p ∷ ps);
  complete = λ _. refl;
}
tried-Beginning (p ∷ ps) (true ∷ oks) =
    let r = tried-Beginning ps oks in
    record {
      rest = r.rest;
      splits = ap (λ l. p ∷ l) r.splits;
      complete = λ (_, h). ap (λ l. p ∷ l) (r.complete h);
    }
tried-Beginning (p ∷ ps) (false ∷ oks) = record {
  rest = ps;
  splits = refl;
  complete = λ (h, _). absurd (false-true h);
}

module _ (string : HeaplessString) (content_type : Text) (data_ : List ℕ)
    (extra : Option Text) where
  -- Whichever writes fail, the bytes of the pieces that are tried are a beginning of the header and the
  -- asset, and all of it if no write fails; every piece behind the header has at most 2048 bytes.
  pub record Streamed (header : Text) (w : Writing) (oks : List Bool) : Type 0 where
    pub missing : List ℕ
    pub beginning : concat (written w oks) ++ missing ≡ as_bytes header ++ data_
    pub whole : All (λ ok. ok ≡ true) oks → concat (written w oks) ≡ as_bytes header ++ data_
    pub pieces :
        (ps : List (List ℕ)) × (w ≡ until_failure (as_bytes header ∷ ps))
        × All (λ p. length p ≤ 2048) ps

  streamed :
      (header : Text) (oks : List Bool)
      → Streamed header (until_failure (as_bytes header ∷ chunks data_)) oks
  unfolding written chunks
  streamed header oks =
      let ps = as_bytes header ∷ chunks_on (length data_) data_ in
      let r = tried-Beginning ps oks in
      let all =
        ap (λ l. as_bytes header ++ l) (concat-chunks_on (length data_) data_ (omega arith)) in
      record {
        missing = concat r.rest;
        beginning = sym (concat-append (tried ps oks) r.rest) ∙ ap concat r.splits ∙ all;
        whole = λ h. ap concat (r.complete h) ∙ all;
        pieces = (chunks_on (length data_) data_, refl, chunks_on-All (length data_) data_);
      }

  -- Writing an asset streams its header and its bytes in pieces of at most 2048 bytes: whichever writes
  -- fail, what was tried is a beginning of the two, and all of it if no write fails.
  pub write_chunked-Streamed :
      (w : Writing)
      → write_chunked string content_type data_ extra ≡ some w
      → (oks : List Bool)
      → (header : Text) × (build_response_header string content_type (length data_) extra
          ≡ some header)
        × Streamed header w oks
  unfolding write_chunked
  write_chunked-Streamed w e oks =
      elim (Option-cases (build_response_header string content_type (length data_) extra)) [
        | inl f ↦ absurd (none-some (rw f at e))
        | inr (header, f) ↦ (
          header,
          f,
          subst (λ x. Streamed header x oks) (some_same (rw f at e)) (streamed header oks),
        )
      ]
