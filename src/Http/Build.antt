-- ===== src/Http/Build.antt =====
-- The requests that are Built, byte for byte, and the numbers in them.
use super_victor.Prelude.{
  ℕ, zero, suc, ◌+◌, ◌/◌, ◌%◌, ◌^◌, ◌≤◌, ◌<◌, ◌≡◌, ◌⊎◌, refl, ◌∙◌, ap, sym, false, Option, none,
  some, List, [], ◌∷◌, ◌++◌, arith, ltb, leb, ◌==◌, inl, inr, Bool-cases, length-append, append-nil,
  append_assoc, map,
}
use mathlib.Core.Path.{subst}
use super_victor.Prelude.Text.{Text, codes, as_bytes, len, len-nil}
use super_victor.Prelude.Decimal.{decimal, decimal_fuel}
use super_victor.Http.{
  buffer_overflow, serialization, HttpResult, ok, err, ◌>>=◌, HeaplessString, digits, push, pushes,
  push_digits, push_usize, path_of, get_request, post_data, post_request,
}

pub as_bytes-append : (s t : Text) → as_bytes (s ++ t) ≡ as_bytes s ++ as_bytes t
unfolding as_bytes
as_bytes-append [] t = refl
as_bytes-append (c ∷ s) t = rw (as_bytes-append s t) (simp append_assoc)

pub len-append : (s t : Text) → len (s ++ t) ≡ len s + len t
unfolding len
len-append s t = rw (as_bytes-append s t) (length-append (as_bytes s) (as_bytes t))

abbrev pub concat : List Text → Text
concat [] = []
concat (s ∷ ss) = s ++ concat ss

concat-singles : (s : Text) → concat (map (λ c. c ∷ []) s) ≡ s
concat-singles [] = refl
concat-singles (c ∷ s) = ap (λ t. c ∷ t) (concat-singles s)

digits_end : (fuel : ℕ) (acc : Text) (n : ℕ) → n ≡ 0 → digits fuel n acc ≡ some acc
unfolding digits
digits_end zero acc n e = rw e refl
digits_end (suc fuel) acc n e = rw e refl

-- The array of digits holds the decimal print of any number that has no more digits than it.
digits-decimal_fuel :
    (fuel n f : ℕ) (acc : Text)
    → 0 < n
    → n < 10 ^ fuel
    → n < f
    → digits fuel n acc ≡ some (decimal_fuel f n ++ acc)
unfolding digits decimal_fuel
digits-decimal_fuel zero n f acc p h k = absurd (omega arith)
digits-decimal_fuel (suc fuel) n zero acc p h k = absurd (omega arith)
digits-decimal_fuel (suc fuel) n (suc f) acc p h k = elim (Bool-cases (ltb n 10)) [
  | inl one ↦
      let some_digits : (n == 0) ≡ false = ground arith in
      rw (some_digits, one, digits_end fuel ((48 + n % 10) ∷ acc) (n / 10) (ground arith))
        (ap some (ap (λ d. d ∷ acc) (ground arith)))
  | inr more ↦
      let rest : (n == 0) ≡ false = ground arith in
      rw
        (
          rest,
          more,
          digits-decimal_fuel fuel (n / 10) f ((48 + n % 10) ∷ acc) (ground arith) (ground arith)
              (ground arith),
        )
        (ap some (sym (append_assoc (decimal_fuel f (n / 10)) ((48 + n % 10) ∷ []) acc)))
]

pub digits-decimal : (fuel n : ℕ) → 0 < n → n < 10 ^ fuel → digits fuel n [] ≡ some (decimal n)
unfolding decimal
digits-decimal fuel n p h =
    digits-decimal_fuel fuel n (suc n) [] p h (omega arith)
    ∙ ap some (append-nil (decimal_fuel (suc n) n))

-- What a build leaves: the text, or an overflow.
abbrev pub Built : ℕ → Text → HttpResult Text → Type 0
Built n t r = ((r ≡ ok t) × (len t ≤ n)) ⊎ ((r ≡ err buffer_overflow) × (n < len t))

Built-same : (n : ℕ) {t u : Text} {r : HttpResult Text} → t ≡ u → Built n t r → Built n u r
Built-same n {r = r} e = subst (λ x. Built n x r) e

-- A step behind a text.
Built-bind :
    (n : ℕ) (t u : Text) (r : HttpResult Text) (f : Text → HttpResult Text)
    → Built n t r
    → (len t ≤ n → Built n (t ++ u) (f t))
    → Built n (t ++ u) (r >>= f)
Built-bind n t u r f (inl (e, h)) next = rw e (next h)
Built-bind n t u r f (inr (e, h)) next = rw e (inr (refl, omega (arith, len-append t u)))

module _ (string : HeaplessString) where
  push-Built : (n : ℕ) (buf s : Text) → Built n (buf ++ s) (push string n buf s)
  unfolding push
  push-Built n buf s = elim (Bool-cases (leb (len buf + len s) n)) [
    | inl fits ↦
        rw (push, string.extend_fits n buf s (ground arith))
          (inl (refl, ground (arith, len-append buf s)))
    | inr full ↦
        rw (push, string.extend_full n buf s (ground arith))
          (inr (refl, ground (arith, len-append buf s)))
  ]

  pushes-Built :
      (n : ℕ) (buf : Text) (parts : List Text)
      → len buf ≤ n
      → Built n (buf ++ concat parts) (pushes string n buf parts)
  unfolding pushes
  pushes-Built n buf [] h = Built-same n (sym (append-nil buf)) (inl (refl, h))
  pushes-Built n buf (s ∷ ss) h = Built-same n (append_assoc buf s (concat ss)) (
      Built-bind n (buf ++ s) (concat ss) (push string n buf s) (λ r. pushes string n r ss)
        (push-Built n buf s) (pushes-Built n (buf ++ s) ss))

  -- A number of at most ten digits is pushed in decimal; no index is out of bounds.
  push_usize-Built :
      (n : ℕ) (buf : Text) (value : ℕ)
      → value < 10 ^ 10
      → len buf ≤ n
      → Built n (buf ++ decimal value) (push_usize string n buf value)
  unfolding push_usize decimal push_digits
  push_usize-Built n buf zero h k = push-Built n buf (codes "0")
  push_usize-Built n buf (suc v) h k =
      let ds = decimal_fuel (suc (suc v)) (suc v) in
      let e : digits 10 (suc v) [] ≡ some ds =
        digits-decimal_fuel 10 (suc v) (suc (suc v)) [] (omega arith) h (omega arith)
        ∙ ap some (append-nil ds) in
      let digit : (suc v == 0) ≡ false = ground arith in
      rw (digit, e)
        (Built-same n (ap (λ t. buf ++ t) (concat-singles ds))
          (pushes-Built n buf (map (λ c. c ∷ []) ds) k))

-- The texts that the requests are, if they fit.
abbrev pub get_parts : Text → Option Text → List Text
get_parts host path =
    (codes "GET "
      ∷ path_of path
      ∷ codes " HTTP/1.1\r\n"
      ∷ codes "Host: "
      ∷ host
      ∷ codes "\r\n"
      ∷ codes "User-Agent: Uplink/0.1.0 (Platform; ESP32-C3)\r\n"
      ∷ codes "Connection: close\r\n"
      ∷ codes "Accept: */*\r\n\r\n"
      ∷ [])

abbrev pub get_text : Text → Option Text → Text
get_text host path = concat (get_parts host path)

abbrev pub post_parts : Text → Option Text → List Text
post_parts host path =
    (codes "POST "
      ∷ path_of path
      ∷ codes " HTTP/1.1\r\n"
      ∷ codes "Host: "
      ∷ host
      ∷ codes "\r\nContent-Type: application/json\r\n"
      ∷ codes "Connection: close\r\n"
      ∷ [])

abbrev pub post_head : Text → Option Text → Text
post_head host path = concat (post_parts host path)

abbrev pub post_tail : Text → Text
post_tail j = codes "Content-Length: " ++ decimal (len j) ++ concat (codes "\r\n\r\n" ∷ j ∷ [])

abbrev pub post_text : Text → Text → Option Text → Text
post_text host j path = post_head host path ++ post_tail j

module _ (string : HeaplessString) (j : Text) (short : len j ≤ 256) where
  post_data-Built :
      (head : Text)
      → len head ≤ 512
      → Built 512 (head ++ post_tail j) (post_data string (some j) head)
  unfolding post_data
  post_data-Built head h =
      let label = codes "Content-Length: " in
      let rest = concat (codes "\r\n\r\n" ∷ j ∷ []) in
      Built-same 512 (append_assoc head label (decimal (len j) ++ rest)) (
        Built-bind 512 (head ++ label) (decimal (len j) ++ rest) _ _
          (push-Built string 512 head label)
          (λ k. Built-same 512 (append_assoc (head ++ label) (decimal (len j)) rest) (
            Built-bind 512 ((head ++ label) ++ decimal (len j)) rest _ _
              (push_usize-Built string 512 (head ++ label) (len j) (omega arith) k)
              (pushes-Built string 512 ((head ++ label) ++ decimal (len j))
                (codes "\r\n\r\n" ∷ j ∷ [])))))

module _ (string : HeaplessString) (host : Text) (path : Option Text) where
  -- A GET request is its text if that has at most 192 bytes, and else an overflow: never a part of it.
  pub get_request_lem : Built 192 (get_text host path) (get_request string host path)
  unfolding get_request
  get_request_lem = pushes-Built string 192 [] (get_parts host path) (omega (arith, len-nil))

  -- A POST request with a body that was serialised to `j` of at most 256 bytes is its text, whose
  -- content length is the number of bytes of `j`, if that text has at most 512 bytes, and else an
  -- overflow; no index is out of bounds.
  pub post_request_lem :
      (j : Text)
      → len j ≤ 256
      → Built 512 (post_text host j path) (post_request string host (some j) path)
  unfolding post_request
  post_request_lem j h =
      Built-bind 512 (post_head host path) (post_tail j) _ (post_data string (some j))
        (pushes-Built string 512 [] (post_parts host path) (omega (arith, len-nil)))
        (post_data-Built string j h (post_head host path))

  -- A body that could not be serialised is an error, never an empty request: the overflow of the
  -- headers if they do not fit, and else the failure to serialise.
  pub post_request-none :
      ((post_request string host none path ≡ err serialization) × (len (post_head host path) ≤ 512))
      ⊎ ((post_request string host none path ≡ err buffer_overflow)
          × (512 < len (post_head host path)))
  unfolding post_request post_data
  post_request-none =
      elim (pushes-Built string 512 [] (post_parts host path) (omega (arith, len-nil))) [
        | inl (f, h) ↦ inl (ap (λ r. r >>= post_data string none) f, h)
        | inr (f, h) ↦ inr (ap (λ r. r >>= post_data string none) f, h)
      ]
