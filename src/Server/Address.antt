-- ===== src/Server/Address.antt =====
-- The address that the portal prints.
use super_victor.Prelude.{
  ℕ, zero, suc, ◌+◌, ◌/◌, ◌%◌, ◌*◌, ◌^◌, ◌≤◌, ◌<◌, ◌≡◌, refl, ◌∙◌, ap, sym, false, Option, none,
  some, List, [], ◌∷◌, ◌++◌, arith, ◌==◌, append-nil, append_assoc, length, All,
}
use super_victor.Prelude.Text.{Text, codes, len, len-nil, as_bytes-ascii}
use super_victor.Prelude.Decimal.{decimal, decimal_fuel}
use super_victor.Http.{HeaplessString, digits}
use super_victor.Http.Build.{len-append, digits-decimal}
use super_victor.Server.{push_all, write_usize, push_octets, format_ip_octets}
use super_victor.Server.Escape.{push_ok_fits}

len_digit : (c : ℕ) → c < 128 → len (c ∷ []) ≡ 1
unfolding len
len_digit c h = ap length (as_bytes-ascii (c ∷ []) (h, tt))

len-decimal_fuel : (k f n : ℕ) → n < 10 ^ suc k → len (decimal_fuel f n) ≤ suc k
unfolding decimal_fuel
len-decimal_fuel k zero n h = omega (arith, len-nil)
len-decimal_fuel zero (suc f) n h = ground (arith, len_digit (48 + n))
len-decimal_fuel (suc k) (suc f) n h = ground (
  arith,
  len_digit (48 + n),
  len_digit (48 + n % 10),
  len-append (decimal_fuel f (n / 10)) ((48 + n % 10) ∷ []),
  len-decimal_fuel k f (n / 10) (omega arith),
)

-- An octet has at most three digits.
len-octet : (n : ℕ) → n < 256 → len (decimal n) ≤ 3
unfolding decimal
len-octet n h = len-decimal_fuel 2 (suc n) n (omega arith)

power_pos : (k : ℕ) → 1 ≤ 10 ^ k
power_pos zero = omega arith
power_pos (suc k) = omega (arith, power_pos k)

digits_over :
    (fuel n : ℕ) (acc : Text) → 10 ^ fuel ≤ n → ◌≡◌ {A = Option Text} (digits fuel n acc) none
unfolding digits
digits_over zero n acc h = ground arith
digits_over (suc fuel) n acc h =
    let some_digits : 0 < n = omega (arith, power_pos fuel) in
    ground (arith, digits_over fuel (n / 10) ((48 + n % 10) ∷ acc) (omega arith))

-- The octets behind the first, each with its dot.
abbrev pub dotted : List ℕ → Text
dotted [] = []
dotted (o ∷ os) = (codes "." ++ decimal o) ++ dotted os

len-dotted : (os : List ℕ) → All (λ o. o < 256) os → len (dotted os) ≤ 4 * length os
len-dotted [] h = omega (arith, len-nil)
len-dotted (o ∷ os) (h, hs) = omega (
  arith,
  len-append (codes "." ++ decimal o) (dotted os),
  len-append (codes ".") (decimal o),
  len_digit b'.' (omega arith),
  len-octet o h,
  len-dotted os hs,
)

module _ (string : HeaplessString) (capacity : ℕ) where
  push_all_fits :
      (buf s : Text) → len (buf ++ s) ≤ capacity → push_all string capacity buf s ≡ buf ++ s
  unfolding push_all
  push_all_fits buf [] h = sym (append-nil buf)
  push_all_fits buf (c ∷ s) h =
      let assoc = append_assoc buf (c ∷ []) s in
      let room : len ((buf ++ c ∷ []) ++ s) ≤ capacity = rw (sym assoc) at h in
      rw
        (push_ok_fits string capacity buf (c ∷ [])
          (omega (arith, room, len-append (buf ++ c ∷ []) s)))
        (push_all_fits (buf ++ c ∷ []) s room ∙ assoc)

  -- A number of at most seven digits is written in decimal where there is room for it.
  pub write_usize_fits :
      (buf : Text) (n : ℕ)
      → n < 10 ^ 7
      → len (buf ++ decimal n) ≤ capacity
      → write_usize string capacity buf n ≡ some (buf ++ decimal n)
  unfolding write_usize decimal
  write_usize_fits buf zero h k = ap some (push_ok_fits string capacity buf (codes "0") k)
  write_usize_fits buf (suc n) h k =
      let digit : (suc n == 0) ≡ false = ground arith in
      rw (digit, digits-decimal 7 (suc n) (omega arith) h)
        (ap some (push_all_fits buf (decimal (suc n)) k))

  -- A number with more digits ends in a panic, whatever the buffer.
  pub write_usize_panics :
      (buf : Text) (n : ℕ)
      → 10 ^ 7 ≤ n
      → ◌≡◌ {A = Option Text} (write_usize string capacity buf n) none
  unfolding write_usize
  write_usize_panics buf n h =
      let digit : (n == 0) ≡ false = ground arith in rw (digit, digits_over 7 n [] h) refl

push_octets_fits :
    (string : HeaplessString) (s : Text) (os : List ℕ)
    → All (λ o. o < 256) os
    → len (s ++ dotted os) ≤ 16
    → push_octets string s os ≡ some (s ++ dotted os)
unfolding push_octets
push_octets_fits string s [] h k = ap some (sym (append-nil s))
push_octets_fits string s (o ∷ os) (h, hs) k =
    let assoc1 = append_assoc s (codes "." ++ decimal o) (dotted os) in
    let assoc2 = append_assoc s (codes ".") (decimal o) in
    let room : len ((s ++ (codes "." ++ decimal o)) ++ dotted os) ≤ 16 = rw (sym assoc1) at k in
    let room1 : len (s ++ (codes "." ++ decimal o)) ≤ 16 =
      omega (arith, len-append (s ++ (codes "." ++ decimal o)) (dotted os)) in
    let room2 : len ((s ++ codes ".") ++ decimal o) ≤ 16 = rw (sym assoc2) at room1 in
    rw
      (
        push_ok_fits string 16 s (codes ".")
            (omega (arith, room2, len-append (s ++ codes ".") (decimal o))),
        write_usize_fits string 16 (s ++ codes ".") o (omega arith) room2,
        assoc2,
      )
      (push_octets_fits string (s ++ (codes "." ++ decimal o)) os hs room ∙ ap some assoc1)

-- Four octets are printed in full, in decimal with dots between them: the buffer of 16 bytes never
-- cuts them, and no index is out of bounds.
pub format_ip_octets-dotted :
    (string : HeaplessString) (a b c d : ℕ)
    → a < 256
    → b < 256
    → c < 256
    → d < 256
    → format_ip_octets string a b c d ≡ some (decimal a ++ dotted (b ∷ c ∷ d ∷ []))
unfolding format_ip_octets
format_ip_octets-dotted string a b c d ha hb hc hd =
    let os = b ∷ c ∷ d ∷ [] in
    let small : All (λ o. o < 256) os = (hb, (hc, (hd, tt))) in
    let short : len (decimal a) ≤ 16 = omega (arith, len-octet a ha) in
    rw (write_usize_fits string 16 [] a (omega arith) short) (
      push_octets_fits string (decimal a) os small
        (omega (arith, len-append (decimal a) (dotted os), len-octet a ha, len-dotted os small)))
