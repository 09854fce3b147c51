-- ===== src/Dns/Qname.antt =====
-- The end of a name: the loop ends, and what it finds.
use super_victor.Prelude.{
  ℕ, zero, suc, ◌+◌, ◌-◌, ◌≤◌, ◌<◌, ◌≡◌, ◌↔◌, ◌∙◌, ap, Option, none, some, arith, leb, ◌==◌, length,
  get_or, Bool-cases, inl, inr,
}
use super_victor.Dns.{Bytes, qname_loop, find_qname_end}

-- A walk over labels from an offset to the byte behind the name.
pub data Name (b : Bytes) : ℕ → ℕ → Type 0 where
  root :
      (offset end : ℕ)
      → offset < length b
      → get_or b offset 0 ≡ 0
      → end ≡ offset + 1
      → Name b offset end
  pointer :
      (offset end : ℕ)
      → offset < length b
      → 192 ≤ get_or b offset 0
      → end ≡ offset + 2
      → Name b offset end
  label :
      (offset end : ℕ)
      → offset < length b
      → 0 < get_or b offset 0
      → get_or b offset 0 < 192
      → Name b (offset + (1 + get_or b offset 0)) end
      → Name b offset end

-- With more fuel than bytes left the loop ends.
pub qname_loop_total :
    (fuel : ℕ) (b : Bytes) (offset : ℕ)
    → length b - offset < fuel
    → (r : Option ℕ) × (qname_loop fuel b offset ≡ some r)
unfolding qname_loop
qname_loop_total zero b offset h = absurd (omega arith)
qname_loop_total (suc fuel) b offset h = elim (Bool-cases (leb (length b) offset)) [
  | inl past ↦ (none, rw past)
  | inr inside ↦ elim (Bool-cases (get_or b offset 0 == 0)) [
    | inl e ↦ (some (offset + 1), rw (inside, e))
    | inr e ↦ elim (Bool-cases (leb 192 (get_or b offset 0))) [
      | inl p ↦ (some (offset + 2), rw (inside, e, p))
      | inr p ↦
          let (r, q) = qname_loop_total fuel b (offset + (1 + get_or b offset 0)) (ground arith) in
          (r, rw (inside, e, p) q)
    ]
  ]
]

qname_loop-Name :
    (fuel : ℕ) (b : Bytes) (offset end : ℕ)
    → qname_loop fuel b offset ≡ some (some end)
    → Name b offset end
unfolding qname_loop
qname_loop-Name zero b offset end h = absurd (cc)
qname_loop-Name (suc fuel) b offset end h = elim (Bool-cases (leb (length b) offset)) [
  | inl past ↦ absurd (ground arith)
  | inr inside ↦ elim (Bool-cases (get_or b offset 0 == 0)) [
    | inl e ↦ root offset end (ground arith) (ground arith) (ground arith)
    | inr e ↦ elim (Bool-cases (leb 192 (get_or b offset 0))) [
      | inl p ↦ pointer offset end (ground arith) (ground arith) (ground arith)
      | inr p ↦
          label offset end (ground arith) (ground arith) (ground arith)
            (qname_loop-Name fuel b (offset + (1 + get_or b offset 0)) end (rw (inside, e, p) at h))
    ]
  ]
]

Name-qname_loop :
    (fuel : ℕ) {b : Bytes} {offset end : ℕ}
    → Name b offset end
    → length b - offset < fuel
    → qname_loop fuel b offset ≡ some (some end)
unfolding qname_loop
Name-qname_loop zero n h = absurd (omega arith)
Name-qname_loop (suc fuel) (root offset end lt z e) h = ground arith
Name-qname_loop (suc fuel) (pointer offset end lt z e) h = ground arith
Name-qname_loop (suc fuel) {b} (label offset end lt lo hi n) h =
    ground (arith, Name-qname_loop fuel n (omega arith))

-- The search ends, and it finds the byte behind the name exactly where the labels from the offset lead
-- to a zero byte or a compression pointer within the data.
pub find_qname_end_iff :
    (b : Bytes) (offset end : ℕ) → (find_qname_end b offset ≡ some end) ↔ Name b offset end
unfolding find_qname_end
find_qname_end_iff b offset end =
    let (r, e) = qname_loop_total (length b + 1) b offset (omega arith) in
    (
      λ h. qname_loop-Name (length b + 1) b offset end (e ∙ ap some (rw e at h)),
      λ n. rw (Name-qname_loop (length b + 1) n (omega arith)),
    )

-- The end lies behind the offset, and at most one byte behind the data.
pub Name_bounds :
    {b : Bytes} {offset end : ℕ} → Name b offset end → (offset < end) × (end ≤ length b + 1)
Name_bounds (root offset end lt z e) = omega arith
Name_bounds (pointer offset end lt z e) = omega arith
Name_bounds (label offset end lt lo hi n) = omega (arith, Name_bounds n)
