-- ===== src/Fin/Quorum.antt =====
-- Sums over the nodes, and the nodes that two sets of senders share.
use dumbo_ms.Prelude.{ℕ, zero, suc, ◌+◌, ◌*◌, ◌≤◌, ◌<◌, arith, ◌≡◌, subst, dec_lt}

-- w 0 + .. + w (n - 1)
abbrev pub total : (ℕ → ℕ) → ℕ → ℕ
total w zero = 0
total w (suc n) = total w n + w n

pub total_mono : (a b : ℕ → ℕ) (n : ℕ) → ((i : ℕ) → a i ≤ b i) → total a n ≤ total b n
total_mono a b zero h = omega arith
total_mono a b (suc n) h = let rest = total_mono a b n h in let last = h n in omega arith

-- One more at an index in range.
pub total_raised :
    (a b : ℕ → ℕ) (n j : ℕ)
    → j < n
    → ((i : ℕ) → a i ≤ b i)
    → suc (a j) ≤ b j
    → suc (total a n) ≤ total b n
total_raised a b zero j l h k = absurd (omega arith)
total_raised a b (suc n) j l h k = elim (dec_lt j n) [
  | yes below ↦ let rest = total_raised a b n j below h k in let last = h n in omega arith
  | no above ↦
      let same : j ≡ n = omega arith in
      let rest = total_mono a b n h in
      let last : suc (a n) ≤ b n = subst (λ i. suc (a i) ≤ b i) same k in omega arith
]

-- With more of a and b than of nodes and faults, some node has both and is not faulty.
pub pigeonhole :
    (a b bad : ℕ → ℕ) (n : ℕ)
    → n + total bad n < total a n + total b n
    → (i : ℕ) × (i < n) × (1 + bad i < a i + b i)
pigeonhole a b bad zero h = absurd (omega arith)
pigeonhole a b bad (suc n) h = elim (dec_lt (1 + bad n) (a n + b n)) [
  | yes here ↦ (n, omega arith, here)
  | no less ↦ let (i, l, k) = pigeonhole a b bad n (omega arith) in (i, omega arith, k)
]

-- Two quorums of 2f + 1 among n nodes, at most 3f + 1, of which at most f are faulty.
pub quorums_meet :
    (a b bad : ℕ → ℕ) (n f : ℕ)
    → n ≤ 3 * f + 1
    → total bad n ≤ f
    → 2 * f + 1 ≤ total a n
    → 2 * f + 1 ≤ total b n
    → ((i : ℕ) → a i ≤ 1)
    → ((i : ℕ) → b i ≤ 1)
    → (i : ℕ) × (i < n) × (0 < a i) × (0 < b i) × (bad i ≡ 0)
quorums_meet a b bad n f few faults qa qb one_a one_b =
    let (i, l, k) = pigeonhole a b bad n (omega arith) in
    let u = one_a i in let v = one_b i in (i, l, omega arith, omega arith, omega arith)
