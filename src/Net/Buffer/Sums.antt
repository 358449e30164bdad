-- ===== src/Net/Buffer/Sums.antt =====
-- What sorting, cutting and evicting make of the number and the bytes of messages.
use mathlib.Core.List.{Permᴰ}
use dumbo_ms.Prelude.{
  ℕ, zero, suc, ◌+◌, ◌-◌, ◌≤◌, ◌≡◌, refl, ap, ◌∙◌, arith, inl, inr, Bool-cases, List, [], ◌∷◌, ◌++◌,
  length, drop, ltb, length-drop,
}
use dumbo_ms.Net.Messages.{ConsMsg, size, total, IsSorted}
use dumbo_ms.Net.Buffer.{cut}

pub total-perm : {xs ys : List ConsMsg} → Permᴰ xs ys → total xs ≡ total ys
total-perm Permᴰ.nil = refl
total-perm (Permᴰ.cons e p) = omega (arith, ap size e, total-perm p)
total-perm (Permᴰ.swap e f) = omega (arith, ap size e, ap size f)
total-perm (Permᴰ.trans p q) = total-perm p ∙ total-perm q

pub length_perm : {xs ys : List ConsMsg} → Permᴰ xs ys → length xs ≡ length ys
length_perm Permᴰ.nil = refl
length_perm (Permᴰ.cons e p) = ap suc (length_perm p)
length_perm (Permᴰ.swap e f) = refl
length_perm (Permᴰ.trans p q) = length_perm p ∙ length_perm q

pub total-append : (xs ys : List ConsMsg) → total (xs ++ ys) ≡ total xs + total ys
total-append [] ys = omega arith
total-append (x ∷ xs) ys = omega (arith, total-append xs ys)

pub total-drop : (n : ℕ) (xs : List ConsMsg) → total (drop n xs) ≤ total xs
total-drop zero xs = omega arith
total-drop (suc n) [] = omega arith
total-drop (suc n) (x ∷ xs) = omega (arith, total-drop n xs)

pub drop-IsSorted : (n : ℕ) (xs : List ConsMsg) → IsSorted xs → IsSorted (drop n xs)
drop-IsSorted zero xs s = s
drop-IsSorted (suc n) [] s = s
drop-IsSorted (suc n) (x ∷ xs) s = drop-IsSorted n xs s.1

-- A cut is a drop, of nothing where there is room.
pub cut-drop : (c : ℕ) (b : List ConsMsg) → cut c b ≡ drop (length b - c) b
unfolding cut
cut-drop c b = elim (Bool-cases (ltb c (length b))) [
  | inl e ↦ rw e refl
  | inr e ↦ let none_over : length b - c ≡ 0 = ground arith in rw (e, none_over) refl
]

pub cut-bounds : (c : ℕ) (b : List ConsMsg) → (length (cut c b) ≤ c) × (total (cut c b) ≤ total b)
cut-bounds c b =
    rw cut-drop (omega (arith, length-drop (length b - c) b), total-drop (length b - c) b)

pub cut-IsSorted : (c : ℕ) (b : List ConsMsg) → IsSorted b → IsSorted (cut c b)
cut-IsSorted c b s = rw cut-drop (drop-IsSorted (length b - c) b s)

pub cut_fits : (c : ℕ) (b : List ConsMsg) → length b ≤ c → cut c b ≡ b
unfolding cut
cut_fits c b h = ground arith
