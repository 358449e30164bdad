-- ===== src/Pbc/Digits/Read.antt =====
-- Digits as they are read, arith/field.c.
use dumbo_ms.Prelude.{
  ℕ, zero, suc, ◌+◌, ◌-◌, ◌*◌, ◌/◌, ◌%◌, ◌^◌, ◌<◌, ◌≤◌, leb, leb→le, arith, Bool-cases, inl, inr,
  true, false, ◌≡◌, refl, sym, ap, ap₂, subst, ◌∙◌, List, [], ◌∷◌, map, some,
}
use native.Mathlib.Nat.{
  pow-zero, pow-suc, pow-succ', one-le-pow, div-lt_iff_lt-mul, mod-lt, div-add-mod',
}
use dumbo_ms.Pbc.Digits.{is_space, digit_of, read_char, set_str_loop}

-- The l + 1 lowest digits of z, the highest first.
abbrev pub digits : ℕ → ℕ → ℕ → List ℕ
digits b zero z = z ∷ []
digits b (suc l) z = z / b ^ suc l ∷ digits b l (z % b ^ suc l)

abbrev pub text : List ℕ → List ℕ
text ds = map (λ d. 48 + d) ds

pub false_of_lt : (a b : ℕ) → b < a → leb a b ≡ false
false_of_lt a b h = elim (Bool-cases (leb a b)) [
  | inl t ↦ let k : a ≤ b = leb→le a b t in absurd (omega arith)
  | inr t ↦ t
]

pub true_of_le : (a b : ℕ) → a ≤ b → leb a b ≡ true
true_of_le a b h = ground arith

pub not_space : (c : ℕ) → 33 ≤ c → is_space c ≡ false
not_space c h = ground arith

pub decimal_digit : (j : ℕ) → j < 10 → digit_of (48 + j) ≡ some j
decimal_digit j h =
    rw (true_of_le 48 (48 + j) (omega arith), true_of_le (48 + j) 57 (omega arith))
      (let same : 48 + j - 48 ≡ j = omega arith in ap (λ t. some t) same)

-- A decimal digit is read as its value.
read_digit : (b z j : ℕ) → j < b → b ≤ 10 → read_char b z (48 + j) ≡ some (z * b + j)
unfolding read_char
read_digit b z j h k =
    rw (not_space (48 + j) (omega arith), decimal_digit j (omega arith), false_of_lt b j h) refl

pub pow_pos : (b l : ℕ) → 0 < b → 0 < b ^ l
pow_pos b l h = one-le-pow l b h

value_joined : (acc b p q r z : ℕ) → q * p + r ≡ z → (acc * b + q) * p + r ≡ acc * (p * b) + z
value_joined acc b p q r z h = omega arith

-- A number below b ^ (l + 2) split at its first digit.
first_digit : (b l z : ℕ) → 0 < b → z < b ^ suc (suc l) → z / b ^ suc l < b
first_digit b l z h k =
    (div-lt_iff_lt-mul (pow_pos b (suc l) h)).1 (subst (λ t. z < t) (pow-succ' b (suc l)) k)

pub pow_one : (b : ℕ) → b ^ 1 ≡ b
pow_one b = pow-suc b 0 ∙ rw (pow-zero b) (omega arith)

read_step :
    (b c : ℕ) (cs : List ℕ) (z w i : ℕ)
    → read_char b z c ≡ some w
    → set_str_loop b (c ∷ cs) z i ≡ set_str_loop b cs w (i + 1)
unfolding set_str_loop
read_step b c cs z w i h = rw (set_str_loop, h) refl

-- Read in the base in which they were written, the digits give the number.
pub set_str-digits :
    (b l z acc i : ℕ)
    → 2 ≤ b
    → b ≤ 10
    → z < b ^ suc l
    → set_str_loop b (text (digits b l z)) acc i
      ≡ record { z = acc * b ^ suc l + z; count = i + suc l }
unfolding set_str_loop
set_str-digits b zero z acc i h k n =
    read_step b (48 + z) [] acc (acc * b + z) i
      (read_digit b acc z (subst (λ t. z < t) (pow_one b) n) k)
    ∙ ap (λ t. record { z = acc * t + z; count = i + 1 }) (sym (pow_one b))
set_str-digits b (suc l) z acc i h k n =
    read_step b (48 + z / b ^ suc l) (text (digits b l (z % b ^ suc l))) acc
      (acc * b + z / b ^ suc l) i
      (read_digit b acc (z / b ^ suc l) (first_digit b l z (omega arith) n) k)
    ∙ set_str-digits b l (z % b ^ suc l) (acc * b + z / b ^ suc l) (i + 1) h k
        (mod-lt z (pow_pos b (suc l) (omega arith)))
    ∙ ap₂ (λ u v. record { z = u; count = v })
        (value_joined acc b (b ^ suc l) (z / b ^ suc l) (z % b ^ suc l) z
            (div-add-mod' z (b ^ suc l))
          ∙ ap (λ t. acc * t + z) (sym (pow-suc b (suc l))))
        (let same : i + 1 + suc l ≡ i + suc (suc l) = omega arith in same)
