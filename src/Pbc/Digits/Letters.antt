-- ===== src/Pbc/Digits/Letters.antt =====
-- Letters as digits in arith/field.c.
use dumbo_ms.Prelude.{
  ℕ, ◌+◌, ◌-◌, ◌<◌, ◌≤◌, ◌≡◌, refl, sym, ap, ◌∙◌, arith, List, ◌∷◌, some, if◌then◌else◌, ltb, ◌||◌,
}
use dumbo_ms.Pbc.Digits.{
  digit_of, push_digit, read_char, set_str_loop, set_str_in, default_base, pbc_mpz_set_str,
}
use dumbo_ms.Pbc.Digits.Read.{false_of_lt, true_of_le, not_space, decimal_digit}

capital_value : (j : ℕ) → j < 10 → digit_of (65 + j) ≡ some j
capital_value j h =
    rw
      (
        true_of_le 48 (65 + j) (omega arith),
        false_of_lt (65 + j) 57 (omega arith),
        true_of_le 65 (65 + j) (omega arith),
        true_of_le (65 + j) 90 (omega arith),
      )
      (let same : 65 + j - 65 ≡ j = omega arith in ap (λ t. some t) same)

small_value : (j : ℕ) → j < 10 → digit_of (97 + j) ≡ some j
small_value j h =
    rw
      (
        true_of_le 48 (97 + j) (omega arith),
        false_of_lt (97 + j) 57 (omega arith),
        true_of_le 65 (97 + j) (omega arith),
        false_of_lt (97 + j) 90 (omega arith),
        true_of_le 97 (97 + j) (omega arith),
        true_of_le (97 + j) 122 (omega arith),
      )
      (let same : 97 + j - 97 ≡ j = omega arith in ap (λ t. some t) same)

-- A character that is no space, by its value.
read_valued :
    (b z c j : ℕ) → 33 ≤ c → digit_of c ≡ some j → read_char b z c ≡ push_digit b z (some j)
unfolding read_char
read_valued b z c j h e = rw (not_space c h, e) refl

same_reading :
    (b c d i : ℕ) (cs : List ℕ) (z : ℕ)
    → read_char b z c ≡ read_char b z d
    → set_str_loop b (c ∷ cs) z i ≡ set_str_loop b (d ∷ cs) z i
unfolding set_str_loop
same_reading b c d i cs z e = rw (set_str_loop, e) refl

same_number :
    (cs : List ℕ) (c d base : ℕ)
    → read_char (default_base base) 0 c ≡ read_char (default_base base) 0 d
    → pbc_mpz_set_str (c ∷ cs) base ≡ pbc_mpz_set_str (d ∷ cs) base
unfolding pbc_mpz_set_str set_str_in
same_number cs c d base e =
    ap
      (λ r.
        if ltb (default_base base) 2 || ltb 36 (default_base base)
        then record { z = 0; count = 0 }
        else r)
      (same_reading (default_base base) c d 0 cs 0 e)

-- In every base a text that starts with one of the first ten letters, capital or small, is read
-- like the text that starts with 0 to 9 in its place: in base 16, A is 0 and not 10.
pub letters-set_str :
    (cs : List ℕ) (base j : ℕ)
    → j < 10
    → (pbc_mpz_set_str ((65 + j) ∷ cs) base ≡ pbc_mpz_set_str ((48 + j) ∷ cs) base)
      × (pbc_mpz_set_str ((97 + j) ∷ cs) base ≡ pbc_mpz_set_str ((48 + j) ∷ cs) base)
letters-set_str cs base j h = (
  same_number cs (65 + j) (48 + j) base
      (read_valued b 0 (65 + j) j (omega arith) (capital_value j h) ∙ sym decimal),
  same_number cs (97 + j) (48 + j) base
      (read_valued b 0 (97 + j) j (omega arith) (small_value j h) ∙ sym decimal),
)
  where
    b : ℕ
    b = default_base base

    decimal : read_char b 0 (48 + j) ≡ push_digit b 0 (some j)
    decimal = read_valued b 0 (48 + j) j (omega arith) (decimal_digit j h)
