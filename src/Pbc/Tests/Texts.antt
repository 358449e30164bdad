-- ===== src/Pbc/Tests/Texts.antt =====
-- Texts of numbers and the default operations of arith/field.c on small inputs.
use dumbo_ms.Prelude.{
  ℕ, zero, suc, ◌*◌, ◌+◌, ◌<◌, ◌≤◌, ◌^◌, ◌==◌, if◌then◌else◌, ◌≡◌, refl, ap, ◌∙◌, arith, false,
  List, [], ◌∷◌, ◌++◌, some,
}
use native.Mathlib.Nat.{pow-suc, one-le-pow}
use dumbo_ms.Pbc.Mpz.{Sign, minus, naught, plus}
use dumbo_ms.Pbc.Digits.{Answer, pbc_mpz_trickle, pbc_mpz_set_str}
use dumbo_ms.Pbc.Digits.Written.{written, calls, pbc_mpz_trickle-set_str}
use dumbo_ms.Pbc.Digits.Read.{text}

-- A size that is large enough in every base.
abbrev size : ℕ → ℕ → ℕ
size n b = n + 1

twice_le : (p b : ℕ) → 2 ≤ b → p * 2 ≤ p * b
twice_le p b h = grind arith

lt_pow : (b n : ℕ) → 2 ≤ b → n < b ^ (n + 1)
lt_pow b zero h = one-le-pow 1 b (omega arith)
lt_pow b (suc n) h =
    let e : suc n + 1 ≡ suc (n + 1) = omega arith in
    let p : b ^ (suc n + 1) ≡ b ^ (n + 1) * b = ap (λ t. b ^ t) e ∙ pow-suc b (n + 1) in
    let q : b ^ (n + 1) * 2 ≤ b ^ (n + 1) * b = twice_le (b ^ (n + 1)) b h in
    let r = lt_pow b n h in omega arith

-- Collects the characters, and stops at none.
abbrev collect : ℕ → List ℕ → Answer (List ℕ)
collect c cs = record { res = false; state = cs ++ (c ∷ []) }

-- "203"
trickle_runs :
    pbc_mpz_trickle collect (λ n b. 3) 0 203 []
    ≡ some (record { res = false; state = 50 ∷ 48 ∷ 51 ∷ [] })
unfolding pbc_mpz_trickle
trickle_runs = refl

-- " 1F" in base 16
set_str_runs : pbc_mpz_set_str (32 ∷ 49 ∷ 70 ∷ []) 16 ≡ record { z = 21; count = 3 }
unfolding pbc_mpz_set_str
set_str_runs = refl

pbc_mpz_trickle-set_str_example :
    (pbc_mpz_trickle collect size 0 7 [] ≡ calls collect (written size 0 7) [])
    × (pbc_mpz_set_str (text (written size 0 7)) 0 ≡ record { z = 7; count = 8 })
pbc_mpz_trickle-set_str_example =
    pbc_mpz_trickle-set_str collect size 0 7 [] (λ m b h. (omega arith, lt_pow b m h)) (omega arith)
      (omega arith)

abbrev objects : ℕ → Sign
objects a = if a == 0 then minus else (if a == 1 then plus else naught)
