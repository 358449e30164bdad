-- ===== src/Pbc/MultiPow/Laws.antt =====
-- The simultaneous exponentiations of arith/field.c compute the product of the powers.
use dumbo_ms.Prelude.{
  ℕ, zero, suc, ◌+◌, ◌-◌, ◌*◌, ◌/◌, ◌^◌, ◌<◌, ◌≤◌, ◌≡◌, ◌⊎◌, inl, inr, refl, sym, ap, ap₂, ◌∙◌,
  get_or, ltb, ◌==◌, if◌then◌else◌, arith, ◌&&◌, Bool-cases,
}
use native.Mathlib.Nat.{div-eq_of_lt}
use dumbo_ms.Pbc.Gmp.{Gmp}
use dumbo_ms.Pbc.Field.{Field}
use dumbo_ms.Pbc.Field.Power.{power, power-add, one_mul, mul_interchange}
use dumbo_ms.Pbc.Pow.Bits.{next_bit, tstbit-lt, two_pow_mono}
use dumbo_ms.Pbc.MultiPow.{
  larger, times_bits, pow2_loop, element_pow2_mpz, pow3_lookup, pow3_loop, element_pow3_mpz,
}

bit-cases : (b : ℕ) → b < 2 → (b ≡ 0) ⊎ (b ≡ 1)
bit-cases b h = omega arith

module _ {ℓ} {E : Type ℓ} (g : Gmp) (f : Field E) where
  open g use {sizeinbase2, sizeinbase2_pos, sizeinbase2_bound, tstbit}
  open f use {set1, mul, mul_assoc, mul_comm, mul_one}

  -- The power by the bits of n from s on.
  abbrev top : E → ℕ → ℕ → E
  top a n s = power f a (n / 2 ^ s)

  top_next :
      (a : E) (n s : ℕ)
      → top a n s ≡ mul (mul (top a n (suc s)) (top a n (suc s))) (power f a (tstbit n s))
  top_next a n s =
      power-add f a (n / 2 ^ suc s + n / 2 ^ suc s) (tstbit n s) (n / 2 ^ s)
        (omega (arith, next_bit g n s))
      ∙ ap (λ x. mul x (power f a (tstbit n s)))
          (power-add f a (n / 2 ^ suc s) (n / 2 ^ suc s) (n / 2 ^ suc s + n / 2 ^ suc s) refl)

  -- Squares with a factor each multiply to the square of the product with the product of factors.
  squares :
      (x b y c : E)
      → mul (mul (mul x x) b) (mul (mul y y) c) ≡ mul (mul (mul x y) (mul x y)) (mul b c)
  squares x b y c =
      mul_interchange f (mul x x) b (mul y y) c
      ∙ ap (λ z. mul z (mul b c)) (mul_interchange f x x y y)

  above : (a : E) (n s : ℕ) → n < 2 ^ s → top a n s ≡ set1
  unfolding power
  above a n s h = ap (power f a) (div-eq_of_lt h)

  times_bits-power :
      (r a1 a2 : E) (b1 b2 : ℕ)
      → b1 < 2
      → b2 < 2
      → times_bits g f r a1 a2 (mul a1 a2) b1 b2 ≡ mul r (mul (power f a1 b1) (power f a2 b2))
  unfolding times_bits power
  times_bits-power r a1 a2 b1 b2 h1 h2 = elim (bit-cases b1 h1) [
    | inl p ↦ elim (bit-cases b2 h2) [
      | inl q ↦ rw (p, q) (simp mul_one)
      | inr q ↦ rw (p, q) (simp (mul_one, one_mul f))
    ]
    | inr p ↦ elim (bit-cases b2 h2) [
      | inl q ↦ rw (p, q) (simp mul_one)
      | inr q ↦ rw (p, q) (simp mul_one)
    ]
  ]

  pow2_loop-top :
      (a1 : E) (n1 : ℕ) (a2 : E) (n2 s : ℕ) (r : E)
      → r ≡ mul (top a1 n1 s) (top a2 n2 s)
      → pow2_loop g f a1 n1 a2 n2 (mul a1 a2) s r ≡ mul (top a1 n1 0) (top a2 n2 0)
  unfolding pow2_loop
  pow2_loop-top a1 n1 a2 n2 zero r e = e
  pow2_loop-top a1 n1 a2 n2 (suc s) r e =
      pow2_loop-top a1 n1 a2 n2 s
        (times_bits g f (mul r r) a1 a2 (mul a1 a2) (tstbit n1 s) (tstbit n2 s))
        (times_bits-power (mul r r) a1 a2 (tstbit n1 s) (tstbit n2 s) (tstbit-lt g n1 s)
            (tstbit-lt g n2 s)
          ∙ ap (λ x. mul (mul x x) (mul (power f a1 (tstbit n1 s)) (power f a2 (tstbit n2 s)))) e
          ∙ sym (
              ap₂ mul (top_next a1 n1 s) (top_next a2 n2 s)
              ∙ squares (top a1 n1 (suc s)) (power f a1 (tstbit n1 s)) (top a2 n2 (suc s))
                  (power f a2 (tstbit n2 s))))

  start2 :
      (a1 : E) (n1 : ℕ) (a2 : E) (n2 s : ℕ)
      → n1 < 2 ^ s
      → n2 < 2 ^ s
      → set1 ≡ mul (top a1 n1 s) (top a2 n2 s)
  start2 a1 n1 a2 n2 s h1 h2 = sym (ap₂ mul (above a1 n1 s h1) (above a2 n2 s h2) ∙ mul_one set1)

  top_whole : (a : E) (n : ℕ) → top a n 0 ≡ power f a n
  top_whole a n = let whole : n / 2 ^ 0 ≡ n = omega arith in ap (power f a) whole

  fits : (n s : ℕ) → sizeinbase2 n ≤ s → n < 2 ^ s
  fits n s h = omega (arith, sizeinbase2_bound n, two_pow_mono (sizeinbase2 n) s h)

  -- `element_pow2_mpz` computes a1^n1 * a2^n2, for any bases and exponents.
  pub element_pow2_mpz-power :
      (a1 : E) (n1 : ℕ) (a2 : E) (n2 : ℕ)
      → element_pow2_mpz g f a1 n1 a2 n2 ≡ mul (power f a1 n1) (power f a2 n2)
  unfolding element_pow2_mpz power
  element_pow2_mpz-power a1 n1 a2 n2 = elim (Bool-cases (n1 == 0 && n2 == 0)) [
    | inl z ↦ rw z (
        let p : n1 ≡ 0 = ground arith in
        let q : n2 ≡ 0 = ground arith in rw (p, q) (sym (mul_one set1)))
    | inr nz ↦ rw nz (
        pow2_loop-top a1 n1 a2 n2 (larger (sizeinbase2 n1 - 1) (sizeinbase2 n2 - 1) + 1) set1 (
          start2 a1 n1 a2 n2 (larger (sizeinbase2 n1 - 1) (sizeinbase2 n2 - 1) + 1)
            (fits n1 (larger (sizeinbase2 n1 - 1) (sizeinbase2 n2 - 1) + 1) (ground arith))
            (fits n2 (larger (sizeinbase2 n1 - 1) (sizeinbase2 n2 - 1) + 1) (ground arith)))
        ∙ ap₂ mul (top_whole a1 n1) (top_whole a2 n2))
  ]

  pow3_lookup-power :
      (a1 a2 a3 : E) (b1 b2 b3 : ℕ)
      → b1 < 2
      → b2 < 2
      → b3 < 2
      → get_or (pow3_lookup g f a1 a2 a3) (b1 + b2 * 2 + b3 * 4) set1
        ≡ mul (mul (power f a1 b1) (power f a2 b2)) (power f a3 b3)
  unfolding pow3_lookup power
  pow3_lookup-power a1 a2 a3 b1 b2 b3 h1 h2 h3 = elim (bit-cases b1 h1) [
    | inl p ↦ elim (bit-cases b2 h2) [
      | inl q ↦ elim (bit-cases b3 h3) [
        | inl r ↦ rw (p, q, r) (simp mul_one)
        | inr r ↦ rw (p, q, r) (simp (mul_one, one_mul f))
      ]
      | inr q ↦ elim (bit-cases b3 h3) [
        | inl r ↦ rw (p, q, r) (simp (mul_one, one_mul f))
        | inr r ↦ rw (p, q, r) (simp (mul_one, one_mul f))
      ]
    ]
    | inr p ↦ elim (bit-cases b2 h2) [
      | inl q ↦ elim (bit-cases b3 h3) [
        | inl r ↦ rw (p, q, r) (simp mul_one)
        | inr r ↦ rw (p, q, r) (simp mul_one)
      ]
      | inr q ↦ elim (bit-cases b3 h3) [
        | inl r ↦ rw (p, q, r) (simp mul_one)
        | inr r ↦ rw (p, q, r) (simp mul_one (mul_comm (mul a2 a3) a1 ∙ sym (mul_assoc a1 a2 a3)))
      ]
    ]
  ]

  pow3_loop-top :
      (a1 : E) (n1 : ℕ) (a2 : E) (n2 : ℕ) (a3 : E) (n3 s : ℕ) (r : E)
      → r ≡ mul (mul (top a1 n1 s) (top a2 n2 s)) (top a3 n3 s)
      → pow3_loop g f (pow3_lookup g f a1 a2 a3) n1 n2 n3 s r
        ≡ mul (mul (top a1 n1 0) (top a2 n2 0)) (top a3 n3 0)
  unfolding pow3_loop
  pow3_loop-top a1 n1 a2 n2 a3 n3 zero r e = e
  pow3_loop-top a1 n1 a2 n2 a3 n3 (suc s) r e =
      pow3_loop-top a1 n1 a2 n2 a3 n3 s
        (mul (mul r r) (
          get_or (pow3_lookup g f a1 a2 a3) (tstbit n1 s + tstbit n2 s * 2 + tstbit n3 s * 4) set1))
        (ap₂ (λ x y. mul (mul x x) y) e
            (pow3_lookup-power a1 a2 a3 (tstbit n1 s) (tstbit n2 s) (tstbit n3 s) (tstbit-lt g n1 s)
              (tstbit-lt g n2 s) (tstbit-lt g n3 s))
          ∙ sym (
              ap₂ mul both (top_next a3 n3 s)
              ∙ squares (mul (top a1 n1 (suc s)) (top a2 n2 (suc s)))
                  (mul (power f a1 (tstbit n1 s)) (power f a2 (tstbit n2 s))) (top a3 n3 (suc s))
                  (power f a3 (tstbit n3 s))))
    where
      both :
          mul (top a1 n1 s) (top a2 n2 s)
          ≡ mul
              (mul
                (mul (top a1 n1 (suc s)) (top a2 n2 (suc s)))
                (mul (top a1 n1 (suc s)) (top a2 n2 (suc s))))
              (mul (power f a1 (tstbit n1 s)) (power f a2 (tstbit n2 s)))
      both =
          ap₂ mul (top_next a1 n1 s) (top_next a2 n2 s)
          ∙ squares (top a1 n1 (suc s)) (power f a1 (tstbit n1 s)) (top a2 n2 (suc s))
              (power f a2 (tstbit n2 s))

  -- The number of rounds covers the longest exponent.
  rounds3 : ℕ → ℕ → ℕ → ℕ
  rounds3 s1 s2 s3 = (if ltb s2 s1 then larger s1 s3 else larger s2 s3) + 1

  start3 :
      (a1 : E) (n1 : ℕ) (a2 : E) (n2 : ℕ) (a3 : E) (n3 s : ℕ)
      → n1 < 2 ^ s
      → n2 < 2 ^ s
      → n3 < 2 ^ s
      → set1 ≡ mul (mul (top a1 n1 s) (top a2 n2 s)) (top a3 n3 s)
  start3 a1 n1 a2 n2 a3 n3 s h1 h2 h3 =
      start2 a1 n1 a2 n2 s h1 h2
      ∙ sym (
          ap (mul (mul (top a1 n1 s) (top a2 n2 s))) (above a3 n3 s h3)
          ∙ mul_one (mul (top a1 n1 s) (top a2 n2 s)))

  -- `element_pow3_mpz` computes a1^n1 * a2^n2 * a3^n3, for any bases and exponents.
  pub element_pow3_mpz-power :
      (a1 : E) (n1 : ℕ) (a2 : E) (n2 : ℕ) (a3 : E) (n3 : ℕ)
      → element_pow3_mpz g f a1 n1 a2 n2 a3 n3
        ≡ mul (mul (power f a1 n1) (power f a2 n2)) (power f a3 n3)
  unfolding element_pow3_mpz power rounds3
  element_pow3_mpz-power a1 n1 a2 n2 a3 n3 = elim (Bool-cases (n1 == 0 && n2 == 0 && n3 == 0)) [
    | inl z ↦ rw z (
        let p : n1 ≡ 0 = ground arith in
        let q : n2 ≡ 0 = ground arith in
        let r : n3 ≡ 0 = ground arith in rw (p, q, r) (simp mul_one))
    | inr nz ↦ rw nz (
        pow3_loop-top a1 n1 a2 n2 a3 n3 rounds set1 (
          start3 a1 n1 a2 n2 a3 n3 rounds (fits n1 rounds (ground arith))
            (fits n2 rounds (ground arith)) (fits n3 rounds (ground arith)))
        ∙ ap₂ mul (ap₂ mul (top_whole a1 n1) (top_whole a2 n2)) (top_whole a3 n3))
  ]
    where
      rounds : ℕ
      rounds = rounds3 (sizeinbase2 n1 - 1) (sizeinbase2 n2 - 1) (sizeinbase2 n3 - 1)
