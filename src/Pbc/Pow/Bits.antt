-- ===== src/Pbc/Pow/Bits.antt =====
-- Reading an exponent bit by bit, or word by word.
use native.Mathlib.Nat.{div-add-mod', div-div-eq-div-mul, pow-suc, div-eq_of_lt, pow-le-pow_right}
use native.Mathlib.Numerals.{add-one}
use dumbo_ms.Prelude.{
  zero, dec_lt, ◌-◌, ap, ◌%◌, ◌==◌, true, false, ℕ, suc, ◌+◌, ◌*◌, ◌/◌, ◌^◌, ◌<◌, ◌≤◌, ◌≡◌, sym,
  arith,
}
use dumbo_ms.Pbc.Gmp.{Gmp}

pub two_pow_suc : (s : ℕ) → 2 ^ suc s ≡ 2 * 2 ^ s
two_pow_suc s = omega (arith, pow-suc 2 s)

pub two_pow_add_one : (s : ℕ) → 2 ^ (s + 1) ≡ 2 * 2 ^ s
two_pow_add_one s = rw add-one (two_pow_suc s)

pub two_pow_mono : (i j : ℕ) → i ≤ j → 2 ^ i ≤ 2 ^ j
two_pow_mono i j h = pow-le-pow_right {n = 2} (omega arith) h

pub two_pow_pos : (s : ℕ) → 0 < 2 ^ s
two_pow_pos s = omega (arith, two_pow_mono 0 s)

pub two_pow_add : (a b k : ℕ) → k ≡ a + b → 2 ^ k ≡ 2 ^ a * 2 ^ b
two_pow_add zero b k e = let whole : k ≡ b = omega arith in rw whole (omega arith)
two_pow_add (suc a) b zero e = absurd (omega arith)
two_pow_add (suc a) b (suc k) e = omega (
  arith,
  two_pow_suc k,
  two_pow_add a b k (omega arith),
  ap (λ (t : ℕ). t * 2 ^ b) (two_pow_suc a),
)

-- A remainder by a product, in two digits.
pub mod_split : (n m k : ℕ) → n % (m * k) ≡ n % m + n / m % k * m
mod_split n m k = omega (
  arith,
  div-add-mod' n (m * k),
  div-add-mod' n m,
  ap (λ (t : ℕ). t * m) (div-add-mod' (n / m) k),
  ap (λ (t : ℕ). t * (m * k)) (div-div-eq-div-mul n m k),
)

halve_shift : (n s : ℕ) → n / 2 ^ suc s ≡ n / 2 ^ s / 2
halve_shift n s = rw pow-suc (sym (div-div-eq-div-mul n (2 ^ s) 2))

module _ (g : Gmp) where
  open g use {tstbit, sizeinbase2, sizeinbase2_bound, tstbit_lem}

  -- One more bit: the part of n above bit s doubles and takes the bit.
  pub next_bit : (n s : ℕ) → n / 2 ^ s ≡ n / 2 ^ suc s * 2 + tstbit n s
  next_bit n s = omega (arith, halve_shift n s, tstbit_lem n s)

  pub tstbit-lt : (n s : ℕ) → tstbit n s < 2
  tstbit-lt n s = omega (arith, tstbit_lem n s)

  pub above_size : (n : ℕ) → n / 2 ^ sizeinbase2 n ≡ 0
  above_size n = div-eq_of_lt (sizeinbase2_bound n)

-- The two values of a bit, by the test that the code makes.
pub bit_clear : (b : ℕ) → (b == 0) ≡ true → b ≡ 0
bit_clear b h = ground arith

pub bit_set : (b : ℕ) → b < 2 → (b == 0) ≡ false → b ≡ 1
bit_set b lt h = ground arith

module _ (g : Gmp) where
  open g use {sizeinbase2, sizeinbase2_pos, sizeinbase2_zero, sizeinbase2_exact, sizeinbase2_bound}

  -- A larger number has at least as many bits.
  pub sizeinbase2_mono : (m n : ℕ) → m ≤ n → sizeinbase2 m ≤ sizeinbase2 n
  sizeinbase2_mono zero n h = omega (arith, sizeinbase2_zero, sizeinbase2_pos n)
  sizeinbase2_mono (suc m) n h = elim (dec_lt (sizeinbase2 n) (sizeinbase2 (suc m))) [
    | yes p ↦ absurd (
        omega (
          arith,
          sizeinbase2_exact (suc m) (omega arith),
          sizeinbase2_bound n,
          two_pow_mono (sizeinbase2 n) (sizeinbase2 (suc m) - 1) (omega arith),
        ))
    | no p ↦ omega arith
  ]
