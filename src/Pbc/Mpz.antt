-- ===== src/Pbc/Mpz.antt =====
-- Integer arithmetic of the GMP library, which is not part of the repository: the functions that
-- arith/multiz.c calls are parameters, with the laws of integers that the manual promises.
pub mod Sums
pub mod Model
use dumbo_ms.Prelude.{◌≡◌}

-- A sign, as `mpz_sgn` and `mpz_cmp` return it.
pub data Sign : Type 0 where
  minus naught plus : Sign

abbrev pub opposite : Sign → Sign
opposite minus = plus
opposite naught = naught
opposite plus = minus

pub record Mpz {ℓ} (Z : Type ℓ) : Type ℓ where
  pub zero_z : Z
  pub one_z : Z
  pub mpz_add : Z → Z → Z
  pub mpz_sub : Z → Z → Z
  pub mpz_mul : Z → Z → Z
  pub mpz_neg : Z → Z
  pub mpz_sgn : Z → Sign
  pub mpz_cmp : Z → Z → Sign
  pub add_assoc : (a b c : Z) → mpz_add (mpz_add a b) c ≡ mpz_add a (mpz_add b c)
  pub add_comm : (a b : Z) → mpz_add a b ≡ mpz_add b a
  pub add_zero : (a : Z) → mpz_add a zero_z ≡ a
  pub add_neg : (a : Z) → mpz_add a (mpz_neg a) ≡ zero_z
  pub sub_lem : (a b : Z) → mpz_sub a b ≡ mpz_add a (mpz_neg b)
  pub mul_assoc : (a b c : Z) → mpz_mul (mpz_mul a b) c ≡ mpz_mul a (mpz_mul b c)
  pub mul_comm : (a b : Z) → mpz_mul a b ≡ mpz_mul b a
  pub mul_add : (a b c : Z) → mpz_mul a (mpz_add b c) ≡ mpz_add (mpz_mul a b) (mpz_mul a c)
  pub cmp_opposite : (a b : Z) → mpz_cmp b a ≡ opposite (mpz_cmp a b)
