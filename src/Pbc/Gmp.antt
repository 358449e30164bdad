-- ===== src/Pbc/Gmp.antt =====
-- The functions of the GMP library that the modelled code calls on its exponents. The library is
-- not part of the repository: its functions are parameters, with what their manual says of them.
-- Exponents are non-negative.
pub mod Model
use dumbo_ms.Prelude.{ℕ, ◌-◌, ◌≤◌, ◌/◌, ◌%◌, ◌^◌, ◌<◌, ◌≡◌}

pub record Gmp : Type 0 where
  -- `mpz_sizeinbase(n, 2)`
  pub sizeinbase2 : ℕ → ℕ
  -- `mpz_tstbit(n, s)`
  pub tstbit : ℕ → ℕ → ℕ
  pub sizeinbase2_pos : (n : ℕ) → 0 < sizeinbase2 n
  pub sizeinbase2_zero : sizeinbase2 0 ≡ 1
  pub sizeinbase2_exact : (n : ℕ) → 0 < n → 2 ^ (sizeinbase2 n - 1) ≤ n
  pub sizeinbase2_bound : (n : ℕ) → n < 2 ^ sizeinbase2 n
  pub tstbit_lem : (n s : ℕ) → tstbit n s ≡ n / 2 ^ s % 2
