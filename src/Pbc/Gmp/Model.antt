-- ===== src/Pbc/Gmp/Model.antt =====
-- Functions that behave as the GMP manual says, so that the interface can be met.
use native.Mathlib.Nat.{pow-suc}
use dumbo_ms.Prelude.{
  ℕ, zero, suc, ◌-◌, ◌*◌, ◌/◌, ◌%◌, ◌^◌, ◌<◌, ◌≤◌, ◌≡◌, refl, ap, ◌∙◌, inl, inr, Bool-cases, arith,
  ltb, if◌then◌else◌,
}
use dumbo_ms.Pbc.Gmp.{Gmp}

pub bit_length_fuel : ℕ → ℕ → ℕ
bit_length_fuel zero n = 1
bit_length_fuel (suc fuel) n =
    let longer = bit_length_fuel fuel (n / 2) in if ltb n 2 then 1 else suc longer

unfoldable pub bit_length : ℕ → ℕ
unfolding bit_length_fuel
bit_length n = bit_length_fuel n n

fuel_pos : (fuel n : ℕ) → 0 < bit_length_fuel fuel n
unfolding bit_length_fuel
fuel_pos zero n = omega arith
fuel_pos (suc fuel) n = ground arith

fuel_bound : (fuel n : ℕ) → n ≤ fuel → n < 2 ^ bit_length_fuel fuel n
unfolding bit_length_fuel
fuel_bound zero n h = omega arith
fuel_bound (suc fuel) n h =
    ground (arith, fuel_bound fuel (n / 2), pow-suc 2 (bit_length_fuel fuel (n / 2)))

doubled : (b : ℕ) → 0 < b → 2 ^ (suc b - 1) ≡ 2 * 2 ^ (b - 1)
doubled b h =
    let less : suc b - 1 ≡ suc (b - 1) = omega arith in
    ap (λ t. 2 ^ t) less ∙ omega (arith, pow-suc 2 (b - 1))

fuel_exact : (fuel n : ℕ) → n ≤ fuel → 0 < n → 2 ^ (bit_length_fuel fuel n - 1) ≤ n
unfolding bit_length_fuel
fuel_exact zero n h k = absurd (omega arith)
fuel_exact (suc fuel) n h k = elim (Bool-cases (ltb n 2)) [
  | inl p ↦ rw p (omega arith)
  | inr p ↦ rw p (
      let more : 2 ≤ n = ground arith in
      omega (
        arith,
        doubled (bit_length_fuel fuel (n / 2)) (fuel_pos fuel (n / 2)),
        fuel_exact fuel (n / 2) (omega arith) (omega arith),
      ))
]

pub bit_length_pos : (n : ℕ) → 0 < bit_length n
unfolding bit_length
bit_length_pos n = fuel_pos n n

pub bit_length_bound : (n : ℕ) → n < 2 ^ bit_length n
unfolding bit_length
bit_length_bound n = fuel_bound n n (omega arith)

pub bit_length_exact : (n : ℕ) → 0 < n → 2 ^ (bit_length n - 1) ≤ n
unfolding bit_length
bit_length_exact n h = fuel_exact n n (omega arith) h

pub bit_length_zero : bit_length 0 ≡ 1
unfolding bit_length
bit_length_zero = refl

abbrev pub plain_gmp : Gmp
plain_gmp = record {
  sizeinbase2 = bit_length;
  tstbit = λ n s. n / 2 ^ s % 2;
  sizeinbase2_pos = bit_length_pos;
  sizeinbase2_zero = bit_length_zero;
  sizeinbase2_exact = bit_length_exact;
  sizeinbase2_bound = bit_length_bound;
  tstbit_lem = λ n s. refl;
}
