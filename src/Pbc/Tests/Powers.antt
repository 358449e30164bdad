-- ===== src/Pbc/Tests/Powers.antt =====
-- Exponentiation of arith/field.c on small inputs.
use dumbo_ms.Prelude.{◌*◌, ◌^◌, ◌≡◌, refl, arith}
use dumbo_ms.Pbc.Gmp.Model.{plain_gmp, bit_length}
use dumbo_ms.Pbc.Field.Model.{w, numbers, roots}
use dumbo_ms.Pbc.Field.Power.{power}
use dumbo_ms.Pbc.Pow.{build_pow_window, element_pow_wind, generic_pow_mpz, optimal_window}
use dumbo_ms.Pbc.Pow.Window.{generic_pow_mpz-power}
use dumbo_ms.Pbc.MultiPow.{element_pow2_mpz, element_pow3_mpz}
use dumbo_ms.Pbc.BaseTable.{default_element_pp_init, default_element_pp_pow}
use dumbo_ms.Pbc.BaseTable.Laws.{pp_pow-power}

-- 3^13 by a window of two bits.
window_runs :
    element_pow_wind plain_gmp numbers 13 2 (build_pow_window plain_gmp numbers 3 2) ≡ 3 ^ 13
unfolding element_pow_wind build_pow_window bit_length
window_runs = refl

-- 5^300 and 2^100, whose lengths choose windows of two bits.
generic_runs : generic_pow_mpz plain_gmp numbers 5 300 ≡ 5 ^ 300
unfolding generic_pow_mpz element_pow_wind build_pow_window optimal_window bit_length
generic_runs = refl

pow2_runs : element_pow2_mpz plain_gmp numbers 3 5 2 9 ≡ 3 ^ 5 * 2 ^ 9
unfolding element_pow2_mpz bit_length
pow2_runs = refl

pow3_runs : element_pow3_mpz plain_gmp numbers 3 5 2 9 7 2 ≡ 3 ^ 5 * 2 ^ 9 * 7 ^ 2
unfolding element_pow3_mpz bit_length
pow3_runs = refl

-- w^70 = w among the cube roots of one, by the table for order 3.
table_runs :
    default_element_pp_pow plain_gmp roots 3 70 (default_element_pp_init plain_gmp roots 3 w) ≡ w
unfolding default_element_pp_pow default_element_pp_init bit_length
table_runs = refl

generic_pow_mpz-power_example : generic_pow_mpz plain_gmp numbers 5 300 ≡ power numbers 5 300
generic_pow_mpz-power_example = generic_pow_mpz-power plain_gmp numbers 5 300

pp_pow-power_example :
    default_element_pp_pow plain_gmp roots 3 70 (default_element_pp_init plain_gmp roots 3 w)
    ≡ power roots w 70
unfolding power
pp_pow-power_example = pp_pow-power plain_gmp roots w 3 70 (omega arith) refl
