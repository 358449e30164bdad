-- ===== src/Pbc/Tests/Multinomials.antt =====
-- The multinomials of arith/multiz.c on small inputs, with coefficients modulo 3.
use dumbo_ms.Prelude.{ℕ, ◌≡◌, refl, some}
use dumbo_ms.Pbc.Mpz.{minus, naught, plus}
use dumbo_ms.Pbc.Mpz.Model.{Residue, modulo_3}
use dumbo_ms.Pbc.Multiz.{
  Multiz, num, arr, nil, cons, multiz_new_add, multiz_new_sub, first, bin, bin_left, bin_right,
  clone, unary, update_first, rest_left,
}
use dumbo_ms.Pbc.Multiz.Eval.{Proper}

-- 1 - x
abbrev linear : Multiz Residue
linear = arr (cons (num plus) (cons (num minus) nil))

-- (1 + y) + x - x^2
abbrev nested : Multiz Residue
nested =
    arr
      (cons (arr (cons (num plus) (cons (num plus) nil))) (cons (num plus) (cons (num minus) nil)))

abbrev ones : ℕ → Residue
ones d = plus

add_runs :
    multiz_new_add modulo_3 linear nested
    ≡ arr (
        cons
          (arr (cons (num minus) (cons (num plus) nil)))
          (cons (num naught) (cons (num minus) nil)))
unfolding multiz_new_add bin bin_left clone unary update_first rest_left
add_runs = refl

-- The list 1 - x less 1 comes out as 0 - x, and 1 less the list as the same.
sub_runs : multiz_new_sub modulo_3 linear (num plus) ≡ multiz_new_sub modulo_3 (num plus) linear
unfolding multiz_new_sub bin bin_left bin_right clone unary update_first
sub_runs = refl

linear-Proper : Proper linear
unfolding Proper
linear-Proper = (tt, (tt, (tt, tt)))

nested-Proper : Proper nested
unfolding Proper
nested-Proper = (tt, ((tt, (tt, (tt, tt))), (tt, (tt, tt))))

first-linear : first linear ≡ some plus
unfolding first
first-linear = refl
