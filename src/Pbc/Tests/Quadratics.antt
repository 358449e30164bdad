-- ===== src/Pbc/Tests/Quadratics.antt =====
-- The quadratic extensions of arith/fieldquadratic.c over the field of three elements.
use dumbo_ms.Prelude.{◌≡◌, ◌≢◌, refl, true, [], ◌∷◌}
use dumbo_ms.Pbc.Mpz.{Sign, minus, naught, plus}
use dumbo_ms.Pbc.Mpz.Model.{mul}
use dumbo_ms.Pbc.Structure.Units.{IsField}
use dumbo_ms.Pbc.Structure.Model.{ternary, ternary-IsField, ternary-HasRoots, one_not_naught}
use dumbo_ms.Pbc.Quadratic.{
  Quad, quad, fq_mul, fq_is_sqr, fq_sqrt, fq_to_bytes, fi_invert, field_init_quadratic,
}
use dumbo_ms.Pbc.Quadratic.Inverse.{field_init_quadratic-IsField}
use dumbo_ms.Pbc.Quadratic.Root.{fq_sqrt-square}

-- 1 + i
abbrev one_i : Quad Sign
one_i = quad plus plus

-- (1 + i)(1 - i) = 2
mul_runs : fq_mul ternary minus one_i (quad plus minus) ≡ quad minus naught
unfolding fq_mul
mul_runs = refl

invert_runs : fi_invert ternary one_i ≡ quad minus plus
unfolding fi_invert
invert_runs = refl

bytes_run : fq_to_bytes ternary (quad minus plus) ≡ 2 ∷ 1 ∷ []
unfolding fq_to_bytes
bytes_run = refl

-- (1 - i)^2 = i
sqrt_runs : fq_sqrt ternary minus (quad naught plus) ≡ quad plus minus
unfolding fq_sqrt
sqrt_runs = refl

non_square : (a : Sign) → mul a a ≢ minus
non_square minus e = cc
non_square naught e = cc
non_square plus e = cc

field_init_quadratic-IsField_example : IsField (field_init_quadratic ternary minus)
field_init_quadratic-IsField_example = field_init_quadratic-IsField ternary-IsField minus non_square

i-is_sqr : fq_is_sqr ternary minus (quad naught plus) ≡ true
unfolding fq_is_sqr
i-is_sqr = refl

fq_sqrt-square_example :
    fq_mul ternary minus
      (fq_sqrt ternary minus (quad naught plus))
      (fq_sqrt ternary minus (quad naught plus))
    ≡ quad naught plus
fq_sqrt-square_example =
    fq_sqrt-square ternary-HasRoots minus (quad naught plus) refl one_not_naught i-is_sqr
