-- ===== src/Pbc/Tests/Polynomials.antt =====
-- Polynomials of arith/poly.c over the field of three elements, and modulo a polynomial.
use dumbo_ms.Prelude.{◌≡◌, refl, [], ◌∷◌, some}
use dumbo_ms.Pbc.Mpz.{Sign, minus, naught, plus}
use dumbo_ms.Pbc.Structure.Model.{ternary, ternary-IsRing, ternary-IsField}
use dumbo_ms.Pbc.Structure.Morphism.{IsMorphism, identity-IsMorphism}
use dumbo_ms.Pbc.Poly.{Poly, poly_sub, poly_mul, poly_remove_leading_zeroes, coeff_loop, poly_is0}
use dumbo_ms.Pbc.Poly.Eval.{eval}
use dumbo_ms.Pbc.Poly.Product.{poly_mul-eval}
use dumbo_ms.Pbc.Poly.Divide.{Division, Last, poly_div, poly_gcd, euclid, poly_invert}
use dumbo_ms.Pbc.Poly.Divide.Remainder.{IsDivision, poly_div-IsDivision, field-IsZeroTest}
use dumbo_ms.Pbc.Poly.Divide.Euclid.{IsGcd, poly_gcd-IsGcd}
use dumbo_ms.Pbc.Poly.Divide.Inverse.{poly_invert-inverse}
use dumbo_ms.Pbc.PolyMod.{polymod_mul, init_modulus}
use dumbo_ms.Pbc.PolyMod.Multiply.{polymod_mul-eval}

abbrev same : IsMorphism ternary ternary (λ a. a)
same = identity-IsMorphism ternary-IsRing

abbrev at_minus : Poly Sign → Sign
at_minus = eval ternary (λ a. a) minus

-- x^2 - 1 and x + 1
abbrev square_less : Poly Sign
square_less = minus ∷ naught ∷ plus ∷ []

abbrev next : Poly Sign
next = plus ∷ plus ∷ []

product_run : poly_mul ternary next next ≡ plus ∷ minus ∷ plus ∷ []
unfolding poly_mul coeff_loop poly_remove_leading_zeroes
product_run = refl

quotient_run :
    poly_div ternary square_less next ≡ some (record { quot = minus ∷ plus ∷ []; rem = [] })
unfolding poly_div poly_remove_leading_zeroes
quotient_run = refl

-- x (x + 1) = x + 1 modulo x^2 - 1
modular_run :
    polymod_mul ternary (init_modulus ternary square_less) (naught ∷ plus ∷ []) next ≡ next
unfolding polymod_mul init_modulus
modular_run = refl

poly_mul-eval_example : eval ternary (λ a. a) plus (poly_mul ternary next next) ≡ plus
poly_mul-eval_example = poly_mul-eval same plus (field-IsZeroTest ternary-IsField) next next

poly_div-IsDivision_example :
    (d : Division Sign) × (poly_div ternary square_less next ≡ some d)
    × IsDivision ternary ternary (λ a. a) plus square_less next d
poly_div-IsDivision_example =
    poly_div-IsDivision ternary-IsField same plus square_less plus (plus ∷ []) refl refl

poly_gcd-IsGcd_example :
    (d : Poly Sign) × (poly_gcd ternary square_less next ≡ some d)
    × IsGcd ternary (λ a. a) plus square_less next d
poly_gcd-IsGcd_example =
    poly_gcd-IsGcd ternary-IsField same plus square_less plus (plus ∷ []) refl refl

abbrev inverted : Last Sign
inverted = record { gcd = minus ∷ []; factor = naught ∷ minus ∷ [] }

euclid_run : euclid ternary (naught ∷ plus ∷ []) square_less ≡ some inverted
unfolding euclid poly_remove_leading_zeroes poly_div poly_is0 poly_sub poly_mul
euclid_run = refl

poly_invert-inverse_example :
    (p : Poly Sign) × (poly_invert ternary (naught ∷ plus ∷ []) square_less ≡ some p)
    × (ternary.mul (eval ternary (λ a. a) plus p) plus ≡ plus)
poly_invert-inverse_example =
    poly_invert-inverse ternary-IsField same plus naught (plus ∷ []) square_less inverted refl refl
      refl euclid_run refl

polymod_mul-eval_example :
    eval ternary
      (λ a. a)
      plus
      (polymod_mul ternary (init_modulus ternary square_less) next (naught ∷ minus ∷ []))
    ≡ plus
polymod_mul-eval_example =
    polymod_mul-eval same plus minus (naught ∷ []) next (naught ∷ minus ∷ []) refl refl refl
