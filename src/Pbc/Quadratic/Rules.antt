-- ===== src/Pbc/Quadratic/Rules.antt =====
-- The structures that `field_init_quadratic` and `field_init_fi` fill in are commutative rings.
use dumbo_ms.Prelude.{arith, refl, ◌≡◌, sym, ap, ap₂, ◌∙◌}
use dumbo_ms.Pbc.Structure.{Structure}
use dumbo_ms.Pbc.Structure.Ring.{IsRing, sum_times_difference, mul_neg, neg_neg, mul_zero, zero_mul}
use dumbo_ms.Pbc.Mpz.{Sign, opposite}
use dumbo_ms.Pbc.Quadratic.{
  first_nonzero, fq_sign, field_to_quadratic, fq_add, fq_set1, Quad, quad, fq_mul, fq_square,
  fq_invert, fq_norm, fi_mul, fi_square, fi_invert, fi_is_sqr, fi_sqrt, fq_is_sqr, fq_sqrt,
  root_from, fq_neg, field_init_quadratic, field_init_fi,
}
use dumbo_ms.Pbc.Quadratic.Semiring.{
  product, karatsuba, fq_mul-product, times_assoc, times_comm, times_one, times_add,
}

module _ {E : Type 0} {o : Structure E} (r : IsRing o) where
  open o use {set0, set1, add, sub, neg, mul, square}

  neg_one : (a : E) → mul a (neg set1) ≡ neg a
  neg_one a = mul_neg r a set1 ∙ ap neg (r.mul_one a)

  fi_mul-product : (a b : Quad E) → fi_mul o a b ≡ product o (neg set1) a b
  unfolding fi_mul
  fi_mul-product a b =
      ap₂ quad
        (r.sub_lem (mul a.x b.x) (mul a.y b.y)
          ∙ ap (add (mul a.x b.x)) (sym (neg_one (mul a.y b.y))))
        (karatsuba r (neg set1) a.x a.y b.x b.y)

  module _ (nqr : E) where
    fq_square-product : (a : Quad E) → fq_square o nqr a ≡ product o nqr a a
    unfolding fq_square
    fq_square-product a =
        ap₂ quad (ap₂ (λ s t. add s (mul t nqr)) (r.square_lem a.x) (r.square_lem a.y))
          (r.double_lem (mul a.x a.y) ∙ ap (add (mul a.x a.y)) (r.mul_comm a.x a.y))

    -- Over a commutative ring the pairs with the operations of `field_init_quadratic` are one.
    pub field_init_quadratic-IsRing : IsRing (field_init_quadratic o nqr)
    unfolding field_init_quadratic
    field_init_quadratic-IsRing = record {
      add_assoc = λ a b c. ap₂ quad (r.add_assoc a.x b.x c.x) (r.add_assoc a.y b.y c.y);
      add_comm = λ a b. ap₂ quad (r.add_comm a.x b.x) (r.add_comm a.y b.y);
      add_zero = λ a. ap₂ quad (r.add_zero a.x) (r.add_zero a.y);
      add_neg = λ a. ap₂ quad (r.add_neg a.x) (r.add_neg a.y);
      mul_assoc = times_assoc r nqr (fq_mul o nqr) (fq_mul-product r nqr);
      mul_comm = times_comm r nqr (fq_mul o nqr) (fq_mul-product r nqr);
      mul_one = times_one r nqr (fq_mul o nqr) (fq_mul-product r nqr);
      mul_add = times_add r nqr (fq_mul o nqr) (fq_mul-product r nqr);
      sub_lem = λ a b. ap₂ quad (r.sub_lem a.x b.x) (r.sub_lem a.y b.y);
      double_lem = λ a. ap₂ quad (r.double_lem a.x) (r.double_lem a.y);
      square_lem = λ a. fq_square-product a ∙ sym (fq_mul-product r nqr a a);
    }

  fi_square-product : (a : Quad E) → fi_square o a ≡ product o (neg set1) a a
  unfolding fi_square
  fi_square-product a =
      ap₂ quad
        (sum_times_difference r a.x a.y ∙ ap (add (mul a.x a.x)) (sym (neg_one (mul a.y a.y))))
        (ap (add (mul a.x a.y)) (r.mul_comm a.x a.y))

  -- Over a commutative ring the pairs with the operations of `field_init_fi` are one.
  pub field_init_fi-IsRing : IsRing (field_init_fi o)
  unfolding field_init_fi
  field_init_fi-IsRing = record {
    add_assoc = λ a b c. ap₂ quad (r.add_assoc a.x b.x c.x) (r.add_assoc a.y b.y c.y);
    add_comm = λ a b. ap₂ quad (r.add_comm a.x b.x) (r.add_comm a.y b.y);
    add_zero = λ a. ap₂ quad (r.add_zero a.x) (r.add_zero a.y);
    add_neg = λ a. ap₂ quad (r.add_neg a.x) (r.add_neg a.y);
    mul_assoc = times_assoc r (neg set1) (fi_mul o) fi_mul-product;
    mul_comm = times_comm r (neg set1) (fi_mul o) fi_mul-product;
    mul_one = times_one r (neg set1) (fi_mul o) fi_mul-product;
    mul_add = times_add r (neg set1) (fi_mul o) fi_mul-product;
    sub_lem = λ a b. ap₂ quad (r.sub_lem a.x b.x) (r.sub_lem a.y b.y);
    double_lem = λ a. ap₂ quad (r.double_lem a.x) (r.double_lem a.y);
    square_lem = λ a. fi_square-product a ∙ sym (fi_mul-product a a);
  }

  norm_of_i : (a : Quad E) → add (square a.x) (square a.y) ≡ fq_norm o (neg set1) a
  unfolding fq_norm
  norm_of_i a =
      ap (add (square a.x)) (sym (neg_neg r (square a.y)) ∙ ap neg (sym (neg_one (square a.y))))
      ∙ sym (r.sub_lem (square a.x) (mul (square a.y) (neg set1)))

  -- The functions for the root of -1 agree with the general ones at nqr = -1.
  pub fi-fq :
      (a b : Quad E)
      → (fi_mul o a b ≡ fq_mul o (neg set1) a b)
        × (fi_square o a ≡ fq_square o (neg set1) a)
        × (fi_invert o a ≡ fq_invert o (neg set1) a)
        × (fi_is_sqr o a ≡ fq_is_sqr o (neg set1) a)
        × (fi_sqrt o a ≡ fq_sqrt o (neg set1) a)
  unfolding fi_invert fq_invert fi_is_sqr fq_is_sqr fi_sqrt fq_sqrt
  fi-fq a b = (
    fi_mul-product a b ∙ sym (fq_mul-product r (neg set1) a b),
    fi_square-product a ∙ sym (fq_square-product (neg set1) a),
    ap (λ t. quad (mul a.x (o.invert t)) (mul a.y (neg (o.invert t)))) (norm_of_i a),
    ap o.is_sqr (norm_of_i a),
    ap (λ t. root_from o (o.sqrt t) a) (norm_of_i a),
  )

-- The map of a commutative ring into its extension respects sums, products and one.
pub field_to_quadratic-morphism :
    {E : Type 0} {o : Structure E}
    → IsRing o
    → (nqr a b : E)
    → (field_to_quadratic o (o.add a b)
        ≡ fq_add o (field_to_quadratic o a) (field_to_quadratic o b))
      × (field_to_quadratic o (o.mul a b)
          ≡ fq_mul o nqr (field_to_quadratic o a) (field_to_quadratic o b))
      × (field_to_quadratic o o.set1 ≡ fq_set1 o)
unfolding field_to_quadratic fq_add fq_set1
field_to_quadratic-morphism {o = o} r nqr a b = (
  ap (quad (o.add a b)) (sym (r.add_zero o.set0)),
  sym (
      fq_mul-product r nqr (quad a o.set0) (quad b o.set0)
      ∙ ap₂ quad
          (ap (λ t. o.add (o.mul a b) (o.mul t nqr)) (mul_zero r o.set0)
            ∙ ap (o.add (o.mul a b)) (zero_mul r nqr)
            ∙ r.add_zero (o.mul a b))
          (ap₂ o.add (mul_zero r a) (zero_mul r b) ∙ r.add_zero o.set0)),
  refl,
)

first_nonzero-opposite :
    (s t : Sign) → first_nonzero (opposite s) (opposite t) ≡ opposite (first_nonzero s t)
first_nonzero-opposite s t = ground arith

-- Where the signs of the base turn round under negation, those of the pairs do.
pub fq_sign-neg :
    {E : Type 0} (o : Structure E)
    → ((a : E) → o.sign (o.neg a) ≡ opposite (o.sign a))
    → (e : Quad E) → fq_sign o (fq_neg o e) ≡ opposite (fq_sign o e)
unfolding fq_sign fq_neg
fq_sign-neg o h e =
    ap₂ first_nonzero (h e.x) (h e.y) ∙ first_nonzero-opposite (o.sign e.x) (o.sign e.y)
