-- ===== src/Pbc/Quadratic/Semiring.antt =====
-- Products of pairs in the form that has no difference in it, and the laws of that form.
use dumbo_ms.Prelude.{◌≡◌, sym, ap, ap₂, ◌∙◌}
use dumbo_ms.Pbc.Structure.{Structure}
use dumbo_ms.Pbc.Structure.Ring.{IsRing, ring, sub_of_add, mul_zero, zero_mul, zero_add}
use dumbo_ms.Pbc.Quadratic.{Quad, quad, fq_mul}

-- (x + ya)(x' + y'a) with a^2 = nqr.
abbrev pub product : {E : Type 0} → Structure E → E → Quad E → Quad E → Quad E
product o nqr a b =
    quad (o.add (o.mul a.x b.x) (o.mul (o.mul a.y b.y) nqr)) (o.add (o.mul a.x b.y) (o.mul a.y b.x))

module _ {E : Type 0} {o : Structure E} (r : IsRing o) (nqr : E) where
  open o use {set0, set1, add, sub, neg, mul}

  -- The middle of Karatsuba's product.
  pub karatsuba :
      (a b c d : E)
      → sub (sub (mul (add a b) (add c d)) (mul a c)) (mul b d) ≡ add (mul a d) (mul b c)
  karatsuba a b c d =
      sub_of_add r (add (mul a d) (mul b c)) (mul b d) (sub (mul (add a b) (add c d)) (mul a c)) (
        sym (
          sub_of_add r (add (add (mul a d) (mul b c)) (mul b d)) (mul a c) (mul (add a b) (add c d))
            (simp (ring, r))))

  pub fq_mul-product : (a b : Quad E) → fq_mul o nqr a b ≡ product o nqr a b
  unfolding fq_mul
  fq_mul-product a b =
      ap₂ quad (r.add_comm (mul (mul a.y b.y) nqr) (mul a.x b.x)) (karatsuba a.x a.y b.x b.y)

  pub product_assoc :
      (a b c : Quad E) → product o nqr (product o nqr a b) c ≡ product o nqr a (product o nqr b c)
  product_assoc a b c = ap₂ quad (simp (ring, r)) (simp (ring, r))

  pub product_comm : (a b : Quad E) → product o nqr a b ≡ product o nqr b a
  product_comm a b = ap₂ quad (simp (ring, r)) (simp (ring, r))

  product-one : (a : Quad E) → product o nqr a (quad set1 set0) ≡ a
  product-one a =
      ap₂ quad
        (ap₂ add (r.mul_one a.x) (ap (λ t. mul t nqr) (mul_zero r a.y) ∙ zero_mul r nqr)
          ∙ r.add_zero a.x)
        (ap₂ add (mul_zero r a.x) (r.mul_one a.y) ∙ zero_add r a.y)

  product-add :
      (a b c : Quad E)
      → product o nqr a (quad (add b.x c.x) (add b.y c.y))
        ≡ quad
            (add (product o nqr a b).x (product o nqr a c).x)
            (add (product o nqr a b).y (product o nqr a c).y)
  product-add a b c = ap₂ quad (simp (ring, r)) (simp (ring, r))

  -- The laws for any function with the values of `product`.
  module _ (times : Quad E → Quad E → Quad E)
      (times_lem : (a b : Quad E) → times a b ≡ product o nqr a b) where
    pub times_assoc : (a b c : Quad E) → times (times a b) c ≡ times a (times b c)
    times_assoc a b c =
        ap (λ t. times t c) (times_lem a b)
        ∙ times_lem (product o nqr a b) c
        ∙ product_assoc a b c
        ∙ sym (times_lem a (product o nqr b c))
        ∙ ap (times a) (sym (times_lem b c))

    pub times_comm : (a b : Quad E) → times a b ≡ times b a
    times_comm a b = times_lem a b ∙ product_comm a b ∙ sym (times_lem b a)

    pub times_one : (a : Quad E) → times a (quad set1 set0) ≡ a
    times_one a = times_lem a (quad set1 set0) ∙ product-one a

    pub times_add :
        (a b c : Quad E)
        → times a (quad (add b.x c.x) (add b.y c.y))
          ≡ quad (add (times a b).x (times a c).x) (add (times a b).y (times a c).y)
    times_add a b c =
        times_lem a (quad (add b.x c.x) (add b.y c.y))
        ∙ product-add a b c
        ∙ ap₂ (λ s t. quad (add s.x t.x) (add s.y t.y)) (sym (times_lem a b)) (sym (times_lem a c))
