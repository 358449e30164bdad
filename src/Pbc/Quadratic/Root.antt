-- ===== src/Pbc/Quadratic/Root.antt =====
-- Square roots of pairs, arith/fieldquadratic.c.
use dumbo_ms.Prelude.{◌≡◌, ◌≢◌, inl, inr, true, false, Bool-cases, sym, ap, ap₂, ◌∙◌}
use dumbo_ms.Pbc.Structure.{Structure, two}
use dumbo_ms.Pbc.Structure.Ring.{IsRing, ring, add_mul, one_mul, zero_mul, difference_twice}
use dumbo_ms.Pbc.Structure.Units.{IsField, ne_zero_mul, square_of_quotient}
use dumbo_ms.Pbc.Structure.Halves.{half_difference, sum_of_halves, product_of_halves}
use dumbo_ms.Pbc.Structure.Roots.{HasRoots, quotient_of_product, half-ne_zero, double-ne_zero}
use dumbo_ms.Pbc.Quadratic.{Quad, quad, fq_mul, fq_norm, fq_is_sqr, fq_sqrt, root_from}
use dumbo_ms.Pbc.Quadratic.Semiring.{fq_mul-product}
use dumbo_ms.Pbc.Quadratic.Inverse.{norm_parts}

module _ {E : Type 0} {o : Structure E} (roots : HasRoots o) (nqr : E) where
  open o use {set0, set1, add, sub, neg, mul, invert, is_sqr}

  f : IsField o
  f = roots.is_field

  r : IsRing o
  r = f.is_ring

  abbrev pub h : E
  h = invert (o.set_si two)

  pub half : add h h ≡ set1
  half =
      sym (
        ap (λ t. mul t (invert (o.set_si two))) roots.set_two
        ∙ add_mul r set1 set1 (invert (o.set_si two))
        ∙ ap₂ add (one_mul r (invert (o.set_si two))) (one_mul r (invert (o.set_si two))))
      ∙ f.invert_lem (o.set_si two) roots.two_ne_zero

  -- y^2 nqr
  abbrev pub part : Quad E → E
  part e = mul (mul e.y e.y) nqr

  real_part : (y i : E) → mul (mul (mul y i) (mul y i)) nqr ≡ mul (mul (mul y y) nqr) (mul i i)
  real_part y i = simp (ring, r)

  other_part : (s y i : E) → add (mul s (mul y i)) (mul (mul y i) s) ≡ mul y (mul (add s s) i)
  other_part s y i = simp (ring, r)

  -- With e1 + e2 = x and e1 e2 = y^2 nqr / 4, a root s of e1 gives the root s + (y / 2s)a.
  root_of_parts :
      (e : Quad E) (s e2 : E)
      → s ≢ set0
      → add (mul s s) e2 ≡ e.x
      → mul (mul s s) e2 ≡ mul (part e) (mul h h)
      → fq_mul o nqr (quad s (mul e.y (invert (add s s)))) (quad s (mul e.y (invert (add s s)))) ≡ e
  root_of_parts e s e2 n sum prod =
      fq_mul-product r nqr (quad s (mul e.y i)) (quad s (mul e.y i))
      ∙ ap₂ quad
          (ap (add (mul s s))
              (real_part e.y i ∙ sym (quotient_of_product f h half s e2 (part e) n prod))
            ∙ sum)
          (other_part s e.y i
            ∙ ap (mul e.y) (f.invert_lem (add s s) (double-ne_zero f h half s n))
            ∙ r.mul_one e.y)
    where
      i : E
      i = invert (add s s)

  -- The product of the two halves, for A^2 the norm.
  pub parts_product :
      (e : Quad E) (a : E)
      → mul a a ≡ fq_norm o nqr e
      → mul (mul (add e.x a) h) (mul (sub e.x a) h) ≡ mul (part e) (mul h h)
  parts_product e a k =
      product_of_halves r h half e.x a
      ∙ ap (λ t. mul (add (mul e.x e.x) (neg t)) (mul h h)) (k ∙ norm_parts r nqr e)
      ∙ ap (λ t. mul t (mul h h)) (difference_twice r (mul e.x e.x) (part e))

  pub zero_is_sqr : is_sqr set0 ≡ true
  zero_is_sqr = ap is_sqr (sym (zero_mul r set0)) ∙ roots.square_is_sqr set0

  pub nqr-ne_zero : is_sqr nqr ≡ false → nqr ≢ set0
  nqr-ne_zero n e = let k : is_sqr nqr ≡ true = ap is_sqr e ∙ zero_is_sqr in cc

  scaled : (y : E) → mul (mul (mul y y) nqr) (mul h h) ≡ mul (mul (mul y h) (mul y h)) nqr
  scaled y = simp (ring, r)

  -- If the product of two elements is y^2 nqr / 4, one of them is a square.
  one_is_sqr :
      (e : Quad E) (p q : E)
      → is_sqr nqr ≡ false
      → e.y ≢ set0
      → mul p q ≡ mul (part e) (mul h h)
      → is_sqr p ≡ false
      → is_sqr q ≡ true
  one_is_sqr e p q n k prod np = elim (Bool-cases (is_sqr q)) [
    | inl t ↦ t
    | inr t ↦
        let g : is_sqr nqr ≡ true =
          ap is_sqr (
            sym (
              square_of_quotient f (o.sqrt (mul p q)) (mul e.y h) nqr
                (ne_zero_mul f e.y h k (half-ne_zero f h half))
                (roots.sqrt_lem (mul p q) (roots.non_squares p q np t) ∙ prod ∙ scaled e.y)))
          ∙ roots.square_is_sqr (mul (o.sqrt (mul p q)) (invert (mul e.y h))) in
        cc
  ]

  -- From the halves in either order.
  root_of_half :
      (e : Quad E) (p q : E)
      → is_sqr nqr ≡ false
      → e.y ≢ set0
      → add p q ≡ e.x
      → mul p q ≡ mul (part e) (mul h h)
      → is_sqr p ≡ true
      → fq_mul o nqr
          (quad (o.sqrt p) (mul e.y (invert (add (o.sqrt p) (o.sqrt p)))))
          (quad (o.sqrt p) (mul e.y (invert (add (o.sqrt p) (o.sqrt p)))))
        ≡ e
  root_of_half e p q n k sum prod sq =
      root_of_parts e (o.sqrt p) q nonzero (ap (λ t. add t q) root ∙ sum)
        (ap (λ t. mul t q) root ∙ prod)
    where
      root : mul (o.sqrt p) (o.sqrt p) ≡ p
      root = roots.sqrt_lem p sq

      product_nonzero : mul p q ≢ set0
      product_nonzero z =
          ne_zero_mul f (part e) (mul h h)
            (ne_zero_mul f (mul e.y e.y) nqr (ne_zero_mul f e.y e.y k k) (nqr-ne_zero n))
            (ne_zero_mul f h h (half-ne_zero f h half) (half-ne_zero f h half)) (sym prod ∙ z)

      nonzero : o.sqrt p ≢ set0
      nonzero z = product_nonzero (
          ap (λ t. mul t q) (sym root ∙ ap (λ t. mul t (o.sqrt p)) z ∙ zero_mul r (o.sqrt p))
          ∙ zero_mul r q)

  -- Over a field with square roots in which nqr is no square: where `fq_is_sqr` accepts a pair
  -- whose second part is not zero, `fq_sqrt` returns a pair with that square.
  pub fq_sqrt-square :
      (e : Quad E)
      → is_sqr nqr ≡ false
      → e.y ≢ set0
      → fq_is_sqr o nqr e ≡ true
      → fq_mul o nqr (fq_sqrt o nqr e) (fq_sqrt o nqr e) ≡ e
  unfolding fq_sqrt root_from fq_is_sqr
  fq_sqrt-square e n k sq = elim (Bool-cases (is_sqr p)) [
    | inl t ↦ rw t (root_of_half e p q n k (sum_of_halves r h half e.x a) prod t)
    | inr t ↦
        rw (t, half_difference r h half e.x a)
          (root_of_half e q p n k (r.add_comm q p ∙ sum_of_halves r h half e.x a)
            (r.mul_comm q p ∙ prod) (one_is_sqr e p q n k prod t))
  ]
    where
      a : E
      a = o.sqrt (fq_norm o nqr e)

      p : E
      p = mul (add e.x a) h

      q : E
      q = mul (sub e.x a) h

      prod : mul p q ≡ mul (part e) (mul h h)
      prod = parts_product e a (roots.sqrt_lem (fq_norm o nqr e) sq)
