-- ===== src/Pbc/Structure/Roots.antt =====
-- What `sqrt` and `is_sqr` promise over a finite field of odd order.
use dumbo_ms.Prelude.{◌≡◌, ◌≢◌, true, false, sym, ap, ap₂, ◌∙◌}
use dumbo_ms.Pbc.Structure.{Structure, two}
use dumbo_ms.Pbc.Structure.Ring.{IsRing, ring, add_mul, one_mul, zero_mul}
use dumbo_ms.Pbc.Structure.Units.{IsField}
use dumbo_ms.Pbc.Structure.Halves.{whole}

pub record HasRoots {E : Type 0} (o : Structure E) : Type 0 where
  pub is_field : IsField o
  pub set_two : o.set_si two ≡ o.add o.set1 o.set1
  pub two_ne_zero : o.set_si two ≢ o.set0
  pub sqrt_lem : (a : E) → o.is_sqr a ≡ true → o.mul (o.sqrt a) (o.sqrt a) ≡ a
  pub square_is_sqr : (a : E) → o.is_sqr (o.mul a a) ≡ true
  -- The product of two non-squares is a square.
  pub non_squares :
      (a b : E) → o.is_sqr a ≡ false → o.is_sqr b ≡ false → o.is_sqr (o.mul a b) ≡ true

module _ {E : Type 0} {o : Structure E} (f : IsField o) (h : E) (half : o.add h h ≡ o.set1) where
  open o use {set0, set1, add, mul, invert}

  r : IsRing o
  r = f.is_ring

  double_half : (s : E) → mul (add s s) h ≡ s
  double_half s = add_mul r s s h ∙ whole r h half s

  pub double-ne_zero : (s : E) → s ≢ set0 → add s s ≢ set0
  double-ne_zero s k e = k (sym (double_half s) ∙ ap (λ t. mul t h) e ∙ zero_mul r h)

  half_two : mul h (add set1 set1) ≡ set1
  half_two = r.mul_add h set1 set1 ∙ ap₂ add (r.mul_one h) (r.mul_one h) ∙ half

  pub half-ne_zero : h ≢ set0
  half-ne_zero e =
      f.one_ne_zero (sym half_two ∙ ap (λ t. mul t (add set1 set1)) e ∙ zero_mul r (add set1 set1))

  -- (d i)^2 (h t)^2 b = ((d h)^2 b) (t i)^2, whatever d, i, h and t are.
  regroup :
      (d i t b : E)
      → mul (mul (mul d i) (mul d i)) (mul (mul (mul h t) (mul h t)) b)
        ≡ mul (mul (mul (mul d h) (mul d h)) b) (mul (mul t t) (mul i i))
  regroup d i t b = simp (ring, r)

  regroup_back :
      (k i t : E)
      → mul (mul k (mul h h)) (mul (mul t t) (mul i i))
        ≡ mul (mul (mul h t) (mul h t)) (mul k (mul i i))
  regroup_back k i t = simp (ring, r)

  ones : (u b : E) → u ≡ set1 → mul (mul u u) b ≡ b
  ones u b e = ap (λ t. mul (mul t t) b) e ∙ ap (λ t. mul t b) (r.mul_one set1) ∙ one_mul r b

  -- Where s^2 b = k/4, b is k divided by (2s)^2.
  pub quotient_of_product :
      (s b k : E)
      → s ≢ set0
      → mul (mul s s) b ≡ mul k (mul h h)
      → b ≡ mul k (mul (invert (add s s)) (invert (add s s)))
  quotient_of_product s b k n e =
      sym (
        ones (mul d i) (mul (mul (mul h t) (mul h t)) b) (f.invert_lem d (double-ne_zero s n))
        ∙ ones (mul h t) b half_two)
      ∙ regroup d i t b
      ∙ ap (λ z. mul (mul (mul z z) b) (mul (mul t t) (mul i i))) (double_half s)
      ∙ ap (λ z. mul z (mul (mul t t) (mul i i))) e
      ∙ regroup_back k i t
      ∙ ones (mul h t) (mul k (mul i i)) half_two
    where
      d : E
      d = add s s

      i : E
      i = invert d

      t : E
      t = add set1 set1
