-- ===== src/Pbc/Quadratic/Inverse.antt =====
-- The structure that `field_init_quadratic` fills in over a field is a field.
use dumbo_ms.Prelude.{Bool, arith, ◌≡◌, ◌≢◌, inl, inr, true, ◌&&◌, sym, ap, ap₂, ◌∙◌}
use dumbo_ms.Pbc.Structure.{Structure}
use dumbo_ms.Pbc.Structure.Ring.{
  IsRing, ring, add_cancel, neg_mul_add, mul_neg, zero_mul, mul_left_comm,
}
use dumbo_ms.Pbc.Structure.Units.{IsField, zero_or_not, ne_zero_mul, square_of_quotient}
use dumbo_ms.Pbc.Quadratic.{Quad, quad, fq_mul, fq_invert, fq_norm, field_init_quadratic}
use dumbo_ms.Pbc.Quadratic.Semiring.{product, fq_mul-product}
use dumbo_ms.Pbc.Quadratic.Rules.{field_init_quadratic-IsRing}

and_true : (a b : Bool) → (a && b) ≡ true → (a ≡ true) × (b ≡ true)
and_true a b h = ground arith

module _ {E : Type 0} {o : Structure E} (r : IsRing o) (nqr : E) where
  open o use {set0, set1, add, sub, neg, mul, square}

  pub norm_parts : (a : Quad E) → fq_norm o nqr a ≡ add (mul a.x a.x) (neg (mul (mul a.y a.y) nqr))
  unfolding fq_norm
  norm_parts a =
      ap₂ (λ s t. sub s (mul t nqr)) (r.square_lem a.x) (r.square_lem a.y)
      ∙ r.sub_lem (mul a.x a.x) (mul (mul a.y a.y) nqr)

  -- A pair of norm zero has x^2 = nqr y^2.
  norm_zero : (a : Quad E) → fq_norm o nqr a ≡ set0 → mul a.x a.x ≡ mul (mul a.y a.y) nqr
  norm_zero a h =
      add_cancel r (mul a.x a.x) (mul (mul a.y a.y) nqr) (neg (mul (mul a.y a.y) nqr))
        (sym (norm_parts a) ∙ h ∙ sym (r.add_neg (mul (mul a.y a.y) nqr)))

  -- The conjugate times the pair is the norm, here with a factor e.
  product-conjugate :
      (a : Quad E) (e : E)
      → product o nqr a (quad (mul a.x e) (mul a.y (neg e)))
        ≡ quad (mul (add (mul a.x a.x) (neg (mul (mul a.y a.y) nqr))) e) set0
  product-conjugate a e = ap₂ quad (simp (ring, mul_neg, r)) (
      ap₂ add (ap (mul a.x) (mul_neg r a.y e) ∙ mul_neg r a.x (mul a.y e))
        (mul_left_comm r a.y a.x e)
      ∙ neg_mul_add r a.x (mul a.y e))

module _ {E : Type 0} {o : Structure E} (f : IsField o) (nqr : E)
    (non_square : (a : E) → o.mul a a ≢ nqr) where
  open o use {set0, set1, add, sub, neg, mul}

  r : IsRing o
  r = f.is_ring

  norm-ne_zero : (a : Quad E) → a ≢ quad set0 set0 → fq_norm o nqr a ≢ set0
  norm-ne_zero a h e = elim (zero_or_not f a.y) [
    | inl k ↦ elim (zero_or_not f a.x) [
      | inl l ↦ h (ap₂ quad l k)
      | inr l ↦ ne_zero_mul f a.x a.x l l (
          norm_zero r nqr a e
          ∙ ap (λ t. mul (mul t a.y) nqr) k
          ∙ ap (λ t. mul t nqr) (zero_mul r a.y)
          ∙ zero_mul r nqr)
    ]
    | inr k ↦
        non_square (mul a.x (o.invert a.y))
          (square_of_quotient f a.x a.y nqr k (norm_zero r nqr a e))
  ]

  invert-mul :
      (a : Quad E) → a ≢ quad set0 set0 → fq_mul o nqr a (fq_invert o nqr a) ≡ quad set1 set0
  unfolding fq_invert
  invert-mul a h =
      fq_mul-product r nqr a (fq_invert o nqr a)
      ∙ product-conjugate r nqr a (o.invert (fq_norm o nqr a))
      ∙ ap (λ t. quad (mul t (o.invert (fq_norm o nqr a))) set0) (sym (norm_parts r nqr a))
      ∙ ap (λ t. quad t set0) (f.invert_lem (fq_norm o nqr a) (norm-ne_zero a h))

  -- Over a field in which nqr is no square the pairs with the operations of
  -- `field_init_quadratic` are a field: every pair but zero has its inverse.
  pub field_init_quadratic-IsField : IsField (field_init_quadratic o nqr)
  unfolding field_init_quadratic
  field_init_quadratic-IsField = record {
    is_ring = field_init_quadratic-IsRing r nqr;
    one_ne_zero = λ e. f.one_ne_zero (ap (λ t. t.x) e);
    invert_lem = invert-mul;
    is0_zero = λ a h.
        let k = and_true (o.is0 a.x) (o.is0 a.y) h in
        ap₂ quad (f.is0_zero a.x k.0) (f.is0_zero a.y k.1);
    is0_set0 = ap₂ (λ s t. s && t) f.is0_set0 f.is0_set0;
    is1_one = λ a h.
        let k = and_true (o.is1 a.x) (o.is0 a.y) h in
        ap₂ quad (f.is1_one a.x k.0) (f.is0_zero a.y k.1);
    is1_set1 = ap₂ (λ s t. s && t) f.is1_set1 f.is0_set0;
  }
