-- ===== src/Pbc/Poly/Eval.antt =====
-- The linear operations of arith/poly.c against the values of polynomials.
use dumbo_ms.Prelude.{◌≡◌, refl, sym, ap, ap₂, ◌∙◌, true, Bool-cases, inl, inr, [], ◌∷◌, map}
use dumbo_ms.Pbc.Structure.{Structure}
use dumbo_ms.Pbc.Structure.Ring.{IsRing, ring, mul_zero, zero_add, mul_neg, neg_add, neg_of_add}
use dumbo_ms.Pbc.Structure.Morphism.{IsMorphism, φ_neg, φ_sub, φ_double}
use dumbo_ms.Pbc.Poly.{
  Poly, cons_nonzero, poly_remove_leading_zeroes, add_items, poly_add, sub_items, poly_sub,
  poly_neg, poly_double, poly_const_mul, poly_constant,
}

-- The test for zero accepts only zero.
pub record IsZeroTest {E : Type 0} (o : Structure E) : Type 0 where
  pub is0_zero : (a : E) → o.is0 a ≡ true → a ≡ o.set0
  pub is0_set0 : o.is0 o.set0 ≡ true

-- The value at x, with the coefficients mapped into the ring of x.
abbrev pub eval : {E R : Type 0} → Structure R → (E → R) → R → Poly E → R
eval t φ x [] = t.set0
eval t φ x (c ∷ cs) = t.add (φ c) (t.mul x (eval t φ x cs))

module _ {E R : Type 0} {o : Structure E} {t : Structure R} {φ : E → R} (m : IsMorphism o t φ)
    (x : R) where
  r : IsRing t
  r = m.target

  abbrev value : Poly E → R
  value = eval t φ x

  -- (a + x u) + (b + x v)
  pub sum_step :
      (a b u v : R)
      → t.add (t.add a b) (t.mul x (t.add u v)) ≡ t.add (t.add a (t.mul x u)) (t.add b (t.mul x v))
  sum_step a b u v = simp (ring, r)

  pub eval-add_items : (f g : Poly E) → value (add_items o f g) ≡ t.add (value f) (value g)
  unfolding add_items
  eval-add_items [] g = sym (zero_add r (value g))
  eval-add_items (f ∷ fs) [] = sym (r.add_zero (value (f ∷ fs)))
  eval-add_items (f ∷ fs) (g ∷ gs) =
      ap₂ (λ u v. t.add u (t.mul x v)) (m.φ_add f g) (eval-add_items fs gs)
      ∙ sum_step (φ f) (φ g) (value fs) (value gs)

  neg_zero : t.neg t.set0 ≡ t.set0
  neg_zero = neg_of_add r t.set0 t.set0 (r.add_zero t.set0)

  neg_step : (a u : R) → t.add (t.neg a) (t.mul x (t.neg u)) ≡ t.neg (t.add a (t.mul x u))
  neg_step a u = ap (t.add (t.neg a)) (mul_neg r x u) ∙ sym (neg_add r a (t.mul x u))

  pub eval-neg : (g : Poly E) → value (map o.neg g) ≡ t.neg (value g)
  eval-neg [] = sym neg_zero
  eval-neg (g ∷ gs) =
      ap₂ (λ u v. t.add u (t.mul x v)) (φ_neg m g) (eval-neg gs) ∙ neg_step (φ g) (value gs)

  pub sub_step :
      (a b u v : R)
      → t.add (t.sub a b) (t.mul x (t.sub u v)) ≡ t.sub (t.add a (t.mul x u)) (t.add b (t.mul x v))
  sub_step a b u v =
      ap₂ (λ p q. t.add p (t.mul x q)) (r.sub_lem a b) (r.sub_lem u v)
      ∙ sum_step a (t.neg b) u (t.neg v)
      ∙ ap (t.add (t.add a (t.mul x u))) (neg_step b v)
      ∙ sym (r.sub_lem (t.add a (t.mul x u)) (t.add b (t.mul x v)))

  sub_zero : (a : R) → t.sub a t.set0 ≡ a
  sub_zero a = r.sub_lem a t.set0 ∙ ap (t.add a) neg_zero ∙ r.add_zero a

  pub eval-sub_items : (f g : Poly E) → value (sub_items o f g) ≡ t.sub (value f) (value g)
  unfolding sub_items
  eval-sub_items [] g = eval-neg g ∙ sym (r.sub_lem t.set0 (value g) ∙ zero_add r (t.neg (value g)))
  eval-sub_items (f ∷ fs) [] = sym (sub_zero (value (f ∷ fs)))
  eval-sub_items (f ∷ fs) (g ∷ gs) =
      ap₂ (λ u v. t.add u (t.mul x v)) (φ_sub m f g) (eval-sub_items fs gs)
      ∙ sub_step (φ f) (φ g) (value fs) (value gs)

  double_step :
      (a u : R) → t.add (t.double a) (t.mul x (t.double u)) ≡ t.double (t.add a (t.mul x u))
  double_step a u =
      ap₂ (λ p q. t.add p (t.mul x q)) (r.double_lem a) (r.double_lem u)
      ∙ sum_step a a u u
      ∙ sym (r.double_lem (t.add a (t.mul x u)))

  eval-double : (g : Poly E) → value (map o.double g) ≡ t.double (value g)
  eval-double [] = sym (r.double_lem t.set0 ∙ r.add_zero t.set0)
  eval-double (g ∷ gs) =
      ap₂ (λ u v. t.add u (t.mul x v)) (φ_double m g) (eval-double gs)
      ∙ double_step (φ g) (value gs)

  scale_step : (c a u : R) → t.add (t.mul c a) (t.mul x (t.mul c u)) ≡ t.mul c (t.add a (t.mul x u))
  scale_step c a u = simp (ring, r)

  pub eval-scale : (c : E) (g : Poly E) → value (map (o.mul c) g) ≡ t.mul (φ c) (value g)
  eval-scale c [] = sym (mul_zero r (φ c))
  eval-scale c (g ∷ gs) =
      ap₂ (λ u v. t.add u (t.mul x v)) (m.φ_mul c g) (eval-scale c gs)
      ∙ scale_step (φ c) (φ g) (value gs)

  module _ (z : IsZeroTest o) where
    eval-cons_nonzero : (c : E) (cs : Poly E) → value (cons_nonzero o c cs) ≡ value (c ∷ cs)
    eval-cons_nonzero c [] = elim (Bool-cases (o.is0 c)) [
      | inl h ↦
          rw h
            (sym (ap₂ t.add (ap φ (z.is0_zero c h) ∙ m.φ_set0) (mul_zero r x) ∙ r.add_zero t.set0))
      | inr h ↦ rw h refl
    ]
    eval-cons_nonzero c (d ∷ ds) = refl

    pub eval-strip : (f : Poly E) → value (poly_remove_leading_zeroes o f) ≡ value f
    unfolding poly_remove_leading_zeroes
    eval-strip [] = refl
    eval-strip (c ∷ cs) =
        eval-cons_nonzero c (poly_remove_leading_zeroes o cs)
        ∙ ap (λ u. t.add (φ c) (t.mul x u)) (eval-strip cs)

    -- The linear operations of polynomials are those of their values: at every point x of every
    -- commutative ring into which the coefficients map.
    pub poly_linear-eval :
        (f g : Poly E) (c : E)
        → (value (poly_add o f g) ≡ t.add (value f) (value g))
          × (value (poly_sub o f g) ≡ t.sub (value f) (value g))
          × (value (poly_neg o g) ≡ t.neg (value g))
          × (value (poly_double o g) ≡ t.double (value g))
          × (value (poly_const_mul o c g) ≡ t.mul (φ c) (value g))
          × (value (poly_constant o c) ≡ φ c)
    unfolding poly_add poly_sub poly_neg poly_double poly_const_mul poly_constant
    poly_linear-eval f g c = (
      eval-strip (add_items o f g) ∙ eval-add_items f g,
      eval-strip (sub_items o f g) ∙ eval-sub_items f g,
      eval-neg g,
      eval-double g,
      eval-strip (map (o.mul c) g) ∙ eval-scale c g,
      eval-strip (c ∷ []) ∙ ap (t.add (φ c)) (mul_zero r x) ∙ r.add_zero (φ c),
    )
