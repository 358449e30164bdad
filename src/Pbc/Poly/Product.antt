-- ===== src/Pbc/Poly/Product.antt =====
-- The product of arith/poly.c, which sums up each coefficient in a loop.
use dumbo_ms.Prelude.{
  ℕ, zero, suc, ◌+◌, ◌-◌, ◌≤◌, arith, ◌≡◌, refl, sym, ap, ap₂, ◌∙◌, [], ◌∷◌, length, get_elem?,
  Option, none, some,
}
use dumbo_ms.Pbc.Structure.{Structure}
use dumbo_ms.Pbc.Structure.Ring.{IsRing, ring, mul_zero, zero_mul, zero_add}
use dumbo_ms.Pbc.Structure.Morphism.{IsMorphism}
use dumbo_ms.Pbc.Poly.{Poly, add_term, coeff_loop, items_of, poly_mul}
use dumbo_ms.Pbc.Poly.Eval.{IsZeroTest, eval, eval-strip}

module _ {E R : Type 0} {o : Structure E} {t : Structure R} {φ : E → R} (m : IsMorphism o t φ)
    (x : R) where
  r : IsRing t
  r = m.target

  abbrev value : Poly E → R
  value = eval t φ x

  -- h 0 + x (h 1 + x (..)), n terms.
  abbrev series : (ℕ → R) → ℕ → R
  series h zero = t.set0
  series h (suc n) = t.add (h 0) (t.mul x (series (λ i. h (suc i)) n))

  series-ext : (h k : ℕ → R) (n : ℕ) → ((i : ℕ) → h i ≡ k i) → series h n ≡ series k n
  series-ext h k zero e = refl
  series-ext h k (suc n) e =
      ap₂ (λ u v. t.add u (t.mul x v)) (e 0)
        (series-ext (λ i. h (suc i)) (λ i. k (suc i)) n (λ i. e (suc i)))

  add_step :
      (a b u v : R)
      → t.add (t.add a b) (t.mul x (t.add u v)) ≡ t.add (t.add a (t.mul x u)) (t.add b (t.mul x v))
  add_step a b u v = simp (ring, r)

  series-add :
      (h k : ℕ → R) (n : ℕ) → series (λ i. t.add (h i) (k i)) n ≡ t.add (series h n) (series k n)
  series-add h k zero = sym (r.add_zero t.set0)
  series-add h k (suc n) =
      ap (λ u. t.add (t.add (h 0) (k 0)) (t.mul x u))
        (series-add (λ i. h (suc i)) (λ i. k (suc i)) n)
      ∙ add_step (h 0) (k 0) (series (λ i. h (suc i)) n) (series (λ i. k (suc i)) n)

  -- The coefficient that the loop computes, as a sum from the right.
  abbrev entry : Poly E → ℕ → R
  entry g i = elim (get_elem? g i) [ none ↦ t.set0 | some d ↦ φ d ]

  abbrev coeff : Poly E → Poly E → ℕ → R
  coeff [] g i = t.set0
  coeff (c ∷ cs) g zero = t.mul (φ c) (entry g 0)
  coeff (c ∷ cs) g (suc i) = t.add (t.mul (φ c) (entry g (suc i))) (coeff cs g i)

  add_term-value :
      (c y : E) (d : Option E)
      → φ (add_term o c y d) ≡ t.add (φ y) (t.mul (φ c) (elim d [ none ↦ t.set0 | some e ↦ φ e ]))
  add_term-value c y none = sym (ap (t.add (φ y)) (mul_zero r (φ c)) ∙ r.add_zero (φ y))
  add_term-value c y (some d) = m.φ_add y (o.mul c d) ∙ ap (t.add (φ y)) (m.φ_mul c d)

  coeff_loop-coeff :
      (f g : Poly E) (i : ℕ) (y : E) → φ (coeff_loop o f g i y) ≡ t.add (φ y) (coeff f g i)
  unfolding coeff_loop
  coeff_loop-coeff [] g i y = sym (r.add_zero (φ y))
  coeff_loop-coeff (c ∷ cs) g zero y = add_term-value c y (get_elem? g 0)
  coeff_loop-coeff (c ∷ cs) g (suc i) y =
      coeff_loop-coeff cs g i (add_term o c y (get_elem? g (suc i)))
      ∙ ap (λ u. t.add u (coeff cs g i)) (add_term-value c y (get_elem? g (suc i)))
      ∙ r.add_assoc (φ y) (t.mul (φ c) (entry g (suc i))) (coeff cs g i)

  zero_step : t.add t.set0 (t.mul x t.set0) ≡ t.set0
  zero_step = ap (t.add t.set0) (mul_zero r x) ∙ r.add_zero t.set0

  series-zero : (n : ℕ) → series (λ i. t.set0) n ≡ t.set0
  series-zero zero = refl
  series-zero (suc n) = ap (λ u. t.add t.set0 (t.mul x u)) (series-zero n) ∙ zero_step

  scale_step : (c a u : R) → t.add (t.mul c a) (t.mul x (t.mul c u)) ≡ t.mul c (t.add a (t.mul x u))
  scale_step c a u = simp (ring, r)

  -- A multiple of all of g.
  series-scale :
      (c : R) (g : Poly E) (n : ℕ)
      → length g ≤ n
      → series (λ i. t.mul c (entry g i)) n ≡ t.mul c (value g)
  series-scale c [] n h =
      series-ext (λ i. t.mul c t.set0) (λ i. t.set0) n (λ i. mul_zero r c)
      ∙ series-zero n
      ∙ sym (mul_zero r c)
  series-scale c (d ∷ ds) zero h = absurd (omega arith)
  series-scale c (d ∷ ds) (suc n) h =
      ap (λ u. t.add (t.mul c (φ d)) (t.mul x u)) (series-scale c ds n (omega arith))
      ∙ scale_step c (φ d) (value ds)

  split_step : (a u v : R) → t.add a (t.mul x (t.add u v)) ≡ t.add (t.add a (t.mul x u)) (t.mul x v)
  split_step a u v = simp (ring, r)

  cauchy_step :
      (c v g : R) → t.add (t.mul c g) (t.mul x (t.mul v g)) ≡ t.mul (t.add c (t.mul x v)) g
  cauchy_step c v g = simp (ring, r)

  -- Enough coefficients give the product of the values.
  series-coeff :
      (f g : Poly E) (n : ℕ)
      → length f + length g ≤ suc n
      → series (coeff f g) n ≡ t.mul (value f) (value g)
  series-coeff [] g n h = series-zero n ∙ sym (zero_mul r (value g))
  series-coeff (c ∷ cs) [] zero h = sym (mul_zero r (value (c ∷ cs)))
  series-coeff (c ∷ cs) (d ∷ ds) zero h = absurd (omega arith)
  series-coeff (c ∷ cs) g (suc n) h =
      ap (λ u. t.add (t.mul (φ c) (entry g 0)) (t.mul x u))
        (series-add (λ i. t.mul (φ c) (entry g (suc i))) (coeff cs g) n)
      ∙ split_step (t.mul (φ c) (entry g 0)) (series (λ i. t.mul (φ c) (entry g (suc i))) n)
          (series (coeff cs g) n)
      ∙ ap₂ (λ u v. t.add u (t.mul x v)) (series-scale (φ c) g (suc n) (omega arith))
          (series-coeff cs g n (omega arith))
      ∙ cauchy_step (φ c) (value cs) (value g)

  items_of-series : (h : ℕ → E) (n : ℕ) → value (items_of o h n) ≡ series (λ i. φ (h i)) n
  items_of-series h zero = refl
  items_of-series h (suc n) =
      ap (λ u. t.add (φ (h 0)) (t.mul x u)) (items_of-series (λ i. h (suc i)) n)

  from_zero : (f g : Poly E) (i : ℕ) → φ (coeff_loop o f g i o.set0) ≡ coeff f g i
  from_zero f g i =
      coeff_loop-coeff f g i o.set0
      ∙ ap (λ u. t.add u (coeff f g i)) m.φ_set0
      ∙ zero_add r (coeff f g i)

  -- The product of polynomials has the product of their values, at every point of every
  -- commutative ring into which the coefficients map.
  pub poly_mul-eval :
      IsZeroTest o → (f g : Poly E) → value (poly_mul o f g) ≡ t.mul (value f) (value g)
  unfolding poly_mul
  poly_mul-eval z [] g = sym (zero_mul r (value g))
  poly_mul-eval z (f ∷ fs) [] = sym (mul_zero r (value (f ∷ fs)))
  poly_mul-eval z (f ∷ fs) (g ∷ gs) =
      eval-strip m x z (items_of o (λ i. coeff_loop o (f ∷ fs) (g ∷ gs) i o.set0) n)
      ∙ items_of-series (λ i. coeff_loop o (f ∷ fs) (g ∷ gs) i o.set0) n
      ∙ series-ext (λ i. φ (coeff_loop o (f ∷ fs) (g ∷ gs) i o.set0)) (coeff (f ∷ fs) (g ∷ gs)) n
          (from_zero (f ∷ fs) (g ∷ gs))
      ∙ series-coeff (f ∷ fs) (g ∷ gs) n (omega arith)
    where
      n : ℕ
      n = length (f ∷ fs) + length (g ∷ gs) - 1
