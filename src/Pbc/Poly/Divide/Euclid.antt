-- ===== src/Pbc/Poly/Divide/Euclid.antt =====
-- Euclid's algorithm in arith/poly.c: it ends, and what it returns.
use dumbo_ms.Prelude.{
  ℕ, zero, suc, ◌≤◌, ◌<◌, arith, ◌≡◌, refl, sym, ap, ap₂, ◌∙◌, [], ◌∷◌, length, Option, some,
}
use dumbo_ms.Pbc.Structure.{Structure}
use dumbo_ms.Pbc.Structure.Ring.{IsRing, ring, mul_zero, zero_add, sub_add}
use dumbo_ms.Pbc.Structure.Units.{IsField}
use dumbo_ms.Pbc.Structure.Morphism.{IsMorphism}
use dumbo_ms.Pbc.Poly.{Poly, poly_is0, poly_set1, poly_add, poly_sub, poly_mul}
use dumbo_ms.Pbc.Poly.Eval.{eval, poly_linear-eval}
use dumbo_ms.Pbc.Poly.Product.{poly_mul-eval}
use dumbo_ms.Pbc.Poly.Trim.{IsTrimmed}
use dumbo_ms.Pbc.Poly.Divide.{poly_div, gcd_loop, poly_gcd}
use dumbo_ms.Pbc.Poly.Divide.Remainder.{IsDivision, poly_div-IsDivision, field-IsZeroTest}

-- A divisor of a and b at the point x, with its quotients, that is a combination of them.
pub record IsGcd {E R : Type 0} (t : Structure R) (φ : E → R) (x : R) (a b d : Poly E)
    : Type 0 where
  pub left : Poly E
  pub right : Poly E
  pub left_factor : Poly E
  pub right_factor : Poly E
  pub left_lem : eval t φ x a ≡ t.mul (eval t φ x d) (eval t φ x left)
  pub right_lem : eval t φ x b ≡ t.mul (eval t φ x d) (eval t φ x right)
  pub combination :
      eval t φ x d
      ≡ t.add
          (t.mul (eval t φ x a) (eval t φ x left_factor))
          (t.mul (eval t φ x b) (eval t φ x right_factor))

module _ {E R : Type 0} {o : Structure E} {t : Structure R} {φ : E → R} (f : IsField o)
    (m : IsMorphism o t φ) (x : R) where
  r : IsRing t
  r = m.target

  abbrev value : Poly E → R
  value = eval t φ x

  pub product_value : (p q : Poly E) → value (poly_mul o p q) ≡ t.mul (value p) (value q)
  product_value p q = poly_mul-eval m x (field-IsZeroTest f) p q

  sum_value : (p q : Poly E) → value (poly_add o p q) ≡ t.add (value p) (value q)
  sum_value p q = (poly_linear-eval m x (field-IsZeroTest f) p q o.set0).0

  pub difference_value : (p q : Poly E) → value (poly_sub o p q) ≡ t.sub (value p) (value q)
  difference_value p q = (poly_linear-eval m x (field-IsZeroTest f) p q o.set0).1

  pub one_value : value (poly_set1 o) ≡ t.set1
  one_value = ap₂ t.add m.φ_set1 (mul_zero r x) ∙ r.add_zero t.set1

  -- The last divisor divides itself and what it divides.
  last_step : (b : Poly E) (v : R) → t.add t.set0 (t.mul (value b) v) ≡ t.mul (value b) v
  last_step b v = zero_add r (t.mul (value b) v)

  last_IsGcd :
      (a b q : Poly E) → value a ≡ t.add t.set0 (t.mul (value b) (value q)) → IsGcd t φ x a b b
  last_IsGcd a b q h = record {
    left = q;
    right = poly_set1 o;
    left_factor = [];
    right_factor = poly_set1 o;
    left_lem = h ∙ last_step b (value q);
    right_lem = sym (ap (t.mul (value b)) one_value ∙ r.mul_one (value b));
    combination = sym (
        ap₂ t.add (mul_zero r (value a)) (ap (t.mul (value b)) one_value ∙ r.mul_one (value b))
        ∙ zero_add r (value b));
  }

  factor_step :
      (d u v q : R) → t.add (t.mul d u) (t.mul (t.mul d v) q) ≡ t.mul d (t.add u (t.mul v q))
  factor_step d u v q = simp (ring, r)

  -- b p + (a - b q) w = a w + b (p - q w)
  combine_step :
      (a b c p q w : R)
      → a ≡ t.add c (t.mul b q)
      → t.add (t.mul b p) (t.mul c w) ≡ t.add (t.mul a w) (t.mul b (t.sub p (t.mul q w)))
  combine_step a b c p q w h =
      ap (λ u. t.add (t.mul b u) (t.mul c w)) (sym (sub_add r p (t.mul q w)))
      ∙ moved (t.sub p (t.mul q w))
      ∙ ap (λ u. t.add (t.mul u w) (t.mul b (t.sub p (t.mul q w)))) (sym h)
    where
      moved :
          (z : R)
          → t.add (t.mul b (t.add z (t.mul q w))) (t.mul c w)
            ≡ t.add (t.mul (t.add c (t.mul b q)) w) (t.mul b z)
      moved z = simp (ring, r)

  next_IsGcd :
      (a b q c d : Poly E)
      → value a ≡ t.add (value c) (t.mul (value b) (value q))
      → IsGcd t φ x b c d
      → IsGcd t φ x a b d
  next_IsGcd a b q c d h g = record {
    left = poly_add o g.right (poly_mul o g.left q);
    right = g.left;
    left_factor = g.right_factor;
    right_factor = poly_sub o g.left_factor (poly_mul o q g.right_factor);
    left_lem =
        h
        ∙ ap₂ (λ u v. t.add u (t.mul v (value q))) g.right_lem g.left_lem
        ∙ factor_step (value d) (value g.right) (value g.left) (value q)
        ∙ ap (t.mul (value d)) (
            sym (
              sum_value g.right (poly_mul o g.left q)
              ∙ ap (t.add (value g.right)) (product_value g.left q)));
    right_lem = g.left_lem;
    combination =
        g.combination
        ∙ combine_step (value a) (value b) (value c) (value g.left_factor) (value q)
            (value g.right_factor) h
        ∙ ap (λ u. t.add (t.mul (value a) (value g.right_factor)) (t.mul (value b) u))
            (sym (
              difference_value g.left_factor (poly_mul o q g.right_factor)
              ∙ ap (t.sub (value g.left_factor)) (product_value q g.right_factor)));
  }

  abbrev GcdOf : Option (Poly E) → Poly E → Poly E → Type 0
  GcdOf result a b = (d : Poly E) × (result ≡ some d) × IsGcd t φ x a b d

  -- One round, given the rest of the loop.
  gcd_round :
      (fuel : ℕ) (a b : Poly E) (q c : Poly E)
      → poly_div o a b ≡ some (record { quot = q; rem = c })
      → IsDivision o t φ x a b (record { quot = q; rem = c })
      → ((e : E) (es : Poly E)
          → IsTrimmed o (e ∷ es)
          → length (e ∷ es) < length b
          → GcdOf (gcd_loop o fuel b (e ∷ es)) b (e ∷ es))
      → GcdOf (gcd_loop o (suc fuel) a b) a b
  unfolding gcd_loop poly_is0
  gcd_round fuel a b q [] e d rest = (b, rw (gcd_loop, e) refl, last_IsGcd a b q d.division_value)
  gcd_round fuel a b q (c ∷ cs) e d rest =
      let g = rest c cs d.division_trimmed d.division_short in
      (g.0, rw (gcd_loop, e) g.1, next_IsGcd a b q (c ∷ cs) g.0 d.division_value g.2)

  gcd_loop-IsGcd :
      (fuel : ℕ) (a : Poly E) (b : E) (bs : Poly E)
      → IsTrimmed o a
      → IsTrimmed o (b ∷ bs)
      → length (b ∷ bs) ≤ fuel
      → GcdOf (gcd_loop o fuel a (b ∷ bs)) a (b ∷ bs)
  gcd_loop-IsGcd zero a b bs h k l = absurd (omega arith)
  gcd_loop-IsGcd (suc fuel) a b bs h k l =
      let d = poly_div-IsDivision f m x a b bs h k in
      gcd_round fuel a (b ∷ bs) d.0.quot d.0.rem d.1 d.2
        (λ e es n s. gcd_loop-IsGcd fuel (b ∷ bs) e es k n (omega arith))

  -- Over a field `poly_gcd` ends for trimmed polynomials of which the second is not zero, and
  -- returns a common divisor that is a combination of them, at every point of every commutative
  -- ring into which the coefficients map.
  pub poly_gcd-IsGcd :
      (a : Poly E) (b : E) (bs : Poly E)
      → IsTrimmed o a
      → IsTrimmed o (b ∷ bs)
      → (d : Poly E) × (poly_gcd o a (b ∷ bs) ≡ some d) × IsGcd t φ x a (b ∷ bs) d
  unfolding poly_gcd
  poly_gcd-IsGcd a b bs h k = gcd_loop-IsGcd (length (b ∷ bs)) a b bs h k (omega arith)
