-- ===== src/Pbc/Poly/Divide/Inverse.antt =====
-- The extended algorithm of Euclid in arith/poly.c and the inverse that it computes.
use mathlib.Core.Option.{some-injective}
use dumbo_ms.Prelude.{
  subst, ℕ, zero, suc, ◌≤◌, ◌<◌, arith, ◌≡◌, ◌≢◌, refl, sym, ap, ap₂, ◌∙◌, true, [], ◌∷◌, length,
  get_or, Option, some,
}
use dumbo_ms.Pbc.Structure.{Structure}
use dumbo_ms.Pbc.Structure.Ring.{IsRing, ring, mul_zero, zero_mul, one_mul, sub_of_add, mul_sub}
use dumbo_ms.Pbc.Structure.Units.{IsField}
use dumbo_ms.Pbc.Structure.Morphism.{IsMorphism}
use dumbo_ms.Pbc.Poly.{Poly, poly_is0, poly_set0, poly_set1, poly_sub, poly_mul, poly_const_mul}
use dumbo_ms.Pbc.Poly.Eval.{eval, poly_linear-eval}
use dumbo_ms.Pbc.Poly.Trim.{IsTrimmed}
use dumbo_ms.Pbc.Poly.Divide.{Last, poly_div, invert_loop, euclid, poly_invert, scaled}
use dumbo_ms.Pbc.Poly.Divide.Remainder.{IsDivision, poly_div-IsDivision, field-IsZeroTest}
use dumbo_ms.Pbc.Poly.Divide.Euclid.{product_value, difference_value, one_value}

module _ {E R : Type 0} {o : Structure E} {t : Structure R} {φ : E → R} (f : IsField o)
    (m : IsMorphism o t φ) (x : R) where
  r : IsRing t
  r = m.target

  abbrev value : Poly E → R
  value = eval t φ x

  -- The last remainder is a trimmed multiple of v, and not the zero polynomial.
  pub record IsLast (v : R) (l : Last E) : Type 0 where
    pub last_value : value l.gcd ≡ t.mul (value l.factor) v
    pub last_trimmed : IsTrimmed o l.gcd
    pub last_nonempty : 0 < length l.gcd

  abbrev LastOf : R → Option (Last E) → Type 0
  LastOf v result = (l : Last E) × (result ≡ some l) × IsLast v l

  -- c = a - b q is the multiple by u - w q.
  remainder_step :
      (a b c q u w v : R)
      → a ≡ t.add c (t.mul b q)
      → a ≡ t.mul u v
      → b ≡ t.mul w v
      → c ≡ t.mul (t.sub u (t.mul w q)) v
  remainder_step a b c q u w v h e k =
      sym (sub_of_add r c (t.mul b q) a (sym h))
      ∙ ap₂ t.sub e (ap (λ z. t.mul z q) k ∙ turn w v q)
      ∙ minus_mul u (t.mul w q) v
    where
      turn : (p y z : R) → t.mul (t.mul p y) z ≡ t.mul (t.mul p z) y
      turn p y z = simp (ring, r)

      minus_mul : (p y z : R) → t.sub (t.mul p z) (t.mul y z) ≡ t.mul (t.sub p y) z
      minus_mul p y z =
          ap₂ t.sub (r.mul_comm p z) (r.mul_comm y z)
          ∙ sym (mul_sub r z p y)
          ∙ r.mul_comm z (t.sub p y)

  invert_round :
      (fuel : ℕ) (v : R) (b0 b1 r0 r1 q c : Poly E)
      → 0 < length r1
      → IsTrimmed o r1
      → poly_div o r0 r1 ≡ some (record { quot = q; rem = c })
      → IsDivision o t φ x r0 r1 (record { quot = q; rem = c })
      → value r0 ≡ t.mul (value b0) v
      → value r1 ≡ t.mul (value b1) v
      → ((e : E) (es : Poly E)
          → c ≡ e ∷ es
          → value (e ∷ es) ≡ t.mul (value (poly_sub o b0 (poly_mul o b1 q))) v
          → LastOf v (invert_loop o fuel b1 (poly_sub o b0 (poly_mul o b1 q)) r1 (e ∷ es)))
      → LastOf v (invert_loop o (suc fuel) b0 b1 r0 r1)
  unfolding invert_loop poly_is0
  invert_round fuel v b0 b1 r0 r1 q [] n k e d h0 h1 rest = (
    record { gcd = r1; factor = b1 },
    rw (invert_loop, e) refl,
    record { last_value = h1; last_trimmed = k; last_nonempty = n },
  )
  invert_round fuel v b0 b1 r0 r1 q (c ∷ cs) n k e d h0 h1 rest =
      let g = rest c cs refl (
        remainder_step (value r0) (value r1) (value (c ∷ cs)) (value q) (value b0) (value b1) v
          d.division_value h0 h1
        ∙ ap (λ u. t.mul u v)
            (sym (
              difference_value f m x b0 (poly_mul o b1 q)
              ∙ ap (t.sub (value b0)) (product_value f m x b1 q)))) in
      (g.0, rw (invert_loop, e) g.1, g.2)

  invert_loop-IsLast :
      (fuel : ℕ) (v : R) (b0 b1 r0 : Poly E) (c : E) (cs : Poly E)
      → IsTrimmed o r0
      → IsTrimmed o (c ∷ cs)
      → length (c ∷ cs) ≤ fuel
      → value r0 ≡ t.mul (value b0) v
      → value (c ∷ cs) ≡ t.mul (value b1) v
      → LastOf v (invert_loop o fuel b0 b1 r0 (c ∷ cs))
  invert_loop-IsLast zero v b0 b1 r0 c cs h k l h0 h1 = absurd (omega arith)
  invert_loop-IsLast (suc fuel) v b0 b1 r0 c cs h k l h0 h1 =
      let d = poly_div-IsDivision f m x r0 c cs h k in
      invert_round fuel v b0 b1 r0 (c ∷ cs) d.0.quot d.0.rem (omega arith) k d.1 d.2 h0 h1
        (λ e es q n.
          let s : IsTrimmed o (e ∷ es) = subst (IsTrimmed o) q d.2.division_trimmed in
          let p = d.2.division_short in
          let w = ap length q in
          invert_loop-IsLast fuel v b1 (poly_sub o b0 (poly_mul o b1 d.0.quot)) (c ∷ cs) e es k s
            (omega arith) h1 n)

  -- Over a field the extended algorithm ends for a trimmed f that is not zero and a trimmed
  -- modulus; at every point of a ring at which the modulus is zero, the last remainder is the
  -- factor that it returns times f.
  pub euclid-IsLast :
      (c : E) (cs modulus : Poly E)
      → IsTrimmed o (c ∷ cs)
      → IsTrimmed o modulus
      → value modulus ≡ t.set0
      → (l : Last E) × (euclid o (c ∷ cs) modulus ≡ some l) × IsLast (value (c ∷ cs)) l
  unfolding euclid
  euclid-IsLast c cs modulus h k z =
      invert_loop-IsLast (length (c ∷ cs)) (value (c ∷ cs)) (poly_set0 o) (poly_set1 o) modulus c cs
        k h (omega arith) (z ∙ sym (zero_mul r (value (c ∷ cs))))
        (sym (ap (λ u. t.mul u (value (c ∷ cs))) (one_value f m x) ∙ one_mul r (value (c ∷ cs))))

  constant_inverse :
      (v : R) (g w : Poly E)
      → length g ≡ 1
      → IsTrimmed o g
      → value g ≡ t.mul (value w) v
      → t.mul (value (poly_const_mul o (o.invert (get_or g 0 o.set0)) w)) v ≡ t.set1
  constant_inverse v [] w n h e = absurd (omega arith)
  constant_inverse v (c ∷ d ∷ ds) w n h e = absurd (omega arith)
  constant_inverse v (c ∷ []) w n h e =
      ap (λ u. t.mul u v) (poly_linear-eval m x (field-IsZeroTest f) w w (o.invert c)).4
      ∙ r.mul_assoc (φ (o.invert c)) (value w) v
      ∙ ap (t.mul (φ (o.invert c))) (sym e ∙ ap (t.add (φ c)) (mul_zero r x) ∙ r.add_zero (φ c))
      ∙ sym (m.φ_mul (o.invert c) c)
      ∙ ap φ (m.source.mul_comm (o.invert c) c ∙ f.invert_lem c nonzero)
      ∙ m.φ_set1
    where
      nonzero : c ≢ o.set0
      nonzero z = let k : o.is0 c ≡ true = ap o.is0 z ∙ f.is0_set0 in cc

  -- Over a field, for a trimmed f that is not zero, and a trimmed modulus with a root x in a
  -- commutative ring into which the coefficients map: where the loop ends with a last remainder that
  -- is a constant, `poly_invert` returns a polynomial whose value at x times that of f is one.
  pub poly_invert-inverse :
      (c : E) (cs modulus : Poly E) (l : Last E)
      → IsTrimmed o (c ∷ cs)
      → IsTrimmed o modulus
      → value modulus ≡ t.set0
      → euclid o (c ∷ cs) modulus ≡ some l
      → length l.gcd ≡ 1
      → (p : Poly E) × (poly_invert o (c ∷ cs) modulus ≡ some p)
        × (t.mul (value p) (value (c ∷ cs)) ≡ t.set1)
  unfolding poly_invert
  poly_invert-inverse c cs modulus l h k z e n =
      let g = euclid-IsLast c cs modulus h k z in
      let same : g.0 ≡ l = some-injective g.0 l (sym g.1 ∙ e) in
      let good : IsLast (value (c ∷ cs)) l = subst (IsLast (value (c ∷ cs))) same g.2 in
      (
        poly_const_mul o (o.invert (get_or l.gcd 0 o.set0)) l.factor,
        ap (scaled o) e,
        constant_inverse (value (c ∷ cs)) l.gcd l.factor n good.last_trimmed good.last_value,
      )
