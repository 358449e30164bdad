-- ===== src/Pbc/Poly/Trim.antt =====
-- The invariant of arith/poly.c: the last coefficient is not zero.
use dumbo_ms.Prelude.{
  ℕ, zero, suc, ◌+◌, ◌-◌, ◌≤◌, arith, ◌≡◌, refl, sym, ap, ap₂, subst, ◌∙◌, false, Bool-cases, inl,
  inr, [], ◌∷◌, map, length, if◌then◌else◌,
}
use dumbo_ms.Pbc.Structure.{Structure}
use dumbo_ms.Pbc.Poly.{
  Poly, cons_nonzero, poly_remove_leading_zeroes, poly_add, add_items, sub_items, coeff_loop,
  poly_sub, poly_mul, poly_const_mul, poly_constant, items_of,
}
use dumbo_ms.Pbc.Poly.Eval.{IsZeroTest}
use dumbo_ms.Pbc.Poly.Divide.Rows.{ZeroFrom}

abbrev pub IsTrimmed : {E : Type 0} → Structure E → Poly E → Type 0
IsTrimmed o [] = Unit {0}
IsTrimmed o (c ∷ []) = o.is0 c ≡ false
IsTrimmed o (c ∷ d ∷ ds) = IsTrimmed o (d ∷ ds)

module _ {E : Type 0} (o : Structure E) where
  cons_nonzero-IsTrimmed :
      (c : E) (cs : Poly E) → IsTrimmed o cs → IsTrimmed o (cons_nonzero o c cs)
  cons_nonzero-IsTrimmed c [] h = elim (Bool-cases (o.is0 c)) [
    | inl t ↦ subst (λ b. IsTrimmed o (if b then [] else (c ∷ []))) (sym t) tt
    | inr t ↦ subst (λ b. IsTrimmed o (if b then [] else (c ∷ []))) (sym t) t
  ]
  cons_nonzero-IsTrimmed c (d ∷ ds) h = h

  pub strip-IsTrimmed : (f : Poly E) → IsTrimmed o (poly_remove_leading_zeroes o f)
  unfolding poly_remove_leading_zeroes
  strip-IsTrimmed [] = tt
  strip-IsTrimmed (c ∷ cs) =
      cons_nonzero-IsTrimmed c (poly_remove_leading_zeroes o cs) (strip-IsTrimmed cs)

  -- What is trimmed stays as it is.
  pub strip_trimmed : (f : Poly E) → IsTrimmed o f → poly_remove_leading_zeroes o f ≡ f
  unfolding poly_remove_leading_zeroes
  strip_trimmed [] h = refl
  strip_trimmed (c ∷ []) h = rw h refl
  strip_trimmed (c ∷ d ∷ ds) h = ap (cons_nonzero o c) (strip_trimmed (d ∷ ds) h)

  poly_mul-IsTrimmed : (f g : Poly E) → IsTrimmed o (poly_mul o f g)
  unfolding poly_mul
  poly_mul-IsTrimmed [] g = tt
  poly_mul-IsTrimmed (f ∷ fs) [] = tt
  poly_mul-IsTrimmed (f ∷ fs) (g ∷ gs) = strip-IsTrimmed (
      items_of o (λ i. coeff_loop o (f ∷ fs) (g ∷ gs) i o.set0)
        (length (f ∷ fs) + length (g ∷ gs) - 1))

  -- Sums, differences, products, multiples and constants are trimmed, whatever their arguments.
  pub poly_ops-IsTrimmed :
      (f g : Poly E) (c : E)
      → IsTrimmed o (poly_add o f g)
        × IsTrimmed o (poly_sub o f g)
        × IsTrimmed o (poly_mul o f g)
        × IsTrimmed o (poly_const_mul o c g)
        × IsTrimmed o (poly_constant o c)
  unfolding poly_add poly_sub poly_mul poly_const_mul poly_constant
  poly_ops-IsTrimmed f g c = (
    strip-IsTrimmed (add_items o f g),
    strip-IsTrimmed (sub_items o f g),
    poly_mul-IsTrimmed f g,
    strip-IsTrimmed (map (o.mul c) g),
    strip-IsTrimmed (c ∷ []),
  )

module _ {E : Type 0} {o : Structure E} (z : IsZeroTest o) where
  strip_zeros : (f : Poly E) → ZeroFrom o zero f → poly_remove_leading_zeroes o f ≡ []
  unfolding poly_remove_leading_zeroes
  strip_zeros [] h = refl
  strip_zeros (c ∷ cs) h = ap₂ (cons_nonzero o) h.0 (strip_zeros cs h.1) ∙ rw z.is0_set0 refl

  length-cons_nonzero : (c : E) (cs : Poly E) → length (cons_nonzero o c cs) ≤ suc (length cs)
  length-cons_nonzero c [] = elim (Bool-cases (o.is0 c)) [
    | inl t ↦ rw t (omega arith)
    | inr t ↦ rw t (omega arith)
  ]
  length-cons_nonzero c (d ∷ ds) = omega arith

  -- Zeros from position n on go.
  pub length-strip :
      (n : ℕ) (f : Poly E) → ZeroFrom o n f → length (poly_remove_leading_zeroes o f) ≤ n
  unfolding poly_remove_leading_zeroes
  length-strip zero f h = let e = ap length (strip_zeros f h) in omega arith
  length-strip (suc n) [] h = omega arith
  length-strip (suc n) (c ∷ cs) h =
      omega (arith, length-cons_nonzero c (poly_remove_leading_zeroes o cs), length-strip n cs h)
