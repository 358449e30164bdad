-- ===== src/Pbc/Poly/Divide/Remainder.antt =====
-- The division of arith/poly.c gives a quotient and a remainder that is shorter than the divisor.
use dumbo_ms.Prelude.{
  ℕ, zero, suc, ◌+◌, ◌-◌, ◌≤◌, ◌<◌, arith, ltb, ltb→lt, ◌≡◌, refl, sym, ap, ap₂, subst, ◌∙◌, true,
  false, Bool-cases, inl, inr, [], ◌∷◌, length, get_or, some,
}
use dumbo_ms.Pbc.Structure.{Structure}
use dumbo_ms.Pbc.Structure.Ring.{IsRing, mul_zero, sub_add}
use dumbo_ms.Pbc.Structure.Units.{IsField}
use dumbo_ms.Pbc.Structure.Morphism.{IsMorphism}
use dumbo_ms.Pbc.Poly.{Poly, poly_remove_leading_zeroes}
use dumbo_ms.Pbc.Poly.Eval.{IsZeroTest, eval, eval-strip}
use dumbo_ms.Pbc.Poly.Shift.{shift, shift-add, shift-mul, shift-step, shift-zero}
use dumbo_ms.Pbc.Poly.Trim.{IsTrimmed, strip-IsTrimmed, length-strip}
use dumbo_ms.Pbc.Poly.Divide.{Division, sub_row, div_loop, stripped, div_degrees, poly_div}
use dumbo_ms.Pbc.Poly.Divide.Rows.{eval-sub_row, length-sub_row, ZeroFrom, clears}

module _ {E R : Type 0} {o : Structure E} {t : Structure R} {φ : E → R} (m : IsMorphism o t φ)
    (x : R) where
  r : IsRing t
  r = m.target

  abbrev value : Poly E → R
  value = eval t φ x

  -- (a - p) + (p + q) = a + q
  regroup : (a p q : R) → t.add (t.sub a p) (t.add p q) ≡ t.add a q
  regroup a p q = sym (r.add_assoc (t.sub a p) p q) ∙ ap (λ u. t.add u q) (sub_add r a p)

  -- What a round takes from the remainder it adds to the quotient.
  round :
      (k : ℕ) (a b qe q : R)
      → t.add (t.sub a (shift m x k (t.mul qe b))) (t.mul b (shift m x k (t.add qe (t.mul x q))))
        ≡ t.add a (t.mul b (shift m x (suc k) q))
  round k a b qe q =
      ap₂ (λ u v. t.add (t.sub a u) (t.mul b v)) (shift-mul m x k qe b)
        (shift-add m x k qe (t.mul x q) ∙ ap (t.add (shift m x k qe)) (shift-step m x k q))
      ∙ ap (t.add (t.sub a (t.mul b (shift m x k qe))))
          (r.mul_add b (shift m x k qe) (shift m x (suc k) q))
      ∙ regroup a (t.mul b (shift m x k qe)) (t.mul b (shift m x (suc k) q))

  eval-div_loop :
      (k n : ℕ) (binv : E) (bs rs q : Poly E)
      → length bs ≡ suc n
      → n + k ≤ length rs
      → t.add
          (value (div_loop o k n binv bs rs q).rem)
          (t.mul (value bs) (value (div_loop o k n binv bs rs q).quot))
        ≡ t.add (value rs) (t.mul (value bs) (shift m x k (value q)))
  unfolding div_loop
  eval-div_loop zero n binv bs rs q l h = refl
  eval-div_loop (suc k) n binv bs rs q l h =
      eval-div_loop k n binv bs (sub_row o k qe bs rs) (qe ∷ q) l
        (omega (arith, length-sub_row o k qe bs rs))
      ∙ ap (λ u. t.add u (t.mul (value bs) (shift m x k (t.add (φ qe) (t.mul x (value q))))))
          (eval-sub_row m x k qe bs rs (omega arith))
      ∙ round k (value rs) (value bs) (φ qe) (value q)
    where
      qe : E
      qe = o.mul binv (get_or rs (n + k) o.set0)

module _ {E : Type 0} {o : Structure E} (f : IsField o) where
  s : IsRing o
  s = f.is_ring

  pub field-IsZeroTest : IsZeroTest o
  field-IsZeroTest = record { is0_zero = f.is0_zero; is0_set0 = f.is0_set0 }

  -- The factor of a round.
  factor_lem : (binv lead c : E) → o.mul lead binv ≡ o.set1 → o.mul (o.mul binv c) lead ≡ c
  factor_lem binv lead c h =
      s.mul_comm (o.mul binv c) lead
      ∙ sym (s.mul_assoc lead binv c)
      ∙ ap (λ u. o.mul u c) h
      ∙ s.mul_comm o.set1 c
      ∙ s.mul_one c

  div_loop-ZeroFrom :
      (k n : ℕ) (binv : E) (bs rs q : Poly E)
      → length bs ≡ suc n
      → o.mul (get_or bs n o.set0) binv ≡ o.set1
      → ZeroFrom o (n + k) rs
      → ZeroFrom o n (div_loop o k n binv bs rs q).rem
  unfolding div_loop
  div_loop-ZeroFrom zero n binv bs rs q l h z =
      let same : n + 0 ≡ n = omega arith in subst (λ i. ZeroFrom o i rs) same z
  div_loop-ZeroFrom (suc k) n binv bs rs q l h z =
      div_loop-ZeroFrom k n binv bs (sub_row o k qe bs rs) (qe ∷ q) l h (
        clears s k n (n + k) qe bs rs refl l
          (factor_lem binv (get_or bs n o.set0) (get_or rs (n + k) o.set0) h)
          (let same : n + suc k ≡ suc (n + k) = omega arith in subst (λ i. ZeroFrom o i rs) same z))
    where
      qe : E
      qe = o.mul binv (get_or rs (n + k) o.set0)

  all_short : (n : ℕ) (rs : Poly E) → length rs ≤ n → ZeroFrom o n rs
  all_short zero [] h = tt
  all_short zero (c ∷ cs) h = absurd (omega arith)
  all_short (suc n) [] h = tt
  all_short (suc n) (c ∷ cs) h = all_short n cs (omega arith)

  -- The leading coefficient of what is trimmed has its inverse.
  pub lead-invert :
      (b : E) (bs : Poly E)
      → IsTrimmed o (b ∷ bs)
      → o.mul (get_or (b ∷ bs) (length bs) o.set0) (o.invert (get_or (b ∷ bs) (length bs) o.set0))
        ≡ o.set1
  lead-invert b [] h = f.invert_lem b (λ e. let k : o.is0 b ≡ true = ap o.is0 e ∙ f.is0_set0 in cc)
  lead-invert b (c ∷ cs) h = lead-invert c cs h

false→le : (a b : ℕ) → ltb a b ≡ false → b ≤ a
false→le a b h = ground arith

-- What division promises of the quotient and the remainder at the point x.
pub record IsDivision {E R : Type 0} (o : Structure E) (t : Structure R) (φ : E → R) (x : R)
    (a b : Poly E) (d : Division E) : Type 0 where
  pub division_value :
      eval t φ x a ≡ t.add (eval t φ x d.rem) (t.mul (eval t φ x b) (eval t φ x d.quot))
  pub division_short : length d.rem < length b
  pub division_trimmed : IsTrimmed o d.rem

module _ {E R : Type 0} {o : Structure E} {t : Structure R} {φ : E → R} (f : IsField o)
    (m : IsMorphism o t φ) (x : R) where
  short_IsDivision :
      (a b : Poly E)
      → IsTrimmed o a
      → length a < length b
      → IsDivision o t φ x a b (record { quot = []; rem = a })
  short_IsDivision a b h l = record {
    division_value = sym (
        ap (t.add (eval t φ x a)) (mul_zero m.target (eval t φ x b))
        ∙ m.target.add_zero (eval t φ x a));
    division_short = l;
    division_trimmed = h;
  }

  long_IsDivision :
      (a : Poly E) (b : E) (bs : Poly E)
      → IsTrimmed o (b ∷ bs)
      → suc (length bs) ≤ length a
      → IsDivision o t φ x a (b ∷ bs) (
          stripped o (
            div_loop o
              (length a - length bs)
              (length bs)
              (o.invert (get_or (b ∷ bs) (length bs) o.set0))
              (b ∷ bs)
              a
              []))
  long_IsDivision a b bs h l = record {
    division_value = sym (
        ap (λ u. t.add u (t.mul (eval t φ x (b ∷ bs)) (eval t φ x d.quot)))
          (eval-strip m x (field-IsZeroTest f) d.rem)
        ∙ eval-div_loop m x k n binv (b ∷ bs) a [] refl (omega arith)
        ∙ ap (λ u. t.add (eval t φ x a) (t.mul (eval t φ x (b ∷ bs)) u)) (shift-zero m x k)
        ∙ ap (t.add (eval t φ x a)) (mul_zero m.target (eval t φ x (b ∷ bs)))
        ∙ m.target.add_zero (eval t φ x a));
    division_short =
        let p : length (poly_remove_leading_zeroes o d.rem) ≤ n =
          length-strip (field-IsZeroTest f) n d.rem (
            div_loop-ZeroFrom f k n binv (b ∷ bs) a [] refl (lead-invert f b bs h)
              (all_short f (n + k) a (omega arith))) in
        omega arith;
    division_trimmed = strip-IsTrimmed o d.rem;
  }
    where
      n : ℕ
      n = length bs

      k : ℕ
      k = length a - n

      binv : E
      binv = o.invert (get_or (b ∷ bs) n o.set0)

      d : Division E
      d = div_loop o k n binv (b ∷ bs) a []

  -- Over a field, dividing by what is trimmed and not zero succeeds; at every point of every
  -- commutative ring into which the coefficients map the dividend is divisor times quotient plus
  -- remainder; the remainder is trimmed and shorter than the divisor.
  pub poly_div-IsDivision :
      (a : Poly E) (b : E) (bs : Poly E)
      → IsTrimmed o a
      → IsTrimmed o (b ∷ bs)
      → (d : Division E) × (poly_div o a (b ∷ bs) ≡ some d) × IsDivision o t φ x a (b ∷ bs) d
  unfolding poly_div div_degrees
  poly_div-IsDivision a b bs h k = elim (Bool-cases (ltb (length a) (suc (length bs)))) [
    | inl c ↦ (
      record { quot = []; rem = a },
      rw c refl,
      short_IsDivision a (b ∷ bs) h (ltb→lt (length a) (suc (length bs)) c),
    )
    | inr c ↦ (
      stripped o (
          div_loop o (length a - length bs) (length bs)
            (o.invert (get_or (b ∷ bs) (length bs) o.set0)) (b ∷ bs) a []),
      rw c refl,
      long_IsDivision a b bs k (false→le (length a) (suc (length bs)) c),
    )
  ]
