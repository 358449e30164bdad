-- ===== src/Pbc/Poly/Divide/Rows.antt =====
-- One round of the division of arith/poly.c: its value, and the coefficient that it clears.
use dumbo_ms.Prelude.{
  ℕ, zero, suc, ◌+◌, ◌≤◌, arith, ◌≡◌, refl, sym, ap, ap₂, subst, ◌∙◌, [], ◌∷◌, length, get_or,
}
use dumbo_ms.Pbc.Structure.{Structure}
use dumbo_ms.Pbc.Structure.Ring.{IsRing, ring, mul_zero, neg_of_add}
use dumbo_ms.Pbc.Structure.Morphism.{IsMorphism, φ_sub}
use dumbo_ms.Pbc.Poly.{Poly}
use dumbo_ms.Pbc.Poly.Shift.{shift}
use dumbo_ms.Pbc.Poly.Eval.{eval, sub_step}
use dumbo_ms.Pbc.Poly.Divide.{sub_row}

module _ {E R : Type 0} {o : Structure E} {t : Structure R} {φ : E → R} (m : IsMorphism o t φ)
    (x : R) where
  r : IsRing t
  r = m.target

  abbrev value : Poly E → R
  value = eval t φ x

  sub_zero : (z : R) → t.sub z t.set0 ≡ z
  sub_zero z =
      r.sub_lem z t.set0
      ∙ ap (t.add z) (neg_of_add r t.set0 t.set0 (r.add_zero t.set0))
      ∙ r.add_zero z

  -- a + x (u - v) = (a + x u) - x v
  later : (a u v : R) → t.add a (t.mul x (t.sub u v)) ≡ t.sub (t.add a (t.mul x u)) (t.mul x v)
  later a u v =
      ap (λ z. t.add z (t.mul x (t.sub u v))) (sym (sub_zero a))
      ∙ sub_step m x a t.set0 u v
      ∙ ap (t.sub (t.add a (t.mul x u))) (r.add_comm t.set0 (t.mul x v) ∙ r.add_zero (t.mul x v))

  scale_step : (q b v : R) → t.add (t.mul q b) (t.mul x (t.mul q v)) ≡ t.mul q (t.add b (t.mul x v))
  scale_step q b v = simp (ring, r)

  pub eval-sub_row :
      (k : ℕ) (qe : E) (bs rs : Poly E)
      → k + length bs ≤ length rs
      → value (sub_row o k qe bs rs) ≡ t.sub (value rs) (shift m x k (t.mul (φ qe) (value bs)))
  unfolding sub_row
  eval-sub_row (suc k) qe bs [] h = absurd (omega arith)
  eval-sub_row (suc k) qe bs (c ∷ cs) h =
      ap (λ u. t.add (φ c) (t.mul x u)) (eval-sub_row k qe bs cs (omega arith))
      ∙ later (φ c) (value cs) (shift m x k (t.mul (φ qe) (value bs)))
  eval-sub_row zero qe [] rs h =
      sym (ap (t.sub (value rs)) (mul_zero r (φ qe)) ∙ sub_zero (value rs))
  eval-sub_row zero qe (b ∷ bs) [] h = absurd (omega arith)
  eval-sub_row zero qe (b ∷ bs) (c ∷ cs) h =
      ap₂ (λ u v. t.add u (t.mul x v)) (φ_sub m c (o.mul qe b) ∙ ap (t.sub (φ c)) (m.φ_mul qe b))
        (eval-sub_row zero qe bs cs (omega arith))
      ∙ sub_step m x (φ c) (t.mul (φ qe) (φ b)) (value cs) (t.mul (φ qe) (value bs))
      ∙ ap (t.sub (t.add (φ c) (t.mul x (value cs)))) (scale_step (φ qe) (φ b) (value bs))

pub length-sub_row :
    {E : Type 0} (o : Structure E) (k : ℕ) (qe : E) (bs rs : Poly E)
    → length (sub_row o k qe bs rs) ≡ length rs
unfolding sub_row
length-sub_row o (suc k) qe bs [] = refl
length-sub_row o (suc k) qe bs (c ∷ cs) = ap suc (length-sub_row o k qe bs cs)
length-sub_row o zero qe [] rs = refl
length-sub_row o zero qe (b ∷ bs) [] = refl
length-sub_row o zero qe (b ∷ bs) (c ∷ cs) = ap suc (length-sub_row o zero qe bs cs)

-- All coefficients from position p on are zero.
abbrev pub ZeroFrom : {E : Type 0} → Structure E → ℕ → Poly E → Type 0
ZeroFrom o zero [] = Unit {0}
ZeroFrom o zero (c ∷ cs) = (c ≡ o.set0) × ZeroFrom o zero cs
ZeroFrom o (suc p) [] = Unit {0}
ZeroFrom o (suc p) (c ∷ cs) = ZeroFrom o p cs

module _ {E : Type 0} {o : Structure E} (r : IsRing o) where
  equal_difference : (a b : E) → b ≡ a → o.sub a b ≡ o.set0
  equal_difference a b h = r.sub_lem a b ∙ ap (λ u. o.add a (o.neg u)) h ∙ r.add_neg a

  -- The round clears the coefficient that it aims at.
  clears_first :
      (n : ℕ) (qe : E) (bs rs : Poly E)
      → length bs ≡ suc n
      → o.mul qe (get_or bs n o.set0) ≡ get_or rs n o.set0
      → ZeroFrom o (suc n) rs
      → ZeroFrom o n (sub_row o zero qe bs rs)
  unfolding sub_row
  clears_first n qe [] rs l h z = absurd (omega arith)
  clears_first zero qe (b ∷ bs) [] l h z = tt
  clears_first (suc n) qe (b ∷ bs) [] l h z = tt
  clears_first zero qe (b ∷ []) (c ∷ cs) l h z = (equal_difference c (o.mul qe b) h, z)
  clears_first zero qe (b ∷ d ∷ ds) (c ∷ cs) l h z = absurd (omega arith)
  clears_first (suc n) qe (b ∷ bs) (c ∷ cs) l h z = clears_first n qe bs cs (omega arith) h z

  pub clears :
      (k n p : ℕ) (qe : E) (bs rs : Poly E)
      → p ≡ n + k
      → length bs ≡ suc n
      → o.mul qe (get_or bs n o.set0) ≡ get_or rs p o.set0
      → ZeroFrom o (suc p) rs
      → ZeroFrom o p (sub_row o k qe bs rs)
  unfolding sub_row
  clears zero n p qe bs rs e l h z =
      let same : n ≡ p = omega arith in
      subst (λ i. ZeroFrom o i (sub_row o zero qe bs rs)) same
        (clears_first n qe bs rs l (h ∙ ap (λ i. get_or rs i o.set0) (sym same))
          (subst (λ i. ZeroFrom o (suc i) rs) (sym same) z))
  clears (suc k) n zero qe bs rs e l h z = absurd (omega arith)
  clears (suc k) n (suc p) qe bs [] e l h z = tt
  clears (suc k) n (suc p) qe bs (c ∷ cs) e l h z = clears k n p qe bs cs (omega arith) l h z
