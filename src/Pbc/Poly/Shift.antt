-- ===== src/Pbc/Poly/Shift.antt =====
-- Multiples of a value by powers of the point at which polynomials are evaluated.
use dumbo_ms.Prelude.{ℕ, zero, suc, ◌+◌, arith, ◌≡◌, refl, ap, ◌∙◌}
use dumbo_ms.Pbc.Structure.{Structure}
use dumbo_ms.Pbc.Structure.Ring.{IsRing, ring, mul_zero}
use dumbo_ms.Pbc.Structure.Morphism.{IsMorphism}

module _ {E R : Type 0} {o : Structure E} {t : Structure R} {φ : E → R} (m : IsMorphism o t φ)
    (x : R) where
  r : IsRing t
  r = m.target

  -- x^k v
  abbrev pub shift : ℕ → R → R
  shift zero v = v
  shift (suc k) v = t.mul x (shift k v)

  pub shift-add : (k : ℕ) (u v : R) → shift k (t.add u v) ≡ t.add (shift k u) (shift k v)
  shift-add zero u v = refl
  shift-add (suc k) u v = ap (t.mul x) (shift-add k u v) ∙ r.mul_add x (shift k u) (shift k v)

  swap : (u v w : R) → t.mul u (t.mul v w) ≡ t.mul v (t.mul u w)
  swap u v w = simp (ring, r)

  pub shift-mul : (k : ℕ) (u v : R) → shift k (t.mul u v) ≡ t.mul v (shift k u)
  shift-mul zero u v = r.mul_comm u v
  shift-mul (suc k) u v = ap (t.mul x) (shift-mul k u v) ∙ swap x v (shift k u)

  pub shift-step : (k : ℕ) (v : R) → shift k (t.mul x v) ≡ shift (suc k) v
  shift-step k v = ap (shift k) (r.mul_comm x v) ∙ shift-mul k v x

  pub shift-zero : (k : ℕ) → shift k t.set0 ≡ t.set0
  shift-zero zero = refl
  shift-zero (suc k) = ap (t.mul x) (shift-zero k) ∙ mul_zero r x

  pub shift-shift : (k l n : ℕ) (v : R) → n ≡ k + l → shift k (shift l v) ≡ shift n v
  shift-shift zero l n v h = let same : l ≡ n = omega arith in ap (λ i. shift i v) same
  shift-shift (suc k) l zero v h = absurd (omega arith)
  shift-shift (suc k) l (suc n) v h = ap (t.mul x) (shift-shift k l n v (omega arith))
