-- ===== src/Pbc/Structure/Morphism.antt =====
-- Maps of a structure into a commutative ring that respect its arithmetic.
use dumbo_ms.Prelude.{◌≡◌, refl, sym, ap, ◌∙◌}
use dumbo_ms.Pbc.Structure.{Structure}
use dumbo_ms.Pbc.Structure.Ring.{IsRing, neg_of_add}

pub record IsMorphism {E R : Type 0} (o : Structure E) (t : Structure R) (φ : E → R) : Type 0 where
  pub source : IsRing o
  pub target : IsRing t
  pub φ_set0 : φ o.set0 ≡ t.set0
  pub φ_set1 : φ o.set1 ≡ t.set1
  pub φ_add : (a b : E) → φ (o.add a b) ≡ t.add (φ a) (φ b)
  pub φ_mul : (a b : E) → φ (o.mul a b) ≡ t.mul (φ a) (φ b)

module _ {E R : Type 0} {o : Structure E} {t : Structure R} {φ : E → R} (m : IsMorphism o t φ) where
  pub φ_neg : (a : E) → φ (o.neg a) ≡ t.neg (φ a)
  φ_neg a = sym (
      neg_of_add m.target (φ (o.neg a)) (φ a) (
        sym (m.φ_add (o.neg a) a)
        ∙ ap φ (m.source.add_comm (o.neg a) a ∙ m.source.add_neg a)
        ∙ m.φ_set0))

  pub φ_sub : (a b : E) → φ (o.sub a b) ≡ t.sub (φ a) (φ b)
  φ_sub a b =
      ap φ (m.source.sub_lem a b)
      ∙ m.φ_add a (o.neg b)
      ∙ ap (t.add (φ a)) (φ_neg b)
      ∙ sym (m.target.sub_lem (φ a) (φ b))

  pub φ_double : (a : E) → φ (o.double a) ≡ t.double (φ a)
  φ_double a = ap φ (m.source.double_lem a) ∙ m.φ_add a a ∙ sym (m.target.double_lem (φ a))

-- The values in the ring of the structure itself.
pub identity-IsMorphism : {E : Type 0} {o : Structure E} → IsRing o → IsMorphism o o (λ a. a)
identity-IsMorphism r = record {
  source = r;
  target = r;
  φ_set0 = refl;
  φ_set1 = refl;
  φ_add = λ a b. refl;
  φ_mul = λ a b. refl;
}
