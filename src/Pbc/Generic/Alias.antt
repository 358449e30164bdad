-- ===== src/Pbc/Generic/Alias.antt =====
-- The default subtraction and division of arith/field.c, whichever arguments are one object.
use dumbo_ms.Prelude.{
  ℕ, ◌==◌, ==_iff, if◌then◌else◌, ◌≡◌, ap, ◌∙◌, refl, sym, true, false, Bool-cases, inl, inr,
}
use dumbo_ms.Pbc.Structure.{Structure}
use dumbo_ms.Pbc.Structure.Ring.{IsRing}
use dumbo_ms.Pbc.Generic.{write, generic_sub, generic_div}

==_refl : (c : ℕ) → (c == c) ≡ true
==_refl c = (==_iff c c).1 refl

module _ {E : Type 0} (st : ℕ → E) where
  -- Two writes at one address: the second counts.
  write_twice : (c d : ℕ) (v w : E) → write (write st c v) c w d ≡ (if d == c then w else st d)
  write_twice c d v w = elim (Bool-cases (d == c)) [ inl t ↦ rw t refl | inr t ↦ rw t refl ]

  write_back : (c : ℕ) (v : E) → write st c v c ≡ v
  write_back c v = rw (==_refl c) refl

  write_elsewhere : (c a : ℕ) (v : E) → (c == a) ≡ false → write st c v a ≡ st a
  write_elsewhere c a v h = elim (Bool-cases (a == c)) [
    | inl t ↦ let k : (c == a) ≡ true = (==_iff c a).1 (sym ((==_iff a c).0 t)) in cc
    | inr t ↦ rw t refl
  ]

module _ {E : Type 0} {o : Structure E} (r : IsRing o) where
  -- The object c gets a - b and a / b, the values that a and b had before the call, and no other
  -- object changes, also where c is a, c is b, a is b or all are one.
  pub generic_sub_div-write :
      (st : ℕ → E) (c a b d : ℕ)
      → (generic_sub o st c a b d ≡ (if d == c then o.add (st a) (o.neg (st b)) else st d))
        × (generic_div o st c a b d ≡ (if d == c then o.mul (st a) (o.invert (st b)) else st d))
  unfolding generic_sub generic_div
  generic_sub_div-write st c a b d = elim (Bool-cases (c == a)) [
    | inl t ↦ rw t (
      ap (λ v. if d == c then v else st d) (r.add_comm (o.neg (st b)) (st a)),
      ap (λ v. if d == c then v else st d) (r.mul_comm (o.invert (st b)) (st a)),
    )
    | inr t ↦
        rw
          (
            t,
            write_back st c (o.neg (st b)),
            write_back st c (o.invert (st b)),
            write_elsewhere st c a (o.neg (st b)) t,
            write_elsewhere st c a (o.invert (st b)) t,
          )
          (
            write_twice st c d (o.neg (st b)) (o.add (o.neg (st b)) (st a))
                ∙ ap (λ v. if d == c then v else st d) (r.add_comm (o.neg (st b)) (st a)),
            write_twice st c d (o.invert (st b)) (o.mul (o.invert (st b)) (st a))
                ∙ ap (λ v. if d == c then v else st d) (r.mul_comm (o.invert (st b)) (st a)),
          )
  ]
