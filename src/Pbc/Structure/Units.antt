-- ===== src/Pbc/Structure/Units.antt =====
-- The laws of a field for the operations of a structure, and what follows from them.
use dumbo_ms.Prelude.{◌≡◌, ◌≢◌, ◌⊎◌, inl, inr, Bool-cases, true, sym, ap, ap₂, ◌∙◌}
use dumbo_ms.Pbc.Structure.{Structure}
use dumbo_ms.Pbc.Structure.Ring.{IsRing, ring, zero_mul, one_mul}

pub record IsField {E : Type 0} (o : Structure E) : Type 0 where
  pub is_ring : IsRing o
  pub one_ne_zero : o.set1 ≢ o.set0
  pub invert_lem : (a : E) → a ≢ o.set0 → o.mul a (o.invert a) ≡ o.set1
  pub is0_zero : (a : E) → o.is0 a ≡ true → a ≡ o.set0
  pub is0_set0 : o.is0 o.set0 ≡ true
  pub is1_one : (a : E) → o.is1 a ≡ true → a ≡ o.set1
  pub is1_set1 : o.is1 o.set1 ≡ true

module _ {E : Type 0} {o : Structure E} (f : IsField o) where
  open o use {set0, set1, mul, invert, is0}

  r : IsRing o
  r = f.is_ring

  pub zero_or_not : (a : E) → (a ≡ set0) ⊎ (a ≢ set0)
  zero_or_not a = elim (Bool-cases (is0 a)) [
    | inl h ↦ inl (f.is0_zero a h)
    | inr h ↦ inr (λ e. let k : is0 a ≡ true = ap is0 e ∙ f.is0_set0 in cc)
  ]

  pub mul-invert_left : (a b : E) → a ≢ set0 → mul (mul a b) (invert a) ≡ b
  mul-invert_left a b h =
      ap (λ t. mul t (invert a)) (r.mul_comm a b)
      ∙ r.mul_assoc b a (invert a)
      ∙ ap (mul b) (f.invert_lem a h)
      ∙ r.mul_one b

  -- There are no zero divisors.
  pub ne_zero_mul : (a b : E) → a ≢ set0 → b ≢ set0 → mul a b ≢ set0
  ne_zero_mul a b h k e =
      k (sym (mul-invert_left a b h) ∙ ap (λ t. mul t (invert a)) e ∙ zero_mul r (invert a))

  -- The square of a quotient.
  pub square_of_quotient :
      (a b n : E)
      → b ≢ set0
      → mul a a ≡ mul (mul b b) n
      → mul (mul a (invert b)) (mul a (invert b)) ≡ n
  square_of_quotient a b n h e =
      regroup a (invert b)
      ∙ ap (λ t. mul t (mul (invert b) (invert b))) e
      ∙ regroup_product b (invert b)
      ∙ ap₂ (λ s t. mul (mul s t) n) (f.invert_lem b h) (f.invert_lem b h)
      ∙ ap (λ t. mul t n) (r.mul_one set1)
      ∙ one_mul r n
    where
      regroup : (x y : E) → mul (mul x y) (mul x y) ≡ mul (mul x x) (mul y y)
      regroup x y = simp (ring, r)

      regroup_product :
          (x y : E) → mul (mul (mul x x) n) (mul y y) ≡ mul (mul (mul x y) (mul x y)) n
      regroup_product x y = simp (ring, r)
