-- ===== src/Pbc/Field/Power.antt =====
-- Powers by their definition, with the laws that the fast routines rest on.
use dumbo_ms.Prelude.{ℕ, zero, suc, ◌+◌, ◌*◌, ◌≡◌, refl, sym, ap, ◌∙◌, arith}
use dumbo_ms.Pbc.Field.{Field}

module _ {ℓ} {E : Type ℓ} (f : Field E) where
  open f use {set1, mul, mul_assoc, mul_comm, mul_one}

  -- a ^ n
  unfoldable pub power : E → ℕ → E
  power a zero = set1
  power a (suc n) = mul a (power a n)

  pub one_mul : (a : E) → mul set1 a ≡ a
  one_mul a = mul_comm set1 a ∙ mul_one a

  pub power-add : (a : E) (m n k : ℕ) → k ≡ m + n → power a k ≡ mul (power a m) (power a n)
  unfolding power
  power-add a zero n k e = rw (one_mul (power a n)) (ap (power a) (omega arith))
  power-add a (suc m) n zero e = absurd (omega arith)
  power-add a (suc m) n (suc k) e =
      ap (mul a) (power-add a m n k (omega arith)) ∙ sym (mul_assoc a (power a m) (power a n))

  pub power-one : (a : E) → power a 1 ≡ a
  unfolding power
  power-one a = mul_one a

  -- (a * b) * (c * d) = (a * c) * (b * d)
  pub mul_interchange : (a b c d : E) → mul (mul a b) (mul c d) ≡ mul (mul a c) (mul b d)
  mul_interchange a b c d =
      mul_assoc a b (mul c d)
      ∙ ap (mul a) (sym (mul_assoc b c d) ∙ ap (λ x. mul x d) (mul_comm b c) ∙ mul_assoc c b d)
      ∙ sym (mul_assoc a c (mul b d))

  pub power-mul : (a : E) (m n k : ℕ) → k ≡ m * n → power a k ≡ power (power a m) n
  unfolding power
  power-mul a m zero k e = let none_left : k ≡ 0 = omega arith in rw none_left refl
  power-mul a m (suc n) k e =
      power-add a m (m * n) k (omega arith) ∙ ap (mul (power a m)) (power-mul a m n (m * n) refl)

  pub power_set1 : (n : ℕ) → power set1 n ≡ set1
  unfolding power
  power_set1 zero = refl
  power_set1 (suc n) = one_mul (power set1 n) ∙ power_set1 n
