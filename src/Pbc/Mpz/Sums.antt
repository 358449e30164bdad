-- ===== src/Pbc/Mpz/Sums.antt =====
-- Sums of integers regrouped, from the laws of the interface.
use dumbo_ms.Prelude.{◌≡◌, sym, ap, ◌∙◌}
use dumbo_ms.Pbc.Mpz.{Mpz}

module _ {ℓ} {Z : Type ℓ} (g : Mpz Z) where
  open g use {zero_z, mpz_add, mpz_mul, mpz_neg, add_assoc, add_comm, add_zero, add_neg, mul_add}

  pub zero_add : (a : Z) → mpz_add zero_z a ≡ a
  zero_add a = add_comm zero_z a ∙ add_zero a

  pub interchange :
      (a b c d : Z) → mpz_add (mpz_add a b) (mpz_add c d) ≡ mpz_add (mpz_add a c) (mpz_add b d)
  interchange a b c d =
      add_assoc a b (mpz_add c d)
      ∙ ap (mpz_add a)
          (sym (add_assoc b c d) ∙ ap (λ t. mpz_add t d) (add_comm b c) ∙ add_assoc c b d)
      ∙ sym (add_assoc a c (mpz_add b d))

  -- (a + b) + c = (a + c) + b
  pub add_right_comm : (a b c : Z) → mpz_add (mpz_add a b) c ≡ mpz_add (mpz_add a c) b
  add_right_comm a b c = add_assoc a b c ∙ ap (mpz_add a) (add_comm b c) ∙ sym (add_assoc a c b)

  zero_of_double : (a : Z) → mpz_add a a ≡ a → a ≡ zero_z
  zero_of_double a h =
      sym (add_zero a)
      ∙ ap (mpz_add a) (sym (add_neg a))
      ∙ sym (add_assoc a a (mpz_neg a))
      ∙ ap (λ t. mpz_add t (mpz_neg a)) h
      ∙ add_neg a

  pub mul_zero : (a : Z) → mpz_mul a zero_z ≡ zero_z
  mul_zero a =
      zero_of_double (mpz_mul a zero_z)
        (sym (mul_add a zero_z zero_z) ∙ ap (mpz_mul a) (add_zero zero_z))
