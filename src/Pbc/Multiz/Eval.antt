-- ===== src/Pbc/Multiz/Eval.antt =====
-- The arithmetic of arith/multiz.c against the values of multinomials at integers.
use dumbo_ms.Prelude.{ℕ, suc, ◌≡◌, refl, sym, ap, ap₂, ◌∙◌}
use dumbo_ms.Pbc.Mpz.{Mpz}
use dumbo_ms.Pbc.Mpz.Sums.{zero_add, interchange}
use dumbo_ms.Pbc.Multiz.{
  Multiz, Items, num, arr, nil, cons, unary, unary_items, clone, update_first, update_first_items,
  bin_left, bin_right, rest_left, rest_right, bin, bin_items, multiz_new_add,
}

module _ {Z : Type 0} where
  unfoldable mutual
    -- Every list of the tree has an item.
    pub Proper : Multiz Z → Type 0
    Proper (num z) = Unit {0}
    Proper (arr xs) = NonEmpty xs × ProperItems xs

    pub NonEmpty : Items Z → Type 0
    NonEmpty nil = ⊥
    NonEmpty (cons x xs) = Unit {0}

    pub ProperItems : Items Z → Type 0
    ProperItems nil = Unit {0}
    ProperItems (cons x xs) = Proper x × ProperItems xs

  mutual
    unfolding unary

    unary_self : (m : Multiz Z) → unary (λ z. z) m ≡ m
    unary_self (num z) = refl
    unary_self (arr xs) = ap arr (unary_items_self xs)

    unary_items_self : (xs : Items Z) → unary_items (λ z. z) xs ≡ xs
    unary_items_self nil = refl
    unary_items_self (cons x xs) = ap₂ cons (unary_self x) (unary_items_self xs)

  pub clone_self : (m : Multiz Z) → clone m ≡ m
  unfolding clone
  clone_self m = unary_self m

-- The point: a value for the variable of each depth.
module _ {Z : Type 0} (g : Mpz Z) (point : ℕ → Z) where
  open g use {
    zero_z, mpz_add, mpz_sub, mpz_mul, mpz_neg, add_assoc, add_comm, add_zero, add_neg, sub_lem,
    mul_add,
  }

  unfoldable mutual
    -- [[1, 2], 3] is (1 + 2y) + 3x.
    pub eval : ℕ → Multiz Z → Z
    eval d (num z) = z
    eval d (arr xs) = eval_items d xs

    pub eval_items : ℕ → Items Z → Z
    eval_items d nil = zero_z
    eval_items d (cons x xs) = mpz_add (eval (suc d) x) (mpz_mul (point d) (eval_items d xs))

  mutual
    unfolding update_first eval Proper

    eval-update_first :
        (a : Z) (d : ℕ) (m : Multiz Z)
        → Proper m
        → eval d (update_first (λ z. mpz_add a z) m) ≡ mpz_add a (eval d m)
    eval-update_first a d (num z) h = refl
    eval-update_first a d (arr xs) h = eval-update_first_items a d xs h.0 h.1

    eval-update_first_items :
        (a : Z) (d : ℕ) (xs : Items Z)
        → NonEmpty xs
        → ProperItems xs
        → eval_items d (update_first_items (λ z. mpz_add a z) xs) ≡ mpz_add a (eval_items d xs)
    eval-update_first_items a d nil n h = absurd n
    eval-update_first_items a d (cons x xs) n h =
        ap (λ t. mpz_add t (mpz_mul (point d) (eval_items d xs)))
          (eval-update_first a (suc d) x h.0)
        ∙ add_assoc a (eval (suc d) x) (mpz_mul (point d) (eval_items d xs))

  eval-bin_left :
      (a : Z) (d : ℕ) (m : Multiz Z)
      → Proper m
      → eval d (bin_left mpz_add a m) ≡ mpz_add a (eval d m)
  unfolding bin_left eval
  eval-bin_left a d (num b) h = refl
  eval-bin_left a d (arr ys) h =
      ap (λ t. eval d (update_first (λ z. mpz_add a z) t)) (clone_self (arr ys))
      ∙ eval-update_first a d (arr ys) h

  eval-bin_right :
      (b : Z) (d : ℕ) (m : Multiz Z)
      → Proper m
      → eval d (bin_right mpz_add m b) ≡ mpz_add (eval d m) b
  unfolding bin_right eval
  eval-bin_right b d (num a) h = refl
  eval-bin_right b d (arr xs) h =
      ap (λ t. eval d (update_first (λ z. mpz_add b z) t)) (clone_self (arr xs))
      ∙ eval-update_first b d (arr xs) h
      ∙ add_comm b (eval d (arr xs))

  eval-rest_left :
      (d : ℕ) (ys : Items Z)
      → ProperItems ys
      → eval_items d (rest_left mpz_add zero_z ys) ≡ eval_items d ys
  unfolding rest_left eval Proper
  eval-rest_left d nil h = refl
  eval-rest_left d (cons y ys) h =
      ap₂ (λ s t. mpz_add s (mpz_mul (point d) t))
        (eval-bin_left zero_z (suc d) y h.0 ∙ zero_add g (eval (suc d) y)) (eval-rest_left d ys h.1)

  eval-rest_right :
      (d : ℕ) (xs : Items Z)
      → ProperItems xs
      → eval_items d (rest_right mpz_add zero_z xs) ≡ eval_items d xs
  unfolding rest_right eval Proper
  eval-rest_right d nil h = refl
  eval-rest_right d (cons x xs) h =
      ap₂ (λ s t. mpz_add s (mpz_mul (point d) t))
        (eval-bin_right zero_z (suc d) x h.0 ∙ add_zero (eval (suc d) x)) (eval-rest_right d xs h.1)

  mutual
    unfolding bin eval Proper

    eval-bin :
        (d : ℕ) (a b : Multiz Z)
        → Proper a
        → Proper b
        → eval d (bin mpz_add zero_z a b) ≡ mpz_add (eval d a) (eval d b)
    eval-bin d (num a) b h k = eval-bin_left a d b k
    eval-bin d (arr xs) (num b) h k = eval-bin_right b d (arr xs) h
    eval-bin d (arr xs) (arr ys) h k = eval-bin_items d xs ys h.1 k.1

    eval-bin_items :
        (d : ℕ) (xs ys : Items Z)
        → ProperItems xs
        → ProperItems ys
        → eval_items d (bin_items mpz_add zero_z xs ys)
          ≡ mpz_add (eval_items d xs) (eval_items d ys)
    eval-bin_items d nil ys h k = eval-rest_left d ys k ∙ sym (zero_add g (eval_items d ys))
    eval-bin_items d (cons x xs) nil h k =
        eval-rest_right d (cons x xs) h ∙ sym (add_zero (eval_items d (cons x xs)))
    eval-bin_items d (cons x xs) (cons y ys) h k =
        ap₂ (λ s t. mpz_add s (mpz_mul (point d) t)) (eval-bin (suc d) x y h.0 k.0)
          (eval-bin_items d xs ys h.1 k.1)
        ∙ ap (mpz_add (mpz_add (eval (suc d) x) (eval (suc d) y)))
            (mul_add (point d) (eval_items d xs) (eval_items d ys))
        ∙ interchange g (eval (suc d) x) (eval (suc d) y) (mpz_mul (point d) (eval_items d xs))
            (mpz_mul (point d) (eval_items d ys))

  -- `multiz_new_add` adds the values of proper multinomials at every point, whatever their shapes.
  pub multiz_new_add-eval :
      (d : ℕ) (a b : Multiz Z)
      → Proper a
      → Proper b
      → eval d (multiz_new_add g a b) ≡ mpz_add (eval d a) (eval d b)
  unfolding multiz_new_add
  multiz_new_add-eval d a b h k = eval-bin d a b h k
