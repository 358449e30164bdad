-- ===== src/Pbc/Multiz/Negate.antt =====
-- Negation and subtraction of arith/multiz.c: the first is right, the second is not where a list
-- meets an integer.
use mathlib.Core.Option.{some-injective}
use dumbo_ms.Prelude.{some, ℕ, suc, ◌≡◌, sym, ap, ap₂, ◌∙◌}
use dumbo_ms.Pbc.Mpz.{Mpz}
use dumbo_ms.Pbc.Mpz.Sums.{interchange, mul_zero, add_right_comm}
use dumbo_ms.Pbc.Multiz.{
  Multiz, Items, num, arr, nil, cons, unary, unary_items, clone, update_first, update_first_items,
  first, first_items, bin, bin_left, bin_right, multiz_new_sub, multiz_new_neg,
}
use dumbo_ms.Pbc.Multiz.Eval.{eval, eval_items, clone_self}

module _ {Z : Type 0} (g : Mpz Z) (point : ℕ → Z) where
  open g use {
    zero_z, mpz_add, mpz_sub, mpz_mul, mpz_neg, add_assoc, add_comm, add_zero, add_neg, sub_lem,
    mul_add,
  }

  mutual
    unfolding unary eval

    eval-neg :
        (d : ℕ) (m : Multiz Z)
        → mpz_add (eval g point d m) (eval g point d (unary mpz_neg m)) ≡ zero_z
    eval-neg d (num z) = add_neg z
    eval-neg d (arr xs) = eval-neg_items d xs

    eval-neg_items :
        (d : ℕ) (xs : Items Z)
        → mpz_add (eval_items g point d xs) (eval_items g point d (unary_items mpz_neg xs)) ≡ zero_z
    eval-neg_items d nil = add_zero zero_z
    eval-neg_items d (cons x xs) =
        interchange g (eval g point (suc d) x) (mpz_mul (point d) (eval_items g point d xs))
          (eval g point (suc d) (unary mpz_neg x))
          (mpz_mul (point d) (eval_items g point d (unary_items mpz_neg xs)))
        ∙ ap₂ mpz_add (eval-neg (suc d) x) (
            sym (
              mul_add (point d) (eval_items g point d xs)
                (eval_items g point d (unary_items mpz_neg xs)))
            ∙ ap (mpz_mul (point d)) (eval-neg_items d xs)
            ∙ mul_zero g (point d))
        ∙ add_zero zero_z

  -- A multinomial and its `multiz_new_neg` have values that add up to zero, at every point.
  pub multiz_new_neg-eval :
      (d : ℕ) (m : Multiz Z)
      → mpz_add (eval g point d m) (eval g point d (multiz_new_neg g m)) ≡ zero_z
  unfolding multiz_new_neg
  multiz_new_neg-eval d m = eval-neg d m

  -- A difference with the sign turned: (b - f) + 2f = f + b.
  turned : (b f : Z) → mpz_add (mpz_sub b f) (mpz_add f f) ≡ mpz_add f b
  turned b f =
      ap (λ t. mpz_add t (mpz_add f f)) (sub_lem b f)
      ∙ interchange g b (mpz_neg f) f f
      ∙ ap (mpz_add (mpz_add b f)) (add_comm (mpz_neg f) f ∙ add_neg f)
      ∙ add_zero (mpz_add b f)
      ∙ add_comm b f

  mutual
    unfolding update_first first eval

    eval-turned :
        (b f : Z) (d : ℕ) (m : Multiz Z)
        → first m ≡ some f
        → mpz_add (eval g point d (update_first (λ z. mpz_sub b z) m)) (mpz_add f f)
          ≡ mpz_add (eval g point d m) b
    eval-turned b f d (num z) h =
        ap (λ t. mpz_add (mpz_sub b t) (mpz_add f f)) (some-injective z f h)
        ∙ turned b f
        ∙ ap (λ t. mpz_add t b) (sym (some-injective z f h))
    eval-turned b f d (arr xs) h = eval-turned_items b f d xs h

    eval-turned_items :
        (b f : Z) (d : ℕ) (xs : Items Z)
        → first_items xs ≡ some f
        → mpz_add (eval_items g point d (update_first_items (λ z. mpz_sub b z) xs)) (mpz_add f f)
          ≡ mpz_add (eval_items g point d xs) b
    eval-turned_items b f d nil h = cc
    eval-turned_items b f d (cons x xs) h =
        add_right_comm g (eval g point (suc d) (update_first (λ z. mpz_sub b z) x))
          (mpz_mul (point d) (eval_items g point d xs)) (mpz_add f f)
        ∙ ap (λ t. mpz_add t (mpz_mul (point d) (eval_items g point d xs)))
            (eval-turned b f (suc d) x h)
        ∙ add_right_comm g (eval g point (suc d) x) b (mpz_mul (point d) (eval_items g point d xs))

  -- Where a list with first integer f meets an integer b, `multiz_new_sub` takes neither
  -- difference: in both orders the value of its result, plus 2f, is the value of the list plus b.
  pub multiz_new_sub_mixed-eval :
      (d : ℕ) (xs : Items Z) (b f : Z)
      → first (arr xs) ≡ some f
      → (mpz_add (eval g point d (multiz_new_sub g (arr xs) (num b))) (mpz_add f f)
          ≡ mpz_add (eval g point d (arr xs)) b)
        × (mpz_add (eval g point d (multiz_new_sub g (num b) (arr xs))) (mpz_add f f)
            ≡ mpz_add (eval g point d (arr xs)) b)
  unfolding multiz_new_sub bin bin_left bin_right
  multiz_new_sub_mixed-eval d xs b f h = (turned_list, turned_list)
    where
      turned_list :
          mpz_add (eval g point d (update_first (λ z. mpz_sub b z) (clone (arr xs)))) (mpz_add f f)
          ≡ mpz_add (eval g point d (arr xs)) b
      turned_list =
          ap (λ t. mpz_add (eval g point d (update_first (λ z. mpz_sub b z) t)) (mpz_add f f))
            (clone_self (arr xs))
          ∙ eval-turned b f d (arr xs) h
