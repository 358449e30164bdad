-- ===== src/Pbc/Structure/Halves.antt =====
-- Half sums and half differences in a ring where h is one half.
use dumbo_ms.Prelude.{◌≡◌, sym, ap, ◌∙◌}
use dumbo_ms.Pbc.Structure.{Structure}
use dumbo_ms.Pbc.Structure.Ring.{IsRing, ring, add_mul, sub_add, sub_of_add, sum_times_difference}

module _ {E : Type 0} {o : Structure E} (r : IsRing o) (h : E) (half : o.add h h ≡ o.set1) where
  open o use {add, sub, neg, mul}

  pub whole : (a : E) → add (mul a h) (mul a h) ≡ a
  whole a = sym (r.mul_add a h h) ∙ ap (mul a) half ∙ r.mul_one a

  -- (x + a)/2 - a = (x - a)/2
  pub half_difference : (x a : E) → sub (mul (add x a) h) a ≡ mul (sub x a) h
  half_difference x a = sub_of_add r (mul (sub x a) h) a (mul (add x a) h) (
      ap (add (mul (sub x a) h)) (sym (whole a))
      ∙ sym (r.add_assoc (mul (sub x a) h) (mul a h) (mul a h))
      ∙ ap (λ t. add t (mul a h)) (sym (add_mul r (sub x a) a h))
      ∙ ap (λ t. add (mul t h) (mul a h)) (sub_add r x a)
      ∙ sym (add_mul r x a h))

  -- (x + a)/2 + (x - a)/2 = x
  pub sum_of_halves : (x a : E) → add (mul (add x a) h) (mul (sub x a) h) ≡ x
  sum_of_halves x a =
      sym (add_mul r (add x a) (sub x a) h)
      ∙ ap (λ t. mul t h)
          (r.add_assoc x a (sub x a) ∙ ap (add x) (r.add_comm a (sub x a) ∙ sub_add r x a))
      ∙ add_mul r x x h
      ∙ whole x

  regroup : (u v : E) → mul (mul u h) (mul v h) ≡ mul (mul u v) (mul h h)
  regroup u v = simp (ring, r)

  -- (x + a)/2 (x - a)/2 = (x^2 - a^2)/4
  pub product_of_halves :
      (x a : E)
      → mul (mul (add x a) h) (mul (sub x a) h) ≡ mul (add (mul x x) (neg (mul a a))) (mul h h)
  product_of_halves x a =
      regroup (add x a) (sub x a) ∙ ap (λ t. mul t (mul h h)) (sum_times_difference r x a)
