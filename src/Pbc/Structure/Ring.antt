-- ===== src/Pbc/Structure/Ring.antt =====
-- The laws of a commutative ring for the operations of a structure, and what follows from them.
use dumbo_ms.Prelude.{◌≡◌, sym, ap, ap₂, ◌∙◌}
use dumbo_ms.Pbc.Structure.{Structure}

pub record IsRing {E : Type 0} (o : Structure E) : Type 0 where
  pub add_assoc : (a b c : E) → o.add (o.add a b) c ≡ o.add a (o.add b c)
  pub add_comm : (a b : E) → o.add a b ≡ o.add b a
  pub add_zero : (a : E) → o.add a o.set0 ≡ a
  pub add_neg : (a : E) → o.add a (o.neg a) ≡ o.set0
  pub mul_assoc : (a b c : E) → o.mul (o.mul a b) c ≡ o.mul a (o.mul b c)
  pub mul_comm : (a b : E) → o.mul a b ≡ o.mul b a
  pub mul_one : (a : E) → o.mul a o.set1 ≡ a
  pub mul_add : (a b c : E) → o.mul a (o.add b c) ≡ o.add (o.mul a b) (o.mul a c)
  pub sub_lem : (a b : E) → o.sub a b ≡ o.add a (o.neg b)
  pub double_lem : (a : E) → o.double a ≡ o.add a a
  pub square_lem : (a : E) → o.square a ≡ o.mul a a

module _ {E : Type 0} {o : Structure E} (r : IsRing o) where
  open o use {set0, set1, add, sub, neg, mul}

  pub add_assoc : (a b c : E) → add (add a b) c ≡ add a (add b c)
  add_assoc = r.add_assoc

  pub add_comm : (a b : E) → add a b ≡ add b a
  add_comm = r.add_comm

  pub mul_assoc : (a b c : E) → mul (mul a b) c ≡ mul a (mul b c)
  mul_assoc = r.mul_assoc

  pub mul_comm : (a b : E) → mul a b ≡ mul b a
  mul_comm = r.mul_comm

  pub mul_add : (a b c : E) → mul a (add b c) ≡ add (mul a b) (mul a c)
  mul_add = r.mul_add

  pub add_left_comm : (a b c : E) → add a (add b c) ≡ add b (add a c)
  add_left_comm a b c =
      sym (r.add_assoc a b c) ∙ ap (λ t. add t c) (r.add_comm a b) ∙ r.add_assoc b a c

  pub mul_left_comm : (a b c : E) → mul a (mul b c) ≡ mul b (mul a c)
  mul_left_comm a b c =
      sym (r.mul_assoc a b c) ∙ ap (λ t. mul t c) (r.mul_comm a b) ∙ r.mul_assoc b a c

  pub add_mul : (a b c : E) → mul (add a b) c ≡ add (mul a c) (mul b c)
  add_mul a b c =
      r.mul_comm (add a b) c ∙ r.mul_add c a b ∙ ap₂ add (r.mul_comm c a) (r.mul_comm c b)

  pub zero_add : (a : E) → add set0 a ≡ a
  zero_add a = r.add_comm set0 a ∙ r.add_zero a

  pub one_mul : (a : E) → mul set1 a ≡ a
  one_mul a = r.mul_comm set1 a ∙ r.mul_one a

  -- What is added on both sides can be left out.
  pub add_cancel : (a b c : E) → add a c ≡ add b c → a ≡ b
  add_cancel a b c h = sym (back a) ∙ ap (λ t. add t (neg c)) h ∙ back b
    where
      back : (x : E) → add (add x c) (neg c) ≡ x
      back x = r.add_assoc x c (neg c) ∙ ap (add x) (r.add_neg c) ∙ r.add_zero x

  pub sub_add : (a b : E) → add (sub a b) b ≡ a
  sub_add a b =
      ap (λ t. add t b) (r.sub_lem a b)
      ∙ r.add_assoc a (neg b) b
      ∙ ap (add a) (r.add_comm (neg b) b ∙ r.add_neg b)
      ∙ r.add_zero a

  -- A difference is the one solution of its equation.
  pub sub_of_add : (a b c : E) → add a b ≡ c → sub c b ≡ a
  sub_of_add a b c h = add_cancel (sub c b) a b (sub_add c b ∙ sym h)

  pub mul_zero : (a : E) → mul a set0 ≡ set0
  mul_zero a =
      add_cancel (mul a set0) set0 (mul a set0)
        (sym (r.mul_add a set0 set0) ∙ ap (mul a) (r.add_zero set0) ∙ sym (zero_add (mul a set0)))

  pub zero_mul : (a : E) → mul set0 a ≡ set0
  zero_mul a = r.mul_comm set0 a ∙ mul_zero a

  -- A negative is the one solution of its equation.
  pub neg_of_add : (a b : E) → add a b ≡ set0 → neg b ≡ a
  neg_of_add a b h = add_cancel (neg b) a b (r.add_comm (neg b) b ∙ r.add_neg b ∙ sym h)

  pub neg_mul : (a b : E) → mul (neg a) b ≡ neg (mul a b)
  neg_mul a b = sym (
      neg_of_add (mul (neg a) b) (mul a b) (
        sym (add_mul (neg a) a b)
        ∙ ap (λ t. mul t b) (r.add_comm (neg a) a ∙ r.add_neg a)
        ∙ zero_mul b))

  pub mul_neg : (a b : E) → mul a (neg b) ≡ neg (mul a b)
  mul_neg a b = r.mul_comm a (neg b) ∙ neg_mul b a ∙ ap neg (r.mul_comm b a)

  pub neg_neg : (a : E) → neg (neg a) ≡ a
  neg_neg a = neg_of_add a (neg a) (r.add_neg a)

  pub neg_add : (a b : E) → neg (add a b) ≡ add (neg a) (neg b)
  neg_add a b = neg_of_add (add (neg a) (neg b)) (add a b) (
      r.add_assoc (neg a) (neg b) (add a b)
      ∙ ap (add (neg a)) (
          add_left_comm (neg b) a b
          ∙ ap (add a) (r.add_comm (neg b) b ∙ r.add_neg b)
          ∙ r.add_zero a)
      ∙ r.add_comm (neg a) a
      ∙ r.add_neg a)

  pub neg_mul_add : (a b : E) → add (neg (mul a b)) (mul a b) ≡ set0
  neg_mul_add a b = r.add_comm (neg (mul a b)) (mul a b) ∙ r.add_neg (mul a b)

  pub mul_sub : (a b c : E) → mul a (o.sub b c) ≡ o.sub (mul a b) (mul a c)
  mul_sub a b c =
      ap (mul a) (r.sub_lem b c)
      ∙ r.mul_add a b (neg c)
      ∙ ap (add (mul a b)) (mul_neg a c)
      ∙ sym (r.sub_lem (mul a b) (mul a c))

-- Sums of products in one order.
pub ruleset ring =
    (add_assoc, add_comm, add_left_comm, mul_assoc, mul_comm, mul_left_comm, mul_add, add_mul)

module _ {E : Type 0} {o : Structure E} (r : IsRing o) where
  open o use {set0, add, sub, neg, mul}

  interchange : (a b c d : E) → add (add a b) (add c d) ≡ add (add a c) (add b d)
  interchange a b c d = simp (ring, r)

  -- (a + b)(a - b) = a^2 - b^2
  pub sum_times_difference : (a b : E) → mul (add a b) (sub a b) ≡ add (mul a a) (neg (mul b b))
  sum_times_difference a b =
      mul_sub r (add a b) a b
      ∙ sub_of_add r (add (mul a a) (neg (mul b b))) (mul (add a b) b) (mul (add a b) a) (
          ap (add (add (mul a a) (neg (mul b b)))) (add_mul r a b b)
          ∙ interchange (mul a a) (neg (mul b b)) (mul a b) (mul b b)
          ∙ ap (add (add (mul a a) (mul a b))) (neg_mul_add r b b)
          ∙ r.add_zero (add (mul a a) (mul a b))
          ∙ simp (ring, r))

  -- a - (a - b) = b
  pub difference_twice : (a b : E) → add a (neg (add a (neg b))) ≡ b
  difference_twice a b =
      ap (add a) (neg_add r a (neg b) ∙ ap (add (neg a)) (neg_neg r b))
      ∙ sym (r.add_assoc a (neg a) b)
      ∙ ap (λ t. add t b) (r.add_neg a)
      ∙ zero_add r b
