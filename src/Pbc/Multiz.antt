-- ===== src/Pbc/Multiz.antt =====
-- Multinomials with integer coefficients, arith/multiz.c: an integer, or a list of multinomials.
-- A value is owned by one element, so trees stand for the pointers; a function that builds a new
-- tree returns it. An empty list is not proper: the code reads its item 0 or its last item.
pub mod Eval
pub mod Order
pub mod Negate
use dumbo_ms.Prelude.{ℕ, suc, Bool, true, false, Option, none, some, ltb, if◌then◌else◌}
use dumbo_ms.Pbc.Mpz.{Mpz, Sign, minus, naught, plus, opposite}

mutual
  -- `struct multiz_s`
  pub data Multiz (Z : Type 0) : Type 0 where
    num : Z → Multiz Z
    arr : Items Z → Multiz Z

  pub data Items (Z : Type 0) : Type 0 where
    nil : Items Z
    cons : Multiz Z → Items Z → Items Z

module _ {Z : Type 0} where
  unfoldable mutual
    -- `multiz_new_unary`, with `add_to_x` for the items.
    pub unary : (Z → Z) → Multiz Z → Multiz Z
    unary fun (num z) = num (fun z)
    unary fun (arr xs) = arr (unary_items fun xs)

    pub unary_items : (Z → Z) → Items Z → Items Z
    unary_items fun nil = nil
    unary_items fun (cons x xs) = cons (unary fun x) (unary_items fun xs)

  unfoldable pub clone : Multiz Z → Multiz Z
  unfolding unary
  clone m = unary (λ z. z) m

  unfoldable mutual
    -- `while (z->type == T_ARR) z = darray_at(z->a, 0); fun(z->z, ..);`
    pub update_first : (Z → Z) → Multiz Z → Multiz Z
    update_first fun (num z) = num (fun z)
    update_first fun (arr xs) = arr (update_first_items fun xs)

    pub update_first_items : (Z → Z) → Items Z → Items Z
    update_first_items fun nil = nil
    update_first_items fun (cons x xs) = cons (update_first fun x) xs

  unfoldable mutual
    -- `multiz_to_mpz`: the integer at the end of the chain of first items.
    pub first : Multiz Z → Option Z
    first (num z) = some z
    first (arr xs) = first_items xs

    pub first_items : Items Z → Option Z
    first_items nil = none
    first_items (cons x xs) = first x

  unfoldable mutual
    -- The leading coefficient: the chain of last items.
    pub leading : Multiz Z → Option Z
    leading (num z) = some z
    leading (arr xs) = leading_items xs

    pub leading_items : Items Z → Option Z
    leading_items nil = none
    leading_items (cons x nil) = leading x
    leading_items (cons x (cons y ys)) = leading_items (cons y ys)

  -- `multiz_new_bin` where a is an integer.
  unfoldable pub bin_left : (Z → Z → Z) → Z → Multiz Z → Multiz Z
  unfolding clone update_first
  bin_left fun a (num b) = num (fun a b)
  bin_left fun a (arr ys) = update_first (λ z. fun a z) (clone (arr ys))

  -- `multiz_new_bin` where b is an integer. The code passes b first here too.
  unfoldable pub bin_right : (Z → Z → Z) → Multiz Z → Z → Multiz Z
  unfolding clone update_first
  bin_right fun (num a) b = num (fun a b)
  bin_right fun (arr xs) b = update_first (λ z. fun b z) (clone (arr xs))

  -- `for (; i < max; i++)` where only b has items left, and where only a has.
  unfoldable pub rest_left : (Z → Z → Z) → Z → Items Z → Items Z
  unfolding bin_left
  rest_left fun zero nil = nil
  rest_left fun zero (cons y ys) = cons (bin_left fun zero y) (rest_left fun zero ys)

  unfoldable pub rest_right : (Z → Z → Z) → Z → Items Z → Items Z
  unfolding bin_right
  rest_right fun zero nil = nil
  rest_right fun zero (cons x xs) = cons (bin_right fun x zero) (rest_right fun zero xs)

  unfoldable mutual
    -- `multiz_new_bin`; `zero` is a fresh integer.
    pub bin : (Z → Z → Z) → Z → Multiz Z → Multiz Z → Multiz Z
    bin fun zero (num a) b = bin_left fun a b
    bin fun zero (arr xs) (num b) = bin_right fun (arr xs) b
    bin fun zero (arr xs) (arr ys) = arr (bin_items fun zero xs ys)

    pub bin_items : (Z → Z → Z) → Z → Items Z → Items Z → Items Z
    bin_items fun zero nil ys = rest_left fun zero ys
    bin_items fun zero (cons x xs) nil = rest_right fun zero (cons x xs)
    bin_items fun zero (cons x xs) (cons y ys) = cons (bin fun zero x y) (bin_items fun zero xs ys)

  abbrev pub count_items : Items Z → ℕ
  count_items nil = 0
  count_items (cons x xs) = suc (count_items xs)

  -- `multiz_count`: -1 is `none`.
  unfoldable pub multiz_count : Multiz Z → Option ℕ
  multiz_count (num z) = none
  multiz_count (arr xs) = some (count_items xs)

  unfoldable pub multiz_is_z : Multiz Z → Bool
  multiz_is_z (num z) = true
  multiz_is_z (arr xs) = false

-- The first sign that is not `naught`.
abbrev pub or_else : Sign → Sign → Sign
or_else naught s = s
or_else minus s = minus
or_else plus s = plus

module _ {Z : Type 0} (g : Mpz Z) where
  open g use {zero_z, mpz_add, mpz_sub, mpz_neg, mpz_sgn, mpz_cmp}

  unfoldable pub multiz_new_add : Multiz Z → Multiz Z → Multiz Z
  multiz_new_add a b = bin mpz_add zero_z a b

  unfoldable pub multiz_new_sub : Multiz Z → Multiz Z → Multiz Z
  multiz_new_sub a b = bin mpz_sub zero_z a b

  unfoldable pub multiz_new_neg : Multiz Z → Multiz Z
  multiz_new_neg a = unary mpz_neg a

  abbrev pub sign_of : Option Z → Sign
  sign_of none = naught
  sign_of (some z) = mpz_sgn z

  unfoldable pub multiz_sgn : Multiz Z → Sign
  multiz_sgn m = sign_of (first m)

  unfoldable pub lead_sign : Multiz Z → Sign
  lead_sign m = sign_of (leading m)

  unfoldable mutual
    pub multiz_cmp : Multiz Z → Multiz Z → Sign
    multiz_cmp (num a) (num b) = mpz_cmp a b
    multiz_cmp (num a) (arr ys) = opposite (lead_sign (arr ys))
    multiz_cmp (arr xs) (num b) = lead_sign (arr xs)
    multiz_cmp (arr xs) (arr ys) =
        if ltb (count_items ys) (count_items xs)
        then lead_sign (arr xs)
        else (if ltb (count_items xs) (count_items ys)
            then opposite (lead_sign (arr ys))
            else cmp_items xs ys)

    -- From the last items down, for lists of one length.
    pub cmp_items : Items Z → Items Z → Sign
    cmp_items nil ys = naught
    cmp_items (cons x xs) nil = naught
    cmp_items (cons x xs) (cons y ys) = or_else (cmp_items xs ys) (multiz_cmp x y)
