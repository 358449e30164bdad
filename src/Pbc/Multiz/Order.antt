-- ===== src/Pbc/Multiz/Order.antt =====
-- The comparison of arith/multiz.c.
use dumbo_ms.Prelude.{◌≡◌, refl, sym, ap₂, ◌∙◌, arith}
use dumbo_ms.Pbc.Mpz.{Mpz, Sign, opposite}
use dumbo_ms.Pbc.Multiz.{
  Multiz, Items, num, arr, nil, cons, multiz_cmp, lead_sign, or_else, cmp_items,
}

opposite-opposite : (s : Sign) → opposite (opposite s) ≡ s
opposite-opposite s = ground arith

or_else-opposite : (s t : Sign) → or_else (opposite s) (opposite t) ≡ opposite (or_else s t)
or_else-opposite s t = ground arith

module _ {Z : Type 0} (g : Mpz Z) where
  mutual
    unfolding multiz_cmp

    opposite_at : (a b : Multiz Z) → multiz_cmp g b a ≡ opposite (multiz_cmp g a b)
    opposite_at (num a) (num b) = g.cmp_opposite a b
    opposite_at (num a) (arr ys) = sym (opposite-opposite (lead_sign g (arr ys)))
    opposite_at (arr xs) (num b) = refl
    opposite_at (arr xs) (arr ys) =
        ground (arith, cmp_items-opposite xs ys, opposite-opposite (lead_sign g (arr ys)))

    cmp_items-opposite : (xs ys : Items Z) → cmp_items g ys xs ≡ opposite (cmp_items g xs ys)
    cmp_items-opposite nil nil = refl
    cmp_items-opposite nil (cons y ys) = refl
    cmp_items-opposite (cons x xs) nil = refl
    cmp_items-opposite (cons x xs) (cons y ys) =
        ap₂ or_else (cmp_items-opposite xs ys) (opposite_at x y)
        ∙ or_else-opposite (cmp_items g xs ys) (multiz_cmp g x y)

  -- `multiz_cmp` with its arguments exchanged returns the opposite sign, whatever the shapes.
  pub multiz_cmp-opposite : (a b : Multiz Z) → multiz_cmp g b a ≡ opposite (multiz_cmp g a b)
  multiz_cmp-opposite a b = opposite_at a b
