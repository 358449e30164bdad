-- ===== src/Pbc/Quadratic/BaseRoot.antt =====
-- Where `fq_sqrt` of arith/fieldquadratic.c fails: at the elements of the base that have no root
-- there.
use dumbo_ms.Prelude.{◌≡◌, ◌≢◌, inl, inr, true, false, Bool-cases, sym, ap, ap₂, ◌∙◌}
use dumbo_ms.Pbc.Structure.{Structure}
use dumbo_ms.Pbc.Structure.Ring.{IsRing, ring, mul_zero, zero_mul, zero_add, neg_of_add}
use dumbo_ms.Pbc.Structure.Units.{IsField, zero_or_not, ne_zero_mul}
use dumbo_ms.Pbc.Structure.Halves.{half_difference, sum_of_halves}
use dumbo_ms.Pbc.Structure.Roots.{HasRoots}
use dumbo_ms.Pbc.Quadratic.{Quad, quad, fq_mul, fq_norm, fq_sqrt, fq_is_sqr, root_from}
use dumbo_ms.Pbc.Quadratic.Semiring.{fq_mul-product}
use dumbo_ms.Pbc.Quadratic.Inverse.{norm_parts}
use dumbo_ms.Pbc.Quadratic.Root.{h, half, part, parts_product, zero_is_sqr, nqr-ne_zero}

module _ {E : Type 0} {o : Structure E} (roots : HasRoots o) (nqr : E) where
  open o use {set0, set1, add, sub, neg, mul, invert, is_sqr}

  f : IsField o
  f = roots.is_field

  r : IsRing o
  r = f.is_ring

  part_zero : (e : Quad E) → e.y ≡ set0 → part roots nqr e ≡ set0
  part_zero e k =
      ap (λ t. mul (mul t e.y) nqr) k ∙ ap (λ t. mul t nqr) (zero_mul r e.y) ∙ zero_mul r nqr

  norm_is_sqr : (e : Quad E) → e.y ≡ set0 → is_sqr (fq_norm o nqr e) ≡ true
  norm_is_sqr e k =
      ap is_sqr (
        norm_parts r nqr e
        ∙ ap (λ t. add (mul e.x e.x) (neg t)) (part_zero e k)
        ∙ ap (add (mul e.x e.x)) (neg_of_add r set0 set0 (r.add_zero set0))
        ∙ r.add_zero (mul e.x e.x))
      ∙ roots.square_is_sqr e.x

  -- Of two elements with product zero and a sum that is no square, the one that is a square is
  -- zero.
  zero_of_square :
      (p q b : E) → add p q ≡ b → mul p q ≡ set0 → is_sqr b ≡ false → is_sqr p ≡ true → p ≡ set0
  zero_of_square p q b sum prod n t = elim (zero_or_not f p) [
    | inl z ↦ z
    | inr z ↦ elim (zero_or_not f q) [
      | inl w ↦
          let g : is_sqr p ≡ is_sqr b = ap is_sqr (sym (ap (add p) w ∙ r.add_zero p) ∙ sum) in
          let c : ⊥ = cc in absurd c
      | inr w ↦ absurd (ne_zero_mul f p q z w prod)
    ]
  ]

  other_of_non_square : (p q : E) → mul p q ≡ set0 → is_sqr p ≡ false → q ≡ set0
  other_of_non_square p q prod n = elim (zero_or_not f q) [
    | inl w ↦ w
    | inr w ↦ elim (zero_or_not f p) [
      | inl z ↦
          let g : is_sqr p ≡ true = ap is_sqr z ∙ zero_is_sqr roots nqr in
          let c : ⊥ = cc in absurd c
      | inr z ↦ absurd (ne_zero_mul f p q z w prod)
    ]
  ]

  -- The square of a pair (s, 0) with s^2 = 0.
  square_x : (s y : E) → mul s s ≡ set0 → y ≡ set0 → (fq_mul o nqr (quad s y) (quad s y)).x ≡ set0
  square_x s y h k =
      ap (λ t. t.x) (fq_mul-product r nqr (quad s y) (quad s y))
      ∙ ap₂ add h
          (ap (λ t. mul (mul t y) nqr) k ∙ ap (λ t. mul t nqr) (zero_mul r y) ∙ zero_mul r nqr)
      ∙ r.add_zero set0

  root_zero : (a : E) → a ≡ set0 → mul (o.sqrt a) (o.sqrt a) ≡ set0
  root_zero a z = roots.sqrt_lem a (ap is_sqr z ∙ zero_is_sqr roots nqr) ∙ z

  -- The pair that `fq_sqrt` ends with has a square with first part zero.
  result_x :
      (e : Quad E)
      → e.y ≡ set0
      → is_sqr e.x ≡ false
      → (fq_mul o nqr (fq_sqrt o nqr e) (fq_sqrt o nqr e)).x ≡ set0
  unfolding fq_sqrt root_from
  result_x e k n = elim (Bool-cases (is_sqr p)) [
    | inl t ↦ rw t (squared p (zero_of_square p q e.x sum prod n t))
    | inr t ↦
        rw (t, half_difference r (h roots nqr) (half roots nqr) e.x a)
          (squared q (other_of_non_square p q prod t))
  ]
    where
      a : E
      a = o.sqrt (fq_norm o nqr e)

      p : E
      p = mul (add e.x a) (h roots nqr)

      q : E
      q = mul (sub e.x a) (h roots nqr)

      sum : add p q ≡ e.x
      sum = sum_of_halves r (h roots nqr) (half roots nqr) e.x a

      prod : mul p q ≡ set0
      prod =
          parts_product roots nqr e a (roots.sqrt_lem (fq_norm o nqr e) (norm_is_sqr e k))
          ∙ ap (λ t. mul t (mul (h roots nqr) (h roots nqr))) (part_zero e k)
          ∙ zero_mul r (mul (h roots nqr) (h roots nqr))

      squared :
          (b : E)
          → b ≡ set0
          → (fq_mul o nqr
              (quad (o.sqrt b) (mul e.y (invert (add (o.sqrt b) (o.sqrt b)))))
              (quad (o.sqrt b) (mul e.y (invert (add (o.sqrt b) (o.sqrt b)))))).x
            ≡ set0
      squared b z =
          square_x (o.sqrt b) (mul e.y (invert (add (o.sqrt b) (o.sqrt b)))) (root_zero b z) (
            ap (λ t. mul t (invert (add (o.sqrt b) (o.sqrt b)))) k
            ∙ zero_mul r (invert (add (o.sqrt b) (o.sqrt b))))

  quotient_square :
      (v i : E) → mul (mul (mul v i) (mul v i)) nqr ≡ mul (mul v v) (mul i (mul nqr i))
  quotient_square v i = simp (ring, r)

  cancelled : (b n i : E) → mul (mul b n) (mul i (mul n i)) ≡ mul (mul b (mul n i)) (mul n i)
  cancelled b n i = simp (ring, r)

  -- The root is a multiple of a.
  root_of_base :
      (e : Quad E)
      → e.y ≡ set0
      → is_sqr e.x ≡ false
      → is_sqr nqr ≡ false
      → fq_mul o nqr
          (quad set0 (mul (o.sqrt (mul e.x nqr)) (invert nqr)))
          (quad set0 (mul (o.sqrt (mul e.x nqr)) (invert nqr)))
        ≡ e
  root_of_base e k n m =
      fq_mul-product r nqr (quad set0 (mul v i)) (quad set0 (mul v i))
      ∙ ap₂ quad
          (ap₂ add (zero_mul r set0) (
              quotient_square v i
              ∙ ap (λ t. mul t (mul i (mul nqr i)))
                  (roots.sqrt_lem (mul e.x nqr) (roots.non_squares e.x nqr n m))
              ∙ cancelled e.x nqr i
              ∙ ap (λ t. mul (mul e.x t) t) (f.invert_lem nqr (nqr-ne_zero roots nqr m))
              ∙ r.mul_one (mul e.x set1)
              ∙ r.mul_one e.x)
            ∙ zero_add r e.x)
          (ap₂ add (zero_mul r (mul v i)) (mul_zero r (mul v i)) ∙ r.add_zero set0 ∙ sym k)
    where
      v : E
      v = o.sqrt (mul e.x nqr)

      i : E
      i = invert nqr

  -- Where the second part is zero and the first is no square, `fq_sqrt` returns a pair that is no
  -- root, though there is one and `fq_is_sqr` accepts the pair.
  pub fq_sqrt_base-ne :
      (e : Quad E)
      → e.y ≡ set0
      → is_sqr e.x ≡ false
      → is_sqr nqr ≡ false
      → (fq_mul o nqr (fq_sqrt o nqr e) (fq_sqrt o nqr e) ≢ e)
        × (fq_is_sqr o nqr e ≡ true)
        × ((w : Quad E) × (fq_mul o nqr w w ≡ e))
  unfolding fq_is_sqr
  fq_sqrt_base-ne e k n m = (
    (λ c.
        let g : is_sqr e.x ≡ true =
          ap is_sqr (sym (ap (λ t. t.x) c) ∙ result_x e k n) ∙ zero_is_sqr roots nqr in
        cc),
    norm_is_sqr e k,
    (quad set0 (mul (o.sqrt (mul e.x nqr)) (invert nqr)), root_of_base e k n m),
  )
