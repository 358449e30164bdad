-- ===== src/Pbc/PolyMod.antt =====
-- Polynomials modulo a polynomial, arith/poly.c: an element is the array of its n coefficients,
-- for a modulus of degree n. `xpwr` holds x^n, .., x^(2n-1) reduced, for the products.
pub mod Powers
pub mod Multiply
use dumbo_ms.Prelude.{
  ℕ, zero, suc, ◌+◌, ◌-◌, ◌*◌, Bool, true, false, not, ◌&&◌, List, [], ◌∷◌, ◌++◌, map, length,
  get_or, replicate, take, drop, Option, none, some, if◌then◌else◌,
}
use dumbo_ms.Pbc.Structure.{Structure, Integer, Parsed}
use dumbo_ms.Pbc.Poly.{Poly, poly_remove_leading_zeroes, bytes_of, coeffs_from_bytes}
use dumbo_ms.Pbc.Poly.Divide.{poly_invert}

-- `mfptr`
pub record Modulus (E : Type 0) : Type 0 where
  pub n : ℕ
  pub poly : Poly E
  pub xpwr : List (Poly E)

-- The two halves of a product before it is reduced.
pub record Halves (E : Type 0) : Type 0 where
  pub dst : Poly E
  pub high : Poly E

module _ {E : Type 0} (o : Structure E) where
  unfoldable pub poly_to_polymod_truncate : ℕ → Poly E → Poly E
  poly_to_polymod_truncate n f = take n f ++ replicate (n - length f) o.set0

  unfoldable pub polymod_to_poly : Poly E → Poly E
  unfolding poly_remove_leading_zeroes
  polymod_to_poly e = poly_remove_leading_zeroes o e

  unfoldable pub polymod_neg : Poly E → Poly E
  polymod_neg f = map o.neg f

  unfoldable pub polymod_double : Poly E → Poly E
  polymod_double f = map o.double f

  unfoldable pub polymod_add : Poly E → Poly E → Poly E
  polymod_add [] fs = []
  polymod_add (e ∷ es) [] = []
  polymod_add (e ∷ es) (f ∷ fs) = o.add e f ∷ polymod_add es fs

  unfoldable pub polymod_sub : Poly E → Poly E → Poly E
  polymod_sub [] fs = []
  polymod_sub (e ∷ es) [] = []
  polymod_sub (e ∷ es) (f ∷ fs) = o.sub e f ∷ polymod_sub es fs

  unfoldable pub polymod_const_mul : E → Poly E → Poly E
  polymod_const_mul a e = map (λ c. o.mul c a) e

  unfoldable pub polymod_is0 : Poly E → Bool
  polymod_is0 [] = true
  polymod_is0 (c ∷ cs) = let rest = polymod_is0 cs in if o.is0 c then rest else false

  unfoldable pub polymod_is1 : Poly E → Bool
  unfolding polymod_is0
  polymod_is1 [] = false
  polymod_is1 (c ∷ cs) = if o.is1 c then polymod_is0 cs else false

  unfoldable pub polymod_constant : ℕ → E → Poly E
  polymod_constant zero c = []
  polymod_constant (suc n) c = c ∷ replicate n o.set0

  unfoldable pub polymod_set1 : ℕ → Poly E
  unfolding polymod_constant
  polymod_set1 n = polymod_constant n o.set1

  unfoldable pub polymod_set0 : ℕ → Poly E
  polymod_set0 n = replicate n o.set0

  -- One round of `compute_x_powers`: x times a reduced power, with pwrn for x^n.
  unfoldable pub next_power : ℕ → Poly E → Poly E → Poly E
  unfolding polymod_add polymod_const_mul
  next_power n pwrn prev =
      polymod_add (take n (o.set0 ∷ prev)) (polymod_const_mul (get_or prev (n - 1) o.set0) pwrn)

  unfoldable pub powers_from : ℕ → ℕ → Poly E → Poly E → List (Poly E)
  unfolding next_power
  powers_from zero n pwrn prev = []
  powers_from (suc rounds) n pwrn prev = prev ∷ powers_from rounds n pwrn (next_power n pwrn prev)

  unfoldable pub compute_x_powers : ℕ → Poly E → List (Poly E)
  unfolding powers_from polymod_neg poly_to_polymod_truncate
  compute_x_powers n poly =
      let pwrn = polymod_neg (poly_to_polymod_truncate n poly) in powers_from n n pwrn pwrn

  -- The part of `field_init_polymod` that sets the data of the field.
  unfoldable pub init_modulus : Poly E → Modulus E
  unfolding compute_x_powers
  init_modulus poly =
      let n = length poly - 1 in record { n = n; poly = poly; xpwr = compute_x_powers n poly }

  -- `for (j ..) ds[k + j] += c * bs[j]`
  unfoldable pub add_row : ℕ → E → Poly E → Poly E → Poly E
  add_row (suc k) c bs [] = []
  add_row (suc k) c bs (d ∷ ds) = d ∷ add_row k c bs ds
  add_row zero c [] ds = ds
  add_row zero c (b ∷ bs) [] = []
  add_row zero c (b ∷ bs) (d ∷ ds) = o.add d (o.mul c b) ∷ add_row zero c bs ds

  -- The two inner loops for one i, with c the coefficient s1[i].
  unfoldable pub mul_row : ℕ → ℕ → E → Poly E → Halves E → Halves E
  unfolding add_row
  mul_row n i c s2 h = record {
    dst = add_row i c (take (n - i) s2) h.dst;
    high = add_row 0 c (drop (n - i) s2) h.high;
  }

  unfoldable pub mul_rows : ℕ → ℕ → Poly E → Poly E → Halves E → Halves E
  unfolding mul_row
  mul_rows n i [] s2 h = h
  mul_rows n i (c ∷ cs) s2 h = mul_rows n (i + 1) cs s2 (mul_row n i c s2 h)

  -- `for (i=0; i<n-1; i++) prod += high[i] * xpwr[i]`
  unfoldable pub reduce : Poly E → List (Poly E) → Poly E → Poly E
  unfolding polymod_add polymod_const_mul
  reduce [] ps prod = prod
  reduce (h ∷ hs) [] prod = prod
  reduce (h ∷ hs) (p ∷ ps) prod = reduce hs ps (polymod_add prod (polymod_const_mul h p))

  unfoldable pub polymod_mul : Modulus E → Poly E → Poly E → Poly E
  unfolding mul_rows reduce
  polymod_mul p e f =
      let h =
        mul_rows p.n 0 e f
          (record { dst = replicate p.n o.set0; high = replicate (p.n - 1) o.set0 }) in
      reduce h.high p.xpwr h.dst

  abbrev pub or_zero : ℕ → Option (Poly E) → Option (Poly E)
  or_zero n none = none
  or_zero n (some r) = some (take n r ++ replicate (n - length r) o.set0)

  -- `pbc_die` on zero is `none`.
  unfoldable pub polymod_invert : Modulus E → Poly E → Option (Poly E)
  unfolding poly_invert polymod_to_poly
  polymod_invert p e = or_zero p.n (poly_invert o (polymod_to_poly e) p.poly)

  unfoldable pub polymod_cmp : Poly E → Poly E → Bool
  polymod_cmp [] gs = false
  polymod_cmp (f ∷ fs) [] = false
  polymod_cmp (f ∷ fs) (g ∷ gs) = let rest = polymod_cmp fs gs in if o.cmp f g then true else rest

  unfoldable pub polymod_to_bytes : Poly E → List ℕ
  unfolding bytes_of
  polymod_to_bytes f = bytes_of o f

  unfoldable pub polymod_from_bytes : ℕ → List ℕ → Parsed (Poly E)
  unfolding coeffs_from_bytes
  polymod_from_bytes n buf = coeffs_from_bytes o n buf 0
