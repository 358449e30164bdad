-- ===== src/Pbc/Poly/Divide.antt =====
-- Division with remainder, the greatest common divisor and the inverse of arith/poly.c. Division
-- by the zero polynomial ends the program, `pbc_die`: that is `none`.
pub mod Rows
pub mod Remainder
pub mod Euclid
pub mod Inverse
use dumbo_ms.Prelude.{
  ℕ, zero, suc, ◌+◌, ◌-◌, Bool, true, false, List, [], ◌∷◌, map, length, get_or, Option, none, some,
  ltb, if◌then◌else◌,
}
use dumbo_ms.Pbc.Structure.{Structure}
use dumbo_ms.Pbc.Poly.{
  Poly, poly_is0, poly_remove_leading_zeroes, poly_set0, poly_set1, poly_sub, poly_mul,
  poly_const_mul,
}

pub record Division (E : Type 0) : Type 0 where
  pub quot : Poly E
  pub rem : Poly E

-- Where the extended algorithm stops: the last remainder that is not zero, and its factor of f.
pub record Last (E : Type 0) : Type 0 where
  pub gcd : Poly E
  pub factor : Poly E

module _ {E : Type 0} (o : Structure E) where
  -- `for (i=0; i<=n; i++) r[i + k] -= qe * b[i]`
  unfoldable pub sub_row : ℕ → E → Poly E → Poly E → Poly E
  sub_row (suc k) qe bs [] = []
  sub_row (suc k) qe bs (r ∷ rs) = r ∷ sub_row k qe bs rs
  sub_row zero qe [] rs = rs
  sub_row zero qe (b ∷ bs) [] = []
  sub_row zero qe (b ∷ bs) (r ∷ rs) = o.sub r (o.mul qe b) ∷ sub_row zero qe bs rs

  -- `while (k >= 0) ..` for k + 1 rounds; m is n + k. The quotient is filled from its end.
  unfoldable pub div_loop : ℕ → ℕ → E → Poly E → Poly E → Poly E → Division E
  unfolding sub_row
  div_loop zero n binv b r q = record { quot = q; rem = r }
  div_loop (suc k) n binv b r q =
      let qe = o.mul binv (get_or r (n + k) o.set0) in
      div_loop k n binv b (sub_row k qe b r) (qe ∷ q)

  abbrev pub stripped : Division E → Division E
  stripped d = record { quot = d.quot; rem = poly_remove_leading_zeroes o d.rem }

  -- For degrees n of b and m of a, m + 1 - n rounds.
  unfoldable pub div_degrees : ℕ → Poly E → Poly E → Division E
  unfolding div_loop
  div_degrees n a b =
      if ltb (length a) (suc n)
      then record { quot = poly_set0 o; rem = a }
      else stripped (div_loop (length a - n) n (o.invert (get_or b n o.set0)) b a [])

  unfoldable pub poly_div : Poly E → Poly E → Option (Division E)
  unfolding div_degrees
  poly_div a [] = none
  poly_div a (b ∷ bs) = some (div_degrees (length bs) a (b ∷ bs))

  -- The loop of `poly_gcd`, on fuel.
  unfoldable pub gcd_loop : ℕ → Poly E → Poly E → Option (Poly E)
  gcd_loop zero a b = none
  gcd_loop (suc fuel) a b = elim (poly_div a b) [
    | none ↦ none
    | some d ↦ if poly_is0 o d.rem then some b else gcd_loop fuel b d.rem
  ]

  -- Every remainder is shorter than the divisor before it.
  unfoldable pub poly_gcd : Poly E → Poly E → Option (Poly E)
  unfolding gcd_loop
  poly_gcd f g = gcd_loop (length g) f g

  -- The loop of `poly_invert`, on fuel.
  unfoldable pub invert_loop : ℕ → Poly E → Poly E → Poly E → Poly E → Option (Last E)
  invert_loop zero b0 b1 r0 r1 = none
  invert_loop (suc fuel) b0 b1 r0 r1 = elim (poly_div r0 r1) [
    | none ↦ none
    | some d ↦
        if poly_is0 o d.rem
        then some (record { gcd = r1; factor = b1 })
        else invert_loop fuel b1 (poly_sub o b0 (poly_mul o b1 d.quot)) r1 d.rem
  ]

  unfoldable pub euclid : Poly E → Poly E → Option (Last E)
  unfolding invert_loop
  euclid f m = invert_loop (length f) (poly_set0 o) (poly_set1 o) m f

  abbrev pub scaled : Option (Last E) → Option (Poly E)
  scaled none = none
  scaled (some l) = some (poly_const_mul o (o.invert (get_or l.gcd 0 o.set0)) l.factor)

  unfoldable pub poly_invert : Poly E → Poly E → Option (Poly E)
  unfolding euclid
  poly_invert f m = scaled (euclid f m)

  abbrev pub monic_items : E → Poly E → Poly E
  monic_items c [] = []
  monic_items c (g ∷ []) = o.set1 ∷ []
  monic_items c (g ∷ h ∷ hs) = o.mul g c ∷ monic_items c (h ∷ hs)

  unfoldable pub poly_make_monic : Poly E → Poly E
  poly_make_monic g = monic_items (o.invert (get_or g (length g - 1) o.set0)) g
