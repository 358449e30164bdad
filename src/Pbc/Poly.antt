-- ===== src/Pbc/Poly.antt =====
-- Polynomial rings, arith/poly.c: a polynomial is its list of coefficients, the constant first, as
-- the dynamic array `coeff` holds them. A function that writes a polynomial through its first
-- argument returns it. An entry past the end of an array is `none`.
pub mod Eval
pub mod Shift
pub mod Trim
pub mod Product
pub mod Bytes
pub mod Divide
use dumbo_ms.Prelude.{
  ℕ, zero, suc, ◌+◌, ◌-◌, ◌*◌, ◌/◌, ◌%◌, ◌==◌, Bool, true, false, not, List, [], ◌∷◌, ◌++◌, map,
  length, get_elem?, get_or, set, replicate, take, drop, Option, none, some, if◌then◌else◌, ltb,
}
use dumbo_ms.Pbc.Mpz.{Sign, minus, naught, plus}
use dumbo_ms.Pbc.Structure.{Structure, Integer, Parsed}

abbrev pub Poly : Type 0 → Type 0
Poly E = List E

module _ {E : Type 0} (o : Structure E) where
  -- `poly_alloc`: new coefficients are zero.
  unfoldable pub poly_alloc : Poly E → ℕ → Poly E
  poly_alloc e n = take n e ++ replicate (n - length e) o.set0

  abbrev pub cons_nonzero : E → Poly E → Poly E
  cons_nonzero c [] = if o.is0 c then [] else (c ∷ [])
  cons_nonzero c (d ∷ ds) = c ∷ d ∷ ds

  -- `poly_remove_leading_zeroes`: an item goes where it and all behind it are zero.
  unfoldable pub poly_remove_leading_zeroes : Poly E → Poly E
  poly_remove_leading_zeroes [] = []
  poly_remove_leading_zeroes (c ∷ cs) = cons_nonzero c (poly_remove_leading_zeroes cs)

  abbrev pub poly_set0 : Poly E
  poly_set0 = []

  abbrev pub poly_set1 : Poly E
  poly_set1 = o.set1 ∷ []

  unfoldable pub poly_is0 : Poly E → Bool
  poly_is0 [] = true
  poly_is0 (c ∷ cs) = false

  unfoldable pub poly_is1 : Poly E → Bool
  poly_is1 [] = false
  poly_is1 (c ∷ []) = o.is1 c
  poly_is1 (c ∷ d ∷ ds) = false

  -- `poly_set_si`; with `set_mpz`, and for `element_field_to_poly`, by the value of the constant.
  unfoldable pub poly_constant : E → Poly E
  unfolding poly_remove_leading_zeroes
  poly_constant c = poly_remove_leading_zeroes (c ∷ [])

  unfoldable pub poly_set_si : Integer → Poly E
  unfolding poly_constant
  poly_set_si i = poly_constant (o.set_si i)

  unfoldable pub poly_set_mpz : Integer → Poly E
  unfolding poly_constant
  poly_set_mpz z = poly_constant (o.set_mpz z)

  -- The first sign of a coefficient that is not `naught`.
  unfoldable pub poly_sgn : Poly E → Sign
  poly_sgn [] = naught
  poly_sgn (c ∷ cs) = elim (o.sign c) [ naught ↦ poly_sgn cs | minus ↦ minus | plus ↦ plus ]

  -- The two loops of `poly_add`: over both arguments, and over the longer one.
  unfoldable pub add_items : Poly E → Poly E → Poly E
  add_items [] gs = gs
  add_items (f ∷ fs) [] = f ∷ fs
  add_items (f ∷ fs) (g ∷ gs) = o.add f g ∷ add_items fs gs

  unfoldable pub poly_add : Poly E → Poly E → Poly E
  unfolding add_items poly_remove_leading_zeroes
  poly_add f g = poly_remove_leading_zeroes (add_items f g)

  unfoldable pub sub_items : Poly E → Poly E → Poly E
  sub_items [] gs = map o.neg gs
  sub_items (f ∷ fs) [] = f ∷ fs
  sub_items (f ∷ fs) (g ∷ gs) = o.sub f g ∷ sub_items fs gs

  unfoldable pub poly_sub : Poly E → Poly E → Poly E
  unfolding sub_items poly_remove_leading_zeroes
  poly_sub f g = poly_remove_leading_zeroes (sub_items f g)

  unfoldable pub poly_neg : Poly E → Poly E
  poly_neg g = map o.neg g

  unfoldable pub poly_double : Poly E → Poly E
  poly_double g = map o.double g

  unfoldable pub poly_mul_mpz : Poly E → Integer → Poly E
  poly_mul_mpz g z = map (λ c. o.mul_mpz c z) g

  unfoldable pub poly_mul_si : Poly E → Integer → Poly E
  poly_mul_si g z = map (λ c. o.mul_si c z) g

  unfoldable pub poly_const_mul : E → Poly E → Poly E
  unfolding poly_remove_leading_zeroes
  poly_const_mul a g = poly_remove_leading_zeroes (map (o.mul a) g)

  -- `if (j < fcount && i - j < gcount) ..` for a coefficient c of f; i is i - j.
  abbrev pub add_term : E → E → Option E → E
  add_term c x none = x
  add_term c x (some d) = o.add x (o.mul c d)

  -- The loop over j for one coefficient of the product.
  unfoldable pub coeff_loop : Poly E → Poly E → ℕ → E → E
  coeff_loop [] g i x = x
  coeff_loop (c ∷ cs) g zero x = add_term c x (get_elem? g 0)
  coeff_loop (c ∷ cs) g (suc i) x = coeff_loop cs g i (add_term c x (get_elem? g (suc i)))

  -- `for (i=0; i<n; i++) x[i] = h(i)`
  abbrev pub items_of : (ℕ → E) → ℕ → Poly E
  items_of h zero = []
  items_of h (suc n) = h 0 ∷ items_of (λ i. h (suc i)) n

  unfoldable pub poly_mul : Poly E → Poly E → Poly E
  unfolding coeff_loop poly_remove_leading_zeroes
  poly_mul [] gs = []
  poly_mul (f ∷ fs) [] = []
  poly_mul (f ∷ fs) (g ∷ gs) = poly_remove_leading_zeroes (
      items_of (λ i. coeff_loop (f ∷ fs) (g ∷ gs) i o.set0) (length (f ∷ fs) + length (g ∷ gs) - 1))

  unfoldable pub poly_cmp : Poly E → Poly E → Bool
  poly_cmp [] [] = false
  poly_cmp [] (g ∷ gs) = true
  poly_cmp (f ∷ fs) [] = true
  poly_cmp (f ∷ fs) (g ∷ gs) = let rest = poly_cmp fs gs in if o.cmp f g then true else rest

  unfoldable pub bytes_of : Poly E → List ℕ
  bytes_of [] = []
  bytes_of (c ∷ cs) = o.to_bytes c ++ bytes_of cs

  -- Two bytes for the count, the lower first.
  unfoldable pub poly_to_bytes : Poly E → List ℕ
  unfolding bytes_of
  poly_to_bytes p = length p % 256 ∷ length p / 256 % 256 ∷ bytes_of p

  unfoldable pub poly_length_in_bytes : Poly E → ℕ
  poly_length_in_bytes [] = 2
  poly_length_in_bytes (c ∷ cs) = poly_length_in_bytes cs + o.length_in_bytes c

  unfoldable pub coeffs_from_bytes : ℕ → List ℕ → ℕ → Parsed (Poly E)
  coeffs_from_bytes zero buf result = record { value = []; len = result }
  coeffs_from_bytes (suc count) buf result =
      let p = o.from_bytes buf in
      let rest = coeffs_from_bytes count (drop p.len buf) (result + p.len) in
      record { value = p.value ∷ rest.value; len = rest.len }

  unfoldable pub poly_from_bytes : List ℕ → Parsed (Poly E)
  unfolding coeffs_from_bytes
  poly_from_bytes buf = coeffs_from_bytes (get_or buf 0 0 + get_or buf 1 0 * 256) (drop 2 buf) 2

  unfoldable pub poly_set_coeff : Poly E → E → ℕ → Poly E
  unfolding poly_alloc poly_remove_leading_zeroes
  poly_set_coeff e a n =
      let grown = if ltb (length e) (n + 1) then poly_alloc e (n + 1) else e in
      let written = set grown n a in
      if length written == n + 1
      then (if o.is0 a then poly_remove_leading_zeroes written else written)
      else written

  unfoldable pub poly_set_coeff0 : Poly E → ℕ → Poly E
  unfolding poly_remove_leading_zeroes
  poly_set_coeff0 e n =
      let written = set e n o.set0 in
      if ltb n (length e)
      then (if n == length e - 1 then poly_remove_leading_zeroes written else written)
      else e

  unfoldable pub poly_set_coeff1 : Poly E → ℕ → Poly E
  unfolding poly_alloc
  poly_set_coeff1 e n = set (if ltb (length e) (n + 1) then poly_alloc e (n + 1) else e) n o.set1

  abbrev pub poly_setx : Poly E
  poly_setx = o.set0 ∷ o.set1 ∷ []

  unfoldable pub poly_to_mpz : Poly E → Integer
  poly_to_mpz [] = record { negative = false; size = 0 }
  poly_to_mpz (c ∷ cs) = o.to_mpz c
