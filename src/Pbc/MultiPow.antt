-- ===== src/Pbc/MultiPow.antt =====
-- `element_pow2_mpz` and `element_pow3_mpz` of arith/field.c: a product of two or three powers by
-- one pass over the bits of the exponents.
pub mod Laws
use dumbo_ms.Prelude.{
  ℕ, zero, suc, ◌+◌, ◌-◌, ◌*◌, Bool, not, ◌&&◌, List, [], ◌∷◌, get_or, ltb, ◌==◌, if◌then◌else◌,
}
use dumbo_ms.Pbc.Gmp.{Gmp}
use dumbo_ms.Pbc.Field.{Field}

-- A bit as a condition.
abbrev pub not_zero : ℕ → Bool
not_zero b = not (b == 0)

-- `(s1 > s2) ? s1 : s2`
abbrev pub larger : ℕ → ℕ → ℕ
larger s1 s2 = if ltb s2 s1 then s1 else s2

module _ {ℓ} {E : Type ℓ} (g : Gmp) (f : Field E) where
  open g use {sizeinbase2, tstbit}
  open f use {set1, mul}

  -- The factor of a round, by the two bits.
  unfoldable pub times_bits : E → E → E → E → ℕ → ℕ → E
  times_bits result a1 a2 a1a2 b1 b2 =
      if not_zero b1 && not_zero b2
      then mul result a1a2
      else if not_zero b1
      then mul result a1
      else if not_zero b2
      then mul result a2
      else result

  -- The rounds for the bits below `bits`, from the highest down.
  unfoldable pub pow2_loop : E → ℕ → E → ℕ → E → ℕ → E → E
  unfolding times_bits
  pow2_loop a1 n1 a2 n2 a1a2 zero result = result
  pow2_loop a1 n1 a2 n2 a1a2 (suc s) result =
      pow2_loop a1 n1 a2 n2 a1a2 s
        (times_bits (mul result result) a1 a2 a1a2 (tstbit n1 s) (tstbit n2 s))

  unfoldable pub element_pow2_mpz : E → ℕ → E → ℕ → E
  unfolding pow2_loop
  element_pow2_mpz a1 n1 a2 n2 =
      if n1 == 0 && n2 == 0
      then set1
      else pow2_loop a1 n1 a2 n2 (mul a1 a2) (larger (sizeinbase2 n1 - 1) (sizeinbase2 n2 - 1) + 1)
          set1

  -- The eight products of the bases.
  unfoldable pub pow3_lookup : E → E → E → List E
  pow3_lookup a1 a2 a3 =
      set1 ∷ a1 ∷ a2 ∷ mul a1 a2 ∷ a3 ∷ mul a1 a3 ∷ mul a2 a3 ∷ mul (mul a2 a3) a1 ∷ []

  -- `result * lookup[b]` for b = b1 + (b2 << 1) + (b3 << 2)
  unfoldable pub pow3_loop : List E → ℕ → ℕ → ℕ → ℕ → E → E
  pow3_loop lookup n1 n2 n3 zero result = result
  pow3_loop lookup n1 n2 n3 (suc s) result = pow3_loop lookup n1 n2 n3 s (
      mul (mul result result)
        (get_or lookup (tstbit n1 s + tstbit n2 s * 2 + tstbit n3 s * 4) set1))

  unfoldable pub element_pow3_mpz : E → ℕ → E → ℕ → E → ℕ → E
  unfolding pow3_loop pow3_lookup
  element_pow3_mpz a1 n1 a2 n2 a3 n3 =
      let s1 = sizeinbase2 n1 - 1 in
      let s2 = sizeinbase2 n2 - 1 in
      let s3 = sizeinbase2 n3 - 1 in
      if n1 == 0 && n2 == 0 && n3 == 0
      then set1
      else pow3_loop (pow3_lookup a1 a2 a3) n1 n2 n3
          ((if ltb s2 s1 then larger s1 s3 else larger s2 s3) + 1) set1
