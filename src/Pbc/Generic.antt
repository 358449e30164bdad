-- ===== src/Pbc/Generic.antt =====
-- The default operations of arith/field.c, which `field_init` gives to every structure. Elements
-- are objects in memory here, a function from addresses to values, since the code branches on
-- whether two of its arguments are one object.
pub mod Alias
pub mod Compare
use dumbo_ms.Prelude.{ℕ, Bool, true, false, not, ◌==◌, if◌then◌else◌, List, [], ◌∷◌, ◌||◌}
use dumbo_ms.Pbc.Structure.{Structure, Integer, two}

abbrev pub write : {E : Type 0} → (ℕ → E) → ℕ → E → ℕ → E
write st c v d = if d == c then v else st d

-- Whether `memcmp` returns another value than 0.
abbrev pub memcmp : List ℕ → List ℕ → Bool
memcmp [] [] = false
memcmp [] (b ∷ bs) = true
memcmp (a ∷ xs) [] = true
memcmp (a ∷ xs) (b ∷ bs) = not (a == b) || memcmp xs bs

module _ {E : Type 0} (o : Structure E) (st : ℕ → E) where
  unfoldable pub generic_square : ℕ → ℕ → ℕ → E
  generic_square r a = write st r (o.mul (st a) (st a))

  unfoldable pub generic_mul_mpz : ℕ → ℕ → Integer → ℕ → E
  generic_mul_mpz r a z = write st r (o.mul (st a) (o.set_mpz z))

  unfoldable pub generic_mul_si : ℕ → ℕ → Integer → ℕ → E
  generic_mul_si r a n = write st r (o.mul (st a) (o.set_si n))

  unfoldable pub generic_double : ℕ → ℕ → ℕ → E
  generic_double r a = write st r (o.add (st a) (st a))

  unfoldable pub generic_halve : ℕ → ℕ → ℕ → E
  generic_halve r a = write st r (o.mul (st a) (o.invert (o.set_si two)))

  unfoldable pub generic_set_si : ℕ → Integer → ℕ → E
  generic_set_si a si = write st a (o.set_mpz si)

  unfoldable pub generic_add_ui : ℕ → ℕ → ℕ → ℕ → E
  generic_add_ui c a b =
      write st c (o.add (st a) (o.set_mpz (record { negative = false; size = b })))

  -- `c` is written before `a` is read, unless they are one object.
  unfoldable pub generic_sub : ℕ → ℕ → ℕ → ℕ → E
  generic_sub c a b =
      let first = write st c (o.neg (st b)) in
      if c == a
      then write st c (o.add (o.neg (st b)) (st a))
      else write first c (o.add (first c) (first a))

  unfoldable pub generic_div : ℕ → ℕ → ℕ → ℕ → E
  generic_div c a b =
      let first = write st c (o.invert (st b)) in
      if c == a
      then write st c (o.mul (o.invert (st b)) (st a))
      else write first c (o.mul (first c) (first a))

  -- Whether the result is not 0.
  unfoldable pub generic_cmp : ℕ → ℕ → Bool
  generic_cmp a b =
      if a == b
      then false
      else (if o.length_in_bytes (st a) == o.length_in_bytes (st b)
          then memcmp (o.to_bytes (st a)) (o.to_bytes (st b))
          else true)

  -- `element_init` makes a zero element.
  unfoldable pub generic_is0 : ℕ → Bool
  generic_is0 a = not (o.cmp (st a) o.set0)

  unfoldable pub generic_is1 : ℕ → Bool
  generic_is1 a = not (o.cmp (st a) o.set1)
