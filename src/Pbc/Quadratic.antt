-- ===== src/Pbc/Quadratic.antt =====
-- Quadratic extension fields, arith/fieldquadratic.c: pairs over a base structure, with the
-- functions `fq_x` for an extension by the root of a given element and their versions `fi_x` for
-- an extension by the root of -1. Initialisation fills in a structure of pairs.
pub mod Semiring
pub mod Rules
pub mod Inverse
pub mod Bytes
pub mod Root
pub mod BaseRoot
use dumbo_ms.Prelude.{
  ℕ, ◌+◌, ◌-◌, ◌*◌, ◌/◌, Bool, true, false, not, ◌&&◌, ◌||◌, List, ◌++◌, take, drop, length, Option,
  some, none, if◌then◌else◌,
}
use dumbo_ms.Pbc.Mpz.{Sign, minus, naught, plus}
use dumbo_ms.Pbc.Structure.{Structure, Integer, Parsed, two}

-- `eptr`: x + ya, with a the root.
pub record Quad (E : Type 0) : Type 0 where
  pub x : E
  pub y : E

abbrev pub quad : {E : Type 0} → E → E → Quad E
quad x y = record { x = x; y = y }

abbrev pub first_nonzero : Sign → Sign → Sign
first_nonzero naught t = t
first_nonzero minus t = minus
first_nonzero plus t = plus

-- The `fixed_length_in_bytes` of an extension.
abbrev pub twice : Option ℕ → Option ℕ
twice none = none
twice (some n) = some (2 * n)

module _ {E : Type 0} (o : Structure E) where
  unfoldable pub fq_set_si : Integer → Quad E
  fq_set_si i = quad (o.set_si i) o.set0

  unfoldable pub fq_set_mpz : Integer → Quad E
  fq_set_mpz z = quad (o.set_mpz z) o.set0

  unfoldable pub fq_to_mpz : Quad E → Integer
  fq_to_mpz e = o.to_mpz e.x

  unfoldable pub fq_set0 : Quad E
  fq_set0 = quad o.set0 o.set0

  unfoldable pub fq_set1 : Quad E
  fq_set1 = quad o.set1 o.set0

  unfoldable pub fq_is0 : Quad E → Bool
  fq_is0 e = o.is0 e.x && o.is0 e.y

  unfoldable pub fq_is1 : Quad E → Bool
  fq_is1 e = o.is1 e.x && o.is0 e.y

  unfoldable pub fq_sign : Quad E → Sign
  fq_sign n = first_nonzero (o.sign n.x) (o.sign n.y)

  unfoldable pub fq_cmp : Quad E → Quad E → Bool
  fq_cmp a b = o.cmp a.x b.x || o.cmp a.y b.y

  unfoldable pub fq_add : Quad E → Quad E → Quad E
  fq_add a b = quad (o.add a.x b.x) (o.add a.y b.y)

  unfoldable pub fq_double : Quad E → Quad E
  fq_double a = quad (o.double a.x) (o.double a.y)

  unfoldable pub fq_sub : Quad E → Quad E → Quad E
  fq_sub a b = quad (o.sub a.x b.x) (o.sub a.y b.y)

  unfoldable pub fq_neg : Quad E → Quad E
  fq_neg a = quad (o.neg a.x) (o.neg a.y)

  unfoldable pub fq_mul_mpz : Quad E → Integer → Quad E
  fq_mul_mpz a z = quad (o.mul_mpz a.x z) (o.mul_mpz a.y z)

  unfoldable pub fq_mul_si : Quad E → Integer → Quad E
  fq_mul_si a z = quad (o.mul_si a.x z) (o.mul_si a.y z)

  unfoldable pub fq_from_hash : List ℕ → Quad E
  fq_from_hash bytes =
      let k = length bytes / 2 in quad (o.from_hash (take k bytes)) (o.from_hash (drop k bytes))

  unfoldable pub fq_length_in_bytes : Quad E → ℕ
  fq_length_in_bytes e = o.length_in_bytes e.x + o.length_in_bytes e.y

  unfoldable pub fq_to_bytes : Quad E → List ℕ
  fq_to_bytes e = o.to_bytes e.x ++ o.to_bytes e.y

  unfoldable pub fq_from_bytes : List ℕ → Parsed (Quad E)
  fq_from_bytes bytes =
      let p = o.from_bytes bytes in
      let q = o.from_bytes (drop p.len bytes) in
      record { value = quad p.value q.value; len = p.len + q.len }

  -- `element_length_in_bytes` of the extension, which asks `fixed_length_in_bytes` first.
  unfoldable pub quad_length : Option ℕ → Quad E → ℕ
  unfolding fq_length_in_bytes
  quad_length none e = fq_length_in_bytes e
  quad_length (some n) e = 2 * n

  -- The last steps of both square roots, from e0, the root of the norm of e.
  unfoldable pub root_from : E → Quad E → Quad E
  root_from e0 e =
      let half = o.mul (o.add e.x e0) (o.invert (o.set_si two)) in
      let e1 = if o.is_sqr half then half else o.sub half e0 in
      let r = o.sqrt e1 in quad r (o.mul e.y (o.invert (o.add r r)))

  -- `element_field_to_quadratic`, `element_field_to_fi`
  unfoldable pub field_to_quadratic : E → Quad E
  field_to_quadratic a = quad a o.set0

  -- The functions on the extension by the root of -1.
  unfoldable pub fi_mul : Quad E → Quad E → Quad E
  fi_mul a b =
      let e2 = o.mul (o.add a.x a.y) (o.add b.x b.y) in
      let e0 = o.mul a.x b.x in
      let e1 = o.mul a.y b.y in quad (o.sub e0 e1) (o.sub (o.sub e2 e0) e1)

  unfoldable pub fi_square : Quad E → Quad E
  fi_square a = let e1 = o.mul a.x a.y in quad (o.mul (o.add a.x a.y) (o.sub a.x a.y)) (o.add e1 e1)

  unfoldable pub fi_invert : Quad E → Quad E
  fi_invert a =
      let e0 = o.invert (o.add (o.square a.x) (o.square a.y)) in
      quad (o.mul a.x e0) (o.mul a.y (o.neg e0))

  unfoldable pub fi_is_sqr : Quad E → Bool
  fi_is_sqr e = o.is_sqr (o.add (o.square e.x) (o.square e.y))

  unfoldable pub fi_sqrt : Quad E → Quad E
  unfolding root_from
  fi_sqrt e = root_from (o.sqrt (o.add (o.square e.x) (o.square e.y))) e

  -- The functions on the extension by the root of `nqr`, the `fq_nqr` of the field.
  module _ (nqr : E) where
    -- By Karatsuba's method.
    unfoldable pub fq_mul : Quad E → Quad E → Quad E
    fq_mul a b =
        let e2 = o.mul (o.add a.x a.y) (o.add b.x b.y) in
        let e0 = o.mul a.x b.x in
        let e1 = o.mul a.y b.y in quad (o.add (o.mul e1 nqr) e0) (o.sub (o.sub e2 e0) e1)

    unfoldable pub fq_square : Quad E → Quad E
    fq_square a = quad (o.add (o.square a.x) (o.mul (o.square a.y) nqr)) (o.double (o.mul a.x a.y))

    -- x^2 - nqr y^2
    unfoldable pub fq_norm : Quad E → E
    fq_norm a = o.sub (o.square a.x) (o.mul (o.square a.y) nqr)

    unfoldable pub fq_invert : Quad E → Quad E
    unfolding fq_norm
    fq_invert a = let e0 = o.invert (fq_norm a) in quad (o.mul a.x e0) (o.mul a.y (o.neg e0))

    unfoldable pub fq_is_sqr : Quad E → Bool
    unfolding fq_norm
    fq_is_sqr e = o.is_sqr (fq_norm e)

    unfoldable pub fq_sqrt : Quad E → Quad E
    unfolding fq_norm root_from
    fq_sqrt e = root_from (o.sqrt (fq_norm e)) e

    unfoldable pub field_init_quadratic : Structure (Quad E)
    unfolding fq_set_si fq_set_mpz fq_to_mpz fq_set0 fq_set1 fq_is0 fq_is1 fq_sign fq_cmp fq_add
        fq_double fq_sub fq_neg fq_mul_mpz fq_mul_si fq_from_hash quad_length fq_to_bytes
        fq_from_bytes fq_mul fq_square fq_invert fq_is_sqr fq_sqrt
    field_init_quadratic = record {
      set0 = fq_set0;
      set1 = fq_set1;
      set_si = fq_set_si;
      set_mpz = fq_set_mpz;
      to_mpz = fq_to_mpz;
      is0 = fq_is0;
      is1 = fq_is1;
      sign = fq_sign;
      cmp = fq_cmp;
      add = fq_add;
      double = fq_double;
      sub = fq_sub;
      neg = fq_neg;
      mul = fq_mul;
      mul_mpz = fq_mul_mpz;
      mul_si = fq_mul_si;
      square = fq_square;
      invert = fq_invert;
      is_sqr = fq_is_sqr;
      sqrt = fq_sqrt;
      from_hash = fq_from_hash;
      to_bytes = fq_to_bytes;
      from_bytes = fq_from_bytes;
      length_in_bytes = quad_length o.fixed_length_in_bytes;
      fixed_length_in_bytes = twice o.fixed_length_in_bytes;
    }

  unfoldable pub field_init_fi : Structure (Quad E)
  unfolding fq_set_si fq_set_mpz fq_to_mpz fq_set0 fq_set1 fq_is0 fq_is1 fq_sign fq_cmp fq_add
      fq_double fq_sub fq_neg fq_mul_mpz fq_mul_si fq_from_hash quad_length fq_to_bytes
      fq_from_bytes fi_mul fi_square fi_invert fi_is_sqr fi_sqrt
  field_init_fi = record {
    set0 = fq_set0;
    set1 = fq_set1;
    set_si = fq_set_si;
    set_mpz = fq_set_mpz;
    to_mpz = fq_to_mpz;
    is0 = fq_is0;
    is1 = fq_is1;
    sign = fq_sign;
    cmp = fq_cmp;
    add = fq_add;
    double = fq_double;
    sub = fq_sub;
    neg = fq_neg;
    mul = fi_mul;
    mul_mpz = fq_mul_mpz;
    mul_si = fq_mul_si;
    square = fi_square;
    invert = fi_invert;
    is_sqr = fi_is_sqr;
    sqrt = fi_sqrt;
    from_hash = fq_from_hash;
    to_bytes = fq_to_bytes;
    from_bytes = fq_from_bytes;
    length_in_bytes = quad_length o.fixed_length_in_bytes;
    fixed_length_in_bytes = twice o.fixed_length_in_bytes;
  }
