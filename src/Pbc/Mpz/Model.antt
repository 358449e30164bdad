-- ===== src/Pbc/Mpz/Model.antt =====
-- The laws of the interface hold modulo 3, with the residues -1, 0 and 1.
use dumbo_ms.Prelude.{◌≡◌, refl, arith}
use dumbo_ms.Pbc.Mpz.{Mpz, Sign, minus, naught, plus, opposite}

abbrev pub Residue : Type 0
Residue = Sign

abbrev pub add : Residue → Residue → Residue
add naught b = b
add plus naught = plus
add plus plus = minus
add plus minus = naught
add minus naught = minus
add minus plus = naught
add minus minus = plus

abbrev pub mul : Residue → Residue → Residue
mul naught b = naught
mul plus b = b
mul minus b = opposite b

pub assoc : (a b c : Residue) → add (add a b) c ≡ add a (add b c)
assoc a b c = ground arith

pub comm : (a b : Residue) → add a b ≡ add b a
comm a b = ground arith

pub right_zero : (a : Residue) → add a naught ≡ a
right_zero a = ground arith

pub right_neg : (a : Residue) → add a (opposite a) ≡ naught
right_neg a = ground arith

pub assoc_mul : (a b c : Residue) → mul (mul a b) c ≡ mul a (mul b c)
assoc_mul a b c = ground arith

pub comm_mul : (a b : Residue) → mul a b ≡ mul b a
comm_mul a b = ground arith

pub distrib : (a b c : Residue) → mul a (add b c) ≡ add (mul a b) (mul a c)
distrib a b c = ground arith

pub antisym : (a b : Residue) → add b (opposite a) ≡ opposite (add a (opposite b))
antisym a b = ground arith

abbrev pub modulo_3 : Mpz Residue
modulo_3 = record {
  zero_z = naught;
  one_z = plus;
  mpz_add = add;
  mpz_sub = λ a b. add a (opposite b);
  mpz_mul = mul;
  mpz_neg = opposite;
  mpz_sgn = λ a. a;
  mpz_cmp = λ a b. add a (opposite b);
  add_assoc = assoc;
  add_comm = comm;
  add_zero = right_zero;
  add_neg = right_neg;
  sub_lem = λ a b. refl;
  mul_assoc = assoc_mul;
  mul_comm = comm_mul;
  mul_add = distrib;
  cmp_opposite = antisym;
}
