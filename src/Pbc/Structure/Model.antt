-- ===== src/Pbc/Structure/Model.antt =====
-- The field of three elements as a structure: the laws of Structure/Ring, Structure/Units,
-- Structure/Roots and Structure/Coding hold of it.
use dumbo_ms.Prelude.{
  ℕ, zero, suc, Bool, true, false, not, ◌≡◌, ◌≢◌, refl, arith, List, [], ◌∷◌, some,
}
use dumbo_ms.Pbc.Mpz.{Sign, minus, naught, plus, opposite}
use dumbo_ms.Pbc.Mpz.Model.{
  add, mul, assoc, comm, right_zero, right_neg, assoc_mul, comm_mul, distrib,
}
use dumbo_ms.Pbc.Structure.{Structure, Integer, Parsed}
use dumbo_ms.Pbc.Structure.Ring.{IsRing}
use dumbo_ms.Pbc.Structure.Units.{IsField}
use dumbo_ms.Pbc.Structure.Roots.{HasRoots}
use dumbo_ms.Pbc.Structure.Coding.{IsCoding}

abbrev pub of_size : ℕ → Sign
of_size zero = naught
of_size (suc n) = add plus (of_size n)

abbrev pub signed_by : Bool → Sign → Sign
signed_by true s = opposite s
signed_by false s = s

abbrev pub of_integer : Integer → Sign
of_integer i = signed_by i.negative (of_size i.size)

abbrev pub to_integer : Sign → Integer
to_integer minus = record { negative = false; size = 2 }
to_integer naught = record { negative = false; size = 0 }
to_integer plus = record { negative = false; size = 1 }

abbrev pub is_naught : Sign → Bool
is_naught naught = true
is_naught plus = false
is_naught minus = false

abbrev pub is_plus : Sign → Bool
is_plus naught = false
is_plus plus = true
is_plus minus = false

abbrev pub is_square : Sign → Bool
is_square minus = false
is_square naught = true
is_square plus = true

abbrev pub digit : Sign → ℕ
digit a = (to_integer a).size

abbrev pub first_byte : List ℕ → Parsed Sign
first_byte [] = record { value = naught; len = 0 }
first_byte (b ∷ bs) = record { value = of_size b; len = 1 }

abbrev pub ternary : Structure Sign
ternary = record {
  set0 = naught;
  set1 = plus;
  set_si = of_integer;
  set_mpz = of_integer;
  to_mpz = to_integer;
  is0 = is_naught;
  is1 = is_plus;
  sign = λ a. a;
  cmp = λ a b. not (is_naught (add a (opposite b)));
  add = add;
  double = λ a. add a a;
  sub = λ a b. add a (opposite b);
  neg = opposite;
  mul = mul;
  mul_mpz = λ a z. mul a (of_integer z);
  mul_si = λ a z. mul a (of_integer z);
  square = λ a. mul a a;
  invert = λ a. a;
  is_sqr = is_square;
  sqrt = λ a. a;
  from_hash = λ bytes. (first_byte bytes).value;
  to_bytes = λ a. digit a ∷ [];
  from_bytes = first_byte;
  length_in_bytes = λ a. 1;
  fixed_length_in_bytes = some 1;
}

pub ternary-IsRing : IsRing ternary
ternary-IsRing = record {
  add_assoc = assoc;
  add_comm = comm;
  add_zero = right_zero;
  add_neg = right_neg;
  mul_assoc = assoc_mul;
  mul_comm = comm_mul;
  mul_one = λ a. ground arith;
  mul_add = distrib;
  sub_lem = λ a b. refl;
  double_lem = λ a. refl;
  square_lem = λ a. refl;
}

pub one_not_naught : plus ≢ naught
one_not_naught e = cc

pub minus_not_naught : minus ≢ naught
minus_not_naught e = cc

pub ternary-IsField : IsField ternary
ternary-IsField = record {
  is_ring = ternary-IsRing;
  one_ne_zero = one_not_naught;
  invert_lem = λ a h. ground arith;
  is0_zero = λ a h. ground arith;
  is0_set0 = refl;
  is1_one = λ a h. ground arith;
  is1_set1 = refl;
}

pub ternary-HasRoots : HasRoots ternary
ternary-HasRoots = record {
  is_field = ternary-IsField;
  set_two = refl;
  two_ne_zero = minus_not_naught;
  sqrt_lem = λ a h. ground arith;
  square_is_sqr = λ a. ground arith;
  non_squares = λ a b h k. ground arith;
}

pub ternary-IsCoding : IsCoding ternary
ternary-IsCoding = record {
  coding_length = λ e. refl;
  coding_fixed = λ n h e. ground arith;
  coding_read = read;
}
  where
    read : (e : Sign) (rest : List ℕ) → first_byte (digit e ∷ rest) ≡ record { value = e; len = 1 }
    read minus rest = refl
    read naught rest = refl
    read plus rest = refl
