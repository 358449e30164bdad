-- ===== src/Pbc/Field/Model.antt =====
-- Two structures that satisfy the interface: the natural numbers, and the cube roots of one.
use dumbo_ms.Prelude.{ℕ, ◌*◌, ◌≡◌, refl, arith}
use dumbo_ms.Pbc.Field.{Field}

pub numbers_assoc : (a b c : ℕ) → a * b * c ≡ a * (b * c)
numbers_assoc a b c = omega arith

pub numbers_comm : (a b : ℕ) → a * b ≡ b * a
numbers_comm a b = omega arith

pub numbers_one : (a : ℕ) → a * 1 ≡ a
numbers_one a = omega arith

abbrev pub numbers : Field ℕ
numbers = record {
  set1 = 1;
  mul = ◌*◌;
  square = λ a. a * a;
  mul_assoc = numbers_assoc;
  mul_comm = numbers_comm;
  mul_one = numbers_one;
  square_lem = λ a. refl;
}

-- 1, w and w^2 with w^3 = 1.
pub data Root : Type 0 where
  one w w2 : Root

abbrev pub times : Root → Root → Root
times one b = b
times w one = w
times w w = w2
times w w2 = one
times w2 one = w2
times w2 w = one
times w2 w2 = w

pub times_assoc : (a b c : Root) → times (times a b) c ≡ times a (times b c)
times_assoc a b c = ground arith

pub times_comm : (a b : Root) → times a b ≡ times b a
times_comm a b = ground arith

pub times_one : (a : Root) → times a one ≡ a
times_one a = ground arith

abbrev pub roots : Field Root
roots = record {
  set1 = one;
  mul = times;
  square = λ a. times a a;
  mul_assoc = times_assoc;
  mul_comm = times_comm;
  mul_one = times_one;
  square_lem = λ a. refl;
}
