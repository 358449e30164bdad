-- ===== src/Pbc/Structure.antt =====
-- The function pointers of `struct field_s` in include/pbc_field.h that arith/fieldquadratic.c and
-- the defaults of arith/field.c call, and that an extension field fills in. A function that writes
-- its result through a pointer returns it; `double` is `doub`.
pub mod Ring
pub mod Halves
pub mod Units
pub mod Morphism
pub mod Roots
pub mod Coding
pub mod Model
use dumbo_ms.Prelude.{ℕ, Bool, false, List, Option}
use dumbo_ms.Pbc.Mpz.{Sign}

-- A C `long` or a GMP integer: its absolute value, and whether it is negative.
pub record Integer : Type 0 where
  pub negative : Bool
  pub size : ℕ

-- The argument of `element_set_si(e, 2)`.
abbrev pub two : Integer
two = record { negative = false; size = 2 }

-- What `from_bytes` leaves: the element, and the bytes that it read.
pub record Parsed (E : Type 0) : Type 0 where
  pub value : E
  pub len : ℕ

pub record Structure (E : Type 0) : Type 0 where
  pub set0 : E
  pub set1 : E
  pub set_si : Integer → E
  pub set_mpz : Integer → E
  pub to_mpz : E → Integer
  pub is0 : E → Bool
  pub is1 : E → Bool
  pub sign : E → Sign
  pub cmp : E → E → Bool
  pub add : E → E → E
  pub double : E → E
  pub sub : E → E → E
  pub neg : E → E
  pub mul : E → E → E
  pub mul_mpz : E → Integer → E
  pub mul_si : E → Integer → E
  pub square : E → E
  pub invert : E → E
  pub is_sqr : E → Bool
  pub sqrt : E → E
  pub from_hash : List ℕ → E
  pub to_bytes : E → List ℕ
  pub from_bytes : List ℕ → Parsed E
  -- `element_length_in_bytes`
  pub length_in_bytes : E → ℕ
  -- -1 is `none`.
  pub fixed_length_in_bytes : Option ℕ
