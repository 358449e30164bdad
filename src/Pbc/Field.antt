-- ===== src/Pbc/Field.antt =====
-- The multiplicative part of `struct field_s` of include/pbc_field.h: the function pointers that
-- exponentiation calls through `element_set1`, `element_mul` and `element_square`, with the laws
-- of a commutative monoid that every structure of the library is meant to satisfy.
pub mod Power
pub mod Model
use dumbo_ms.Prelude.{◌≡◌}

pub record Field {ℓ} (E : Type ℓ) : Type ℓ where
  pub set1 : E
  pub mul : E → E → E
  pub square : E → E
  pub mul_assoc : (a b c : E) → mul (mul a b) c ≡ mul a (mul b c)
  pub mul_comm : (a b : E) → mul a b ≡ mul b a
  pub mul_one : (a : E) → mul a set1 ≡ a
  pub square_lem : (a : E) → square a ≡ mul a a
