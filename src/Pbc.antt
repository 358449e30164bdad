-- ===== src/Pbc.antt =====
-- The pairing library of consensus/honeybadger/HoneyBadgerBFT/dependencies/pbc-0.5.14.
pub mod Darray
pub mod Symtab
pub mod Gmp
pub mod Field
pub mod Pow
pub mod MultiPow
pub mod BaseTable
pub mod TinyFp
pub mod Mpz
pub mod Multiz
pub mod Structure
pub mod Quadratic
pub mod Generic
pub mod Poly
pub mod PolyMod
pub mod Digits
mod Tests
