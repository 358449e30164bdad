-- ===== src/Prelude/Int.antt =====
-- Integers over the native numbers, under the library's names.
use Prim.Native.Nat.{ℕ, suc, ◌+◌, ◌-◌, ◌≤◌}
use mathlib.Core.Path.{◌≡◌, ap}
use mathlib.Core.Bool.{Bool, true, false, ◌&&◌}
use native.Mathlib.Omega.{arith}
use dumbo_ms.Prelude.Tests.{ltb, leb, ◌==◌, if◌then◌else◌}

-- `negsuc n` is -(n + 1).
pub data ℤ : Type 0 where
  pos : ℕ → ℤ
  negsuc : ℕ → ℤ

abbrev pub pos_part : ℤ → ℕ
pos_part (pos n) = n
pos_part (negsuc n) = 0

abbrev pub neg_part : ℤ → ℕ
neg_part (pos n) = 0
neg_part (negsuc n) = suc n

infixl 65 ◌-ℤ◌
infix 50 ◌≤ℤ◌ ◌==ℤ◌
-- The difference of an integer and a number.
abbrev pub ◌-ℤ◌ : ℤ → ℕ → ℤ
a -ℤ n =
    if leb (neg_part a + n) (pos_part a)
    then pos (pos_part a - (neg_part a + n))
    else negsuc (neg_part a + n - pos_part a - 1)

abbrev pub ◌≤ℤ◌ : ℤ → ℤ → Type 0
a ≤ℤ b = pos_part a + neg_part b ≤ pos_part b + neg_part a

abbrev pub ltb_ℤ : ℤ → ℤ → Bool
ltb_ℤ a b = ltb (pos_part a + neg_part b) (pos_part b + neg_part a)

abbrev pub ◌==ℤ◌ : ℤ → ℤ → Bool
a ==ℤ b = (pos_part a == pos_part b) && (neg_part a == neg_part b)

pub above_of_ne : (a b : ℤ) → a ≤ℤ b → (b ==ℤ a) ≡ false → ltb_ℤ a b ≡ true
above_of_ne (pos m) (pos n) h e = ground arith
above_of_ne (pos m) (negsuc n) h e = absurd (omega arith)
above_of_ne (negsuc m) (pos n) h e = ground arith
above_of_ne (negsuc m) (negsuc n) h e = ground arith

pub parts_of_eq : (a b : ℤ) → (a ==ℤ b) ≡ true → a ≡ b
parts_of_eq (pos m) (pos n) h = ap pos (ground arith)
parts_of_eq (pos m) (negsuc n) h = absurd (ground arith)
parts_of_eq (negsuc m) (pos n) h = absurd (ground arith)
parts_of_eq (negsuc m) (negsuc n) h = ap negsuc (ground arith)
