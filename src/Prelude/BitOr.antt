-- ===== src/Prelude/BitOr.antt =====
-- `bit_or` of a number and a multiple of a power of two above it: the shape of `x |= b << s`.
use Prim.Native.Nat.{
  ℕ, zero, suc, ◌+◌, ◌*◌, ◌/◌, ◌%◌, ◌^◌, ◌≤◌, ◌<◌, max, bit_or, digits, bit_or-bitwise,
}
use native.Mathlib.Nat.{pow-suc}
use mathlib.Core.Path.{◌≡◌, refl, ap, ◌∙◌}
use native.Mathlib.Omega.{arith}

-- The digit recursion that `bit_or` stands for, at any fuel.
abbrev or_digits : ℕ → ℕ → ℕ → ℕ
or_digits fuel a b = digits (λ c. c) max fuel a b

or_digits-fuel : (m n a b : ℕ) → a ≤ m → a ≤ n → or_digits m a b ≡ or_digits n a b
or_digits-fuel zero zero a b h k = refl
or_digits-fuel zero (suc n) zero b h k = refl
or_digits-fuel zero (suc n) (suc a) b h k = absurd (omega arith)
or_digits-fuel (suc m) zero zero b h k = refl
or_digits-fuel (suc m) zero (suc a) b h k = absurd (omega arith)
or_digits-fuel (suc m) (suc n) zero b h k = refl
or_digits-fuel (suc m) (suc n) (suc a) b h k =
    omega (arith, or_digits-fuel m n (suc a / 2) (b / 2) (omega arith) (omega arith))

zero-bit_or : (b : ℕ) → bit_or 0 b ≡ b
zero-bit_or b = bit_or-bitwise 0 b

-- The lowest digit, and the rest.
bit_or-digit : (a b : ℕ) → bit_or a b ≡ bit_or (a / 2) (b / 2) * 2 + max (a % 2) (b % 2)
bit_or-digit zero b = omega (arith, zero-bit_or b, zero-bit_or (b / 2))
bit_or-digit (suc a) b = omega (
  arith,
  bit_or-bitwise (suc a) b,
  bit_or-bitwise (suc a / 2) (b / 2),
  or_digits-fuel a (suc a / 2) (suc a / 2) (b / 2) (omega arith) (omega arith),
)

-- Bits that do not overlap add up.
pub bit_or-shifted : (s x c : ℕ) → x < 2 ^ s → bit_or x (c * 2 ^ s) ≡ x + c * 2 ^ s
bit_or-shifted zero x c h =
    let none_set : x ≡ 0 = omega arith in rw none_set (zero-bit_or (c * 2 ^ 0) ∙ omega arith)
bit_or-shifted (suc s) x c h =
    let doubled : c * 2 ^ suc s ≡ c * 2 ^ s * 2 =
      omega (arith, ap (λ (t : ℕ). c * t) (pow-suc 2 s)) in
    let half : c * 2 ^ suc s / 2 ≡ c * 2 ^ s = omega arith in
    omega (
      arith,
      bit_or-digit x (c * 2 ^ suc s),
      ap (bit_or (x / 2)) half,
      bit_or-shifted s (x / 2) c (omega (arith, pow-suc 2 s)),
    )
