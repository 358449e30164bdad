-- ===== src/Pbc/TinyFp/Wrap.antt =====
-- Inputs at which arith/tinyfp.c does not compute modulo p.
use native.Mathlib.Nat.{zero-mod, mul-mod_right, mod-eq_of_lt, mod-eq-sub-mod}
use dumbo_ms.Prelude.{
  ℕ, ◌-◌, ◌*◌, ◌%◌, ◌^◌, ◌<◌, ◌≤◌, ◌≡◌, ◌≢◌, refl, sym, ap, ◌∙◌, true, false, arith,
}
use dumbo_ms.Pbc.TinyFp.{neg, word_mod, sub_word, set_si, double, mul, is0}

in_place : (p a : ℕ) → double p true a ≡ 2 * a % word_mod % p
unfolding double
in_place p a = ap (λ t. t % p) (ground arith)

-- Doubling an element into itself is wrong whenever the sum overflows a word, for every modulus.
pub double_in_place-ne :
    (p a : ℕ) → p < word_mod → a < p → word_mod ≤ 2 * a → double p true a ≢ 2 * a % p
unfolding double
double_in_place-ne p a small h over = λ e. omega (
  arith,
  sym (in_place p a) ∙ e,
  mod-eq_of_lt {n = 2 * a - word_mod} {m = p} (omega arith),
  (let left : 2 * a % word_mod ≡ 2 * a - word_mod = omega arith in ap (λ t. t % p) left),
  mod-eq-sub-mod {n = 2 * a} {m = p} (omega arith),
  mod-eq_of_lt {n = 2 * a - p} {m = p} (omega arith),
)

-- In place it is right as long as the sum fits a word.
pub double_in_place-mod : (p a : ℕ) → 2 * a < word_mod → double p true a ≡ 2 * a % p
unfolding double
double_in_place-mod p a h =
    in_place p a ∙ (let fits : 2 * a % word_mod ≡ 2 * a = omega arith in ap (λ t. t % p) fits)

-- A modulus above 2^32 that does not divide 2^64: the square of 2^32 comes out as 0.
pub mul_wraps-ne :
    (p : ℕ) → 2 ^ 32 < p → 2 ^ 64 % p ≢ 0 → mul p (2 ^ 32) (2 ^ 32) ≢ 2 ^ 32 * 2 ^ 32 % p
unfolding mul
mul_wraps-ne p h ne = λ e. ne (sym e ∙ zero-mod p)

-- A negative multiple of the modulus is converted to p itself, which is no residue and not zero.
pub set_si-neg_multiple :
    (p k : ℕ)
    → 0 < p
    → p < word_mod
    → (set_si p (neg (p * k)) ≡ p) × (is0 p (set_si p (neg (p * k))) ≡ false)
unfolding set_si is0
set_si-neg_multiple p k pos small =
    let value : sub_word p (p * k % p) ≡ p = omega (arith, mul-mod_right p k) in
    rw value (refl, ground arith)
