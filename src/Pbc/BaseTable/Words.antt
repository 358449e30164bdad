-- ===== src/Pbc/BaseTable/Words.antt =====
-- The words that the fixed-base table of arith/field.c is read with are groups of bits.
use Prim.Native.Nat.{bit_or}
use native.Mathlib.Nat.{mod-lt, div-div-eq-div-mul}
use dumbo_ms.Prelude.{ℕ, zero, suc, ◌+◌, ◌*◌, ◌/◌, ◌%◌, ◌^◌, ◌≡◌, refl, sym, ap, ap₂, ◌∙◌, arith}
use dumbo_ms.Prelude.BitOr.{bit_or-shifted}
use dumbo_ms.Pbc.Gmp.{Gmp}
use dumbo_ms.Pbc.Field.{Field}
use dumbo_ms.Pbc.Pow.Bits.{two_pow_add, two_pow_add_one, two_pow_pos, mod_split}
use dumbo_ms.Pbc.BaseTable.{BaseTable, word_from}

module _ {ℓ} {E : Type ℓ} (g : Gmp) (f : Field E) where
  open g use {sizeinbase2, sizeinbase2_pos, sizeinbase2_bound, tstbit, tstbit_lem}
  open f use {set1, mul, mul_comm, mul_one}

  bit_at : (n base s : ℕ) → tstbit n (base + s) ≡ n / 2 ^ base / 2 ^ s % 2
  bit_at n base s =
      tstbit_lem n (base + s)
      ∙ ap (λ t. n / t % 2) (two_pow_add base s (base + s) refl)
      ∙ ap (λ t. t % 2) (sym (div-div-eq-div-mul n (2 ^ base) (2 ^ s)))

  word_step :
      (n base s word : ℕ)
      → word ≡ n / 2 ^ base % 2 ^ s
      → bit_or word (tstbit n (base + s) * 2 ^ s) ≡ n / 2 ^ base % 2 ^ (s + 1)
  word_step n base s word h =
      bit_or-shifted s word (tstbit n (base + s))
        (omega (arith, h, mod-lt (n / 2 ^ base) {m = 2 ^ s} (two_pow_pos s)))
      ∙ ap₂ (λ x y. x + y * 2 ^ s) h (bit_at n base s)
      ∙ sym (mod_split (n / 2 ^ base) (2 ^ s) 2)
      ∙ (let doubled : 2 ^ s * 2 ≡ 2 ^ (s + 1) = omega (arith, two_pow_add_one s) in
          ap (λ t. n / 2 ^ base % t) doubled)

  -- The word of a row is the group of k bits of n that stands at it.
  word_from-bits :
      (n base rounds s e word : ℕ)
      → e ≡ s + rounds
      → word ≡ n / 2 ^ base % 2 ^ s
      → word_from g f n base rounds s word ≡ n / 2 ^ base % 2 ^ e
  unfolding word_from
  word_from-bits n base zero s e word q h =
      (let end : s ≡ e = omega arith in h ∙ ap (λ t. n / 2 ^ base % 2 ^ t) end)
  word_from-bits n base (suc rounds) s e word q h =
      word_from-bits n base rounds (s + 1) e (bit_or word (tstbit n (base + s) * 2 ^ s))
        (omega arith) (word_step n base s word h)

  abbrev pub word_of_row : BaseTable E → ℕ → ℕ → ℕ
  word_of_row t n i = word_from g f n (t.k * i) t.k 0 0

  pub word_of_row-bits :
      (t : BaseTable E) (n i : ℕ) → word_of_row t n i ≡ n / 2 ^ (t.k * i) % 2 ^ t.k
  word_of_row-bits t n i = word_from-bits n (t.k * i) t.k 0 t.k 0 (omega arith) (omega arith)

  -- The bits below row i + 1 are those below row i and the group of row i.
  pub row_bits :
      (t : BaseTable E) (n i : ℕ)
      → n % 2 ^ (t.k * (i + 1)) ≡ n % 2 ^ (t.k * i) + 2 ^ (t.k * i) * word_of_row t n i
  row_bits t n i =
      ap (λ x. n % x) (two_pow_add (t.k * i) t.k (t.k * (i + 1)) (omega arith))
      ∙ mod_split n (2 ^ (t.k * i)) (2 ^ t.k)
      ∙ ap (λ x. n % 2 ^ (t.k * i) + x * 2 ^ (t.k * i)) (sym (word_of_row-bits t n i))
      ∙ omega arith
