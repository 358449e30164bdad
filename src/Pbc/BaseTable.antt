-- ===== src/Pbc/BaseTable.antt =====
-- The fixed-base table of arith/field.c: `element_build_base_table`, `element_pow_base_table`, and
-- the default `pp_init` and `pp_pow` that use them.
pub mod Words
pub mod Laws
use Prim.Native.Nat.{bit_or}
use dumbo_ms.Prelude.{
  ℕ, zero, suc, ◌+◌, ◌-◌, ◌*◌, ◌/◌, ◌%◌, ◌^◌, List, [], ◌∷◌, get_or, ltb, ◌==◌, if◌then◌else◌,
}
use dumbo_ms.Pbc.Gmp.{Gmp}
use dumbo_ms.Pbc.Field.{Field}

-- `struct element_base_table`
pub record BaseTable {ℓ} (E : Type ℓ) : Type ℓ where
  pub k : ℕ
  pub bits : ℕ
  pub num_lookups : ℕ
  pub table : List (List E)

module _ {ℓ} {E : Type ℓ} (g : Gmp) (f : Field E) where
  open g use {sizeinbase2, tstbit}
  open f use {set1, mul}

  -- `lookup[j] = multiplier * lookup[j - 1]`, `rounds` entries from `previous` on.
  unfoldable pub row_from : E → ℕ → E → List E
  row_from multiplier zero previous = []
  row_from multiplier (suc rounds) previous =
      mul multiplier previous ∷ row_from multiplier rounds (mul multiplier previous)

  unfoldable pub row : E → ℕ → List E
  unfolding row_from
  row multiplier k = set1 ∷ row_from multiplier (2 ^ k - 1) set1

  -- The rows left to build; after each the multiplier takes the last entry as a factor.
  unfoldable pub rows_from : ℕ → ℕ → E → List (List E)
  unfolding row
  rows_from zero k multiplier = []
  rows_from (suc rounds) k multiplier =
      row multiplier k
      ∷ rows_from rounds k (mul multiplier (get_or (row multiplier k) (2 ^ k - 1) set1))

  unfoldable pub element_build_base_table : E → ℕ → ℕ → BaseTable E
  unfolding rows_from
  element_build_base_table a bits k = record {
    k = k;
    bits = bits;
    num_lookups = bits / k + 1;
    table = rows_from (bits / k + 1) k a;
  }

  -- `for (s = ..; s < k; s++) word |= mpz_tstbit(n, k * row + s) << s`, with `rounds` left.
  unfoldable pub word_from : ℕ → ℕ → ℕ → ℕ → ℕ → ℕ
  word_from n base zero s word = word
  word_from n base (suc rounds) s word =
      word_from n base rounds (s + 1) (bit_or word (tstbit n (base + s) * 2 ^ s))

  -- The rows from `i` on, with `rounds` left.
  unfoldable pub rows_loop : BaseTable E → ℕ → ℕ → ℕ → E → E
  unfolding word_from
  rows_loop t n zero i result = result
  rows_loop t n (suc rounds) i result =
      let word = word_from n (t.k * i) t.k 0 0 in
      rows_loop t n rounds (i + 1)
        (if ltb 0 word then mul result (get_or (get_or t.table i []) word set1) else result)

  -- `order` is that of the structure that x lies in.
  unfoldable pub element_pow_base_table : ℕ → ℕ → BaseTable E → E
  unfolding rows_loop
  element_pow_base_table order power t =
      if power == 0
      then set1
      else (let n = if ltb order power then power % order else power in
          rows_loop t n (sizeinbase2 n / t.k + 1) 0 set1)

  unfoldable pub default_element_pp_init : ℕ → E → BaseTable E
  unfolding element_build_base_table
  default_element_pp_init order a = element_build_base_table a (sizeinbase2 order) 5

  unfoldable pub default_element_pp_pow : ℕ → ℕ → BaseTable E → E
  unfolding element_pow_base_table
  default_element_pp_pow order power t = element_pow_base_table order power t
