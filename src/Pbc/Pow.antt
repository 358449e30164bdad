-- ===== src/Pbc/Pow.antt =====
-- Exponentiation in arith/field.c: the sliding window, the simultaneous powers of two and three
-- bases, and the fixed-base table.
pub mod Bits
pub mod Window
use dumbo_ms.Prelude.{
  ℕ, zero, suc, ◌+◌, ◌-◌, ◌*◌, ◌/◌, ◌^◌, Bool, true, false, not, ◌&&◌, ◌||◌, List, [], ◌∷◌, ◌++◌,
  get_or, ltb, ◌==◌, if◌then◌else◌,
}
use dumbo_ms.Pbc.Gmp.{Gmp}
use dumbo_ms.Pbc.Field.{Field}

-- `optimal_pow_window_size`, of the bit length of the exponent.
unfoldable pub optimal_window : ℕ → ℕ
optimal_window exp_bits =
    if ltb 9065 exp_bits
    then 8
    else if ltb 3529 exp_bits
    then 7
    else if ltb 1324 exp_bits
    then 6
    else if ltb 474 exp_bits
    then 5
    else if ltb 157 exp_bits
    then 4
    else if ltb 47 exp_bits
    then 3
    else 2

-- The locals of `element_pow_wind`.
pub record Scan {ℓ} (E : Type ℓ) : Type ℓ where
  pub result : E
  pub inword : Bool
  pub word : ℕ
  pub wbits : ℕ

module _ {ℓ} {E : Type ℓ} (g : Gmp) (f : Field E) where
  open g use {sizeinbase2, tstbit}
  open f use {set1, mul, square}

  -- `for (s = ..; s < lookup_size; s++) lookup[s] = lookup[s - 1] * a`, `rounds` entries from
  -- `previous` on.
  unfoldable pub table_from : E → ℕ → E → List E
  table_from a zero previous = []
  table_from a (suc rounds) previous = mul previous a ∷ table_from a rounds (mul previous a)

  -- `build_pow_window`: 2^k entries.
  unfoldable pub build_pow_window : E → ℕ → List E
  unfolding table_from
  build_pow_window a k = set1 ∷ table_from a (2 ^ k - 1) set1

  -- A read past the end of a table is a fault; it is `set1` here, and no theorem depends on it.
  abbrev pub entry : List E → ℕ → E
  entry lookup i = get_or lookup i set1

  -- The end of a round of `element_pow_wind` inside a word: the word is used up if it has k bits or
  -- the exponent ends.
  unfoldable pub read_word : ℕ → List E → ℕ → E → ℕ → ℕ → Scan E
  read_word k lookup s squared word' wbits' =
      if wbits' == k || s == 0
      then record {
        result = mul squared (entry lookup word');
        inword = false;
        word = word';
        wbits = wbits';
      }
      else record { result = squared; inword = true; word = word'; wbits = wbits' }

  -- One round of the loop at bit s. Outside a word a clear bit is skipped (`continue`) and a set
  -- bit starts a word; inside one the bit joins the word.
  unfoldable pub wind_step : ℕ → ℕ → List E → ℕ → Scan E → Scan E
  unfolding read_word
  wind_step n k lookup s st =
      let squared = square st.result in
      let bit = tstbit n s in
      if st.inword
      then read_word k lookup s squared (st.word * 2 + bit) (st.wbits + 1)
      else (if bit == 0 then record st { result = squared } else read_word k lookup s squared 1 1)

  -- The rounds for the bits below `bits`, from the highest down.
  unfoldable pub wind_loop : ℕ → ℕ → List E → ℕ → Scan E → Scan E
  unfolding wind_step
  wind_loop n k lookup zero st = st
  wind_loop n k lookup (suc s) st = wind_loop n k lookup s (wind_step n k lookup s st)

  abbrev pub wind_start : Scan E
  wind_start = record { result = set1; inword = false; word = 0; wbits = 0 }

  unfoldable pub element_pow_wind : ℕ → ℕ → List E → E
  unfolding wind_loop
  element_pow_wind n k lookup =
      if n == 0 then set1 else (wind_loop n k lookup (sizeinbase2 n) wind_start).result

  unfoldable pub generic_pow_mpz : E → ℕ → E
  generic_pow_mpz a n =
      if n == 0
      then set1
      else (let k = optimal_window (sizeinbase2 n) in element_pow_wind n k (build_pow_window a k))
