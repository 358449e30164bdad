-- ===== src/Pbc/BaseTable/Laws.antt =====
-- The fixed-base table of arith/field.c computes the power.
use native.Mathlib.Nat.{
  div-add-mod, lt-div-mul-add, le-div_iff_mul-le, div-mul-le_self, mod-lt, mod-eq_of_lt,
}
use dumbo_ms.Prelude.{
  ℕ, zero, suc, ◌+◌, ◌-◌, ◌*◌, ◌/◌, ◌%◌, ◌^◌, ◌<◌, ◌≤◌, ◌≡◌, inl, inr, refl, sym, ap, ap₂, ◌∙◌, [],
  get_or, ltb, ◌==◌, if◌then◌else◌, arith, false, Bool-cases,
}
use dumbo_ms.Pbc.Gmp.{Gmp}
use dumbo_ms.Pbc.Field.{Field}
use dumbo_ms.Pbc.Field.Power.{power, power-add, power-mul, power-one, one_mul, power_set1}
use dumbo_ms.Pbc.Pow.Bits.{two_pow_add, two_pow_mono, two_pow_pos, sizeinbase2_mono}
use dumbo_ms.Pbc.BaseTable.{
  BaseTable, row_from, row, rows_from, element_build_base_table, word_from, rows_loop,
  element_pow_base_table, default_element_pp_init, default_element_pp_pow,
}
use dumbo_ms.Pbc.BaseTable.Words.{word_of_row, word_of_row-bits, row_bits}

div_mono : (m n k : ℕ) → 0 < k → m ≤ n → m / k + 1 ≤ n / k + 1
div_mono m n k pos h = omega (
  arith,
  (le-div_iff_mul-le {k = k} {x = m / k} {y = n} pos).1 (omega (arith, div-mul-le_self m k)),
)

module _ {ℓ} {E : Type ℓ} (g : Gmp) (f : Field E) where
  open g use {sizeinbase2, sizeinbase2_pos, sizeinbase2_bound, tstbit, tstbit_lem}
  open f use {set1, mul, mul_comm, mul_one}

  row_from-power :
      (m : E) (rounds i j n : ℕ) (previous : E)
      → previous ≡ power f m i
      → j < rounds
      → n ≡ suc (i + j)
      → get_or (row_from g f m rounds previous) j set1 ≡ power f m n
  unfolding row_from power
  row_from-power m zero i j n previous e h q = absurd (omega arith)
  row_from-power m (suc rounds) i zero n previous e h q =
      let q' : n ≡ suc i = omega arith in rw q' (ap (mul m) e)
  row_from-power m (suc rounds) i (suc j) n previous e h q =
      row_from-power m rounds (suc i) j n (mul m previous) (ap (mul m) e) (omega arith)
        (omega arith)

  -- A row holds the first 2^k powers of its multiplier.
  row-power : (m : E) (k j : ℕ) → j < 2 ^ k → get_or (row g f m k) j set1 ≡ power f m j
  unfolding row power
  row-power m k zero h = refl
  row-power m k (suc j) h =
      row_from-power m (2 ^ k - 1) 0 j (suc j) set1 refl (omega arith) (omega arith)

  next_multiplier :
      (m : E) (k : ℕ) → mul m (get_or (row g f m k) (2 ^ k - 1) set1) ≡ power f m (2 ^ k)
  unfolding power
  next_multiplier m k =
      ap (mul m) (row-power m k (2 ^ k - 1) (omega (arith, two_pow_mono 0 k)))
      ∙ (let whole : suc (2 ^ k - 1) ≡ 2 ^ k = omega (arith, two_pow_mono 0 k) in
          ap (power f m) whole)

  -- Row i belongs to the multiplier a^(2^(k * i)).
  rows_from-power :
      (a : E) (k rounds i j : ℕ)
      → i < rounds
      → j < 2 ^ k
      → get_or (get_or (rows_from g f rounds k a) i []) j set1 ≡ power f (power f a (2 ^ (k * i))) j
  unfolding rows_from
  rows_from-power a k zero i j h l = absurd (omega arith)
  rows_from-power a k (suc rounds) zero j h l =
      row-power a k j l
      ∙ (let here : 1 ≡ 2 ^ (k * 0) = ap (λ t. 2 ^ t) origin in
          ap (λ x. power f x j) (sym (power-one f a) ∙ ap (power f a) here))
    where
      origin : 0 ≡ k * 0
      origin = omega arith
  rows_from-power a k (suc rounds) (suc i) j h l =
      rows_from-power (mul a (get_or (row g f a k) (2 ^ k - 1) set1)) k rounds i j (omega arith) l
      ∙ ap (λ x. power f x j)
          (ap (λ m. power f m (2 ^ (k * i))) (next_multiplier a k)
            ∙ sym (
                power-mul f a (2 ^ k) (2 ^ (k * i)) (2 ^ (k * suc i))
                  (two_pow_add k (k * i) (k * suc i) (omega arith))))

  row_step :
      (a : E) (t : BaseTable E) (n i : ℕ) (r : E)
      → t.table ≡ rows_from g f t.num_lookups t.k a
      → i < t.num_lookups
      → r ≡ power f a (n % 2 ^ (t.k * i))
      → (if ltb 0 (word_of_row g f t n i)
          then mul r (get_or (get_or t.table i []) (word_of_row g f t n i) set1)
          else r)
        ≡ power f a (n % 2 ^ (t.k * (i + 1)))
  row_step a t n i r built lt h = elim (Bool-cases (ltb 0 (word_of_row g f t n i))) [
    | inl p ↦ rw p (
        ap₂ mul h found
        ∙ sym (
            power-add f a (n % 2 ^ (t.k * i)) (2 ^ (t.k * i) * word_of_row g f t n i)
              (n % 2 ^ (t.k * (i + 1))) (row_bits g f t n i)))
    | inr p ↦ rw p (
        h
        ∙ (let same : n % 2 ^ (t.k * i) ≡ n % 2 ^ (t.k * (i + 1)) = row_same p in
            ap (power f a) same))
  ]
    where
      found :
          get_or (get_or t.table i []) (word_of_row g f t n i) set1
          ≡ power f a (2 ^ (t.k * i) * word_of_row g f t n i)
      found =
          ap (λ x. get_or (get_or x i []) (word_of_row g f t n i) set1) built
          ∙ rows_from-power a t.k t.num_lookups i (word_of_row g f t n i) lt (
              omega (
                arith,
                word_of_row-bits g f t n i,
                mod-lt (n / 2 ^ (t.k * i)) {m = 2 ^ t.k} (two_pow_pos t.k),
              ))
          ∙ sym (
              power-mul f a (2 ^ (t.k * i)) (word_of_row g f t n i)
                (2 ^ (t.k * i) * word_of_row g f t n i) refl)

      row_same : ltb 0 (word_of_row g f t n i) ≡ false → n % 2 ^ (t.k * i) ≡ n % 2 ^ (t.k * (i + 1))
      row_same p =
          let none_set : word_of_row g f t n i ≡ 0 = ground arith in
          omega (arith, row_bits g f t n i, ap (λ (x : ℕ). 2 ^ (t.k * i) * x) none_set)

  -- The rows left multiply the powers by the groups of bits that they stand for.
  rows_loop-power :
      (a : E) (t : BaseTable E) (n rounds i e : ℕ) (r : E)
      → t.table ≡ rows_from g f t.num_lookups t.k a
      → e ≡ i + rounds
      → e ≤ t.num_lookups
      → r ≡ power f a (n % 2 ^ (t.k * i))
      → rows_loop g f t n rounds i r ≡ power f a (n % 2 ^ (t.k * e))
  unfolding rows_loop
  rows_loop-power a t n zero i e r built q le h =
      let end : i ≡ e = omega arith in h ∙ ap (λ x. power f a (n % 2 ^ (t.k * x))) end
  rows_loop-power a t n (suc rounds) i e r built q le h =
      rows_loop-power a t n rounds (i + 1) e
        (if ltb 0 word then mul r (get_or (get_or t.table i []) word set1) else r) built
        (omega arith) le step
    where
      word : ℕ
      word = word_from g f n (t.k * i) t.k 0 0

      step :
          (if ltb 0 word then mul r (get_or (get_or t.table i []) word set1) else r)
          ≡ power f a (n % 2 ^ (t.k * (i + 1)))
      step = row_step a t n i r built (omega arith) h

  -- Enough rows for the number of bits.
  covered : (n k : ℕ) → 0 < k → n % 2 ^ (k * (sizeinbase2 n / k + 1)) ≡ n
  covered n k pos = mod-eq_of_lt (
      omega (
        arith,
        sizeinbase2_bound n,
        two_pow_mono (sizeinbase2 n) (k * (sizeinbase2 n / k + 1))
            (omega (arith, lt-div-mul-add {a = sizeinbase2 n} {b = k} pos)),
      ))

  no_bits : (n k : ℕ) → n % 2 ^ (k * 0) ≡ 0
  no_bits n k = let origin : k * 0 ≡ 0 = omega arith in ap (λ t. n % 2 ^ t) origin ∙ omega arith

  built_table :
      (a : E) (bits k n : ℕ)
      → 0 < k
      → sizeinbase2 n ≤ bits
      → rows_loop g f (element_build_base_table g f a bits k) n (sizeinbase2 n / k + 1) 0 set1
        ≡ power f a n
  unfolding element_build_base_table power
  built_table a bits k n pos le =
      rows_loop-power a (element_build_base_table g f a bits k) n (sizeinbase2 n / k + 1) 0
        (sizeinbase2 n / k + 1) set1 refl (omega arith) (div_mono (sizeinbase2 n) bits k pos le)
        (let none_read : 0 ≡ n % 2 ^ (k * 0) = sym (no_bits n k) in ap (power f a) none_read)
      ∙ ap (power f a) (covered n k pos)

  -- A power by a remainder of the exponent, where the base has that order.
  power-mod : (a : E) (order n : ℕ) → power f a order ≡ set1 → power f a (n % order) ≡ power f a n
  power-mod a order n h = sym (
      power-add f a (order * (n / order)) (n % order) n (sym (div-add-mod n order))
      ∙ ap (λ x. mul x (power f a (n % order))) whole
      ∙ one_mul f (power f a (n % order)))
    where
      whole : power f a (order * (n / order)) ≡ set1
      whole =
          power-mul f a order (n / order) (order * (n / order)) refl
          ∙ ap (λ x. power f x (n / order)) h
          ∙ power_set1 f (n / order)

  -- `pp_pow` with the table that `pp_init` builds for `a` computes the power of `a`, for any
  -- exponent, where `a` to the (positive) order of its structure is one.
  pub pp_pow-power :
      (a : E) (order n : ℕ)
      → 0 < order
      → power f a order ≡ set1
      → default_element_pp_pow g f order n (default_element_pp_init g f order a) ≡ power f a n
  unfolding default_element_pp_pow default_element_pp_init element_pow_base_table power
  pp_pow-power a order n pos h = elim (Bool-cases (n == 0)) [
    | inl z ↦ rw z (let none : 0 ≡ n = ground arith in ap (power f a) none)
    | inr nz ↦ elim (Bool-cases (ltb order n)) [
      | inl p ↦
          rw (nz, p)
            (built_table a (sizeinbase2 order) 5 (n % order) (omega arith)
                (sizeinbase2_mono g (n % order) order (omega (arith, mod-lt n pos)))
              ∙ power-mod a order n h)
      | inr p ↦
          rw (nz, p)
            (built_table a (sizeinbase2 order) 5 n (omega arith)
              (sizeinbase2_mono g n order (ground arith)))
    ]
  ]
