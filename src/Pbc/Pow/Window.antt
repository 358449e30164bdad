-- ===== src/Pbc/Pow/Window.antt =====
-- The sliding window of arith/field.c computes the power.
use dumbo_ms.Prelude.{
  ℕ, zero, suc, ◌+◌, ◌-◌, ◌*◌, ◌/◌, ◌^◌, ◌<◌, ◌≤◌, ◌≡◌, inl, inr, refl, sym, ap, ap₂, ◌∙◌, true,
  false, List, get_or, ◌==◌, if◌then◌else◌, Bool-cases, arith, ◌||◌,
}
use dumbo_ms.Pbc.Gmp.{Gmp}
use dumbo_ms.Pbc.Field.{Field}
use dumbo_ms.Pbc.Field.Power.{power, power-add}
use dumbo_ms.Pbc.Pow.{
  Scan, optimal_window, table_from, build_pow_window, entry, read_word, wind_step, wind_loop,
  wind_start, element_pow_wind, generic_pow_mpz,
}
use dumbo_ms.Pbc.Pow.Bits.{
  two_pow_add_one, bit_clear, bit_set, two_pow_mono, next_bit, tstbit-lt, above_size,
}

module _ {ℓ} {E : Type ℓ} (g : Gmp) (f : Field E) where
  open g use {sizeinbase2, tstbit, sizeinbase2_pos}
  open f use {set1, mul, square, mul_one, mul_comm, square_lem}

  -- The table holds the first 2^k powers of `a`.
  abbrev pub IsWindow : E → ℕ → List E → Type ℓ
  IsWindow a k lookup = (i : ℕ) → i < 2 ^ k → entry g f lookup i ≡ power f a i

  abbrev pending : Scan E → ℕ
  pending st = if st.inword then st.word else 0

  -- Between rounds: the result is the power by the part of the exponent read so far, less the
  -- word that is being read.
  record Reads (a : E) (k q : ℕ) (st : Scan E) : Type ℓ where
    done : ℕ
    power_done : st.result ≡ power f a done
    total : done + pending st ≡ q
    word_lt : st.inword ≡ true → st.word < 2 ^ st.wbits
    wbits_lt : st.inword ≡ true → st.wbits < k

  pending_in : (st : Scan E) → st.inword ≡ true → pending st ≡ st.word
  pending_in st i = rw i

  pending_out : (st : Scan E) → st.inword ≡ false → pending st ≡ 0
  pending_out st i = rw i

  squared : (a : E) (n k : ℕ) (r : E) → r ≡ power f a n → k ≡ n + n → square r ≡ power f a k
  squared a n k r e h = square_lem r ∙ ap (λ x. mul x x) e ∙ sym (power-add f a n n k h)

  taken :
      (a : E) (m i n : ℕ) (r x : E)
      → r ≡ power f a m
      → x ≡ power f a i
      → n ≡ m + i
      → mul r x ≡ power f a n
  taken a m i n r x e d h = ap₂ mul e d ∙ sym (power-add f a m i n h)

  module _ (a : E) (k : ℕ) (lookup : List E) (window : IsWindow a k lookup) where
    read_word-Reads :
        (q s d w b : ℕ) (r : E)
        → r ≡ power f a d
        → d + w ≡ q
        → w < 2 ^ b
        → b ≤ k
        → Reads a k q (read_word g f k lookup s r w b)
    unfolding read_word
    read_word-Reads q s d w b r e t lt le = elim (Bool-cases (b == k || s == 0)) [
      | inl h ↦ rw h (record {
        done = d + w;
        power_done = taken a d w (d + w) r _ e (window w (omega (arith, two_pow_mono b k le))) refl;
        total = omega arith;
        word_lt = λ c. cc;
        wbits_lt = λ c. cc;
      })
      | inr h ↦ rw h (record {
        done = d;
        power_done = e;
        total = t;
        word_lt = λ _. lt;
        wbits_lt = λ _. ground arith;
      })
    ]

    step_inword :
        (n s : ℕ) (st : Scan E)
        → st.inword ≡ true
        → Reads a k (n / 2 ^ suc s) st
        → Reads a k (n / 2 ^ s) (wind_step g f n k lookup s st)
    unfolding wind_step
    step_inword n s st i h = rw i (
        read_word-Reads (n / 2 ^ s) s (h.done + h.done) (st.word * 2 + tstbit n s) (st.wbits + 1)
          (square st.result) (squared a h.done (h.done + h.done) st.result h.power_done refl)
          (omega (arith, h.total, pending_in st i, next_bit g n s))
          (omega (arith, h.word_lt i, two_pow_add_one st.wbits, tstbit-lt g n s))
          (omega (arith, h.wbits_lt i)))

    step_outside :
        (n s : ℕ) (st : Scan E)
        → 0 < k
        → st.inword ≡ false
        → Reads a k (n / 2 ^ suc s) st
        → Reads a k (n / 2 ^ s) (wind_step g f n k lookup s st)
    unfolding wind_step
    step_outside n s st pos i h = elim (Bool-cases (tstbit n s == 0)) [
      | inl z ↦
          rw (i, z)
            (record {
              done = h.done + h.done;
              power_done = squared a h.done (h.done + h.done) st.result h.power_done refl;
              total =
                  omega
                    (arith, h.total, pending_out st i, next_bit g n s, bit_clear (tstbit n s) z);
              word_lt = λ c. cc;
              wbits_lt = λ c. cc;
            })
      | inr z ↦
          rw (i, z)
            (read_word-Reads (n / 2 ^ s) s (h.done + h.done) 1 1 (square st.result)
              (squared a h.done (h.done + h.done) st.result h.power_done refl)
              (omega (
                arith,
                h.total,
                pending_out st i,
                next_bit g n s,
                bit_set (tstbit n s) (tstbit-lt g n s) z,
              ))
              (omega arith) pos)
    ]

    step_Reads :
        (n s : ℕ) (st : Scan E)
        → 0 < k
        → Reads a k (n / 2 ^ suc s) st
        → Reads a k (n / 2 ^ s) (wind_step g f n k lookup s st)
    step_Reads n s st pos h = elim (Bool-cases st.inword) [
      | inl i ↦ step_inword n s st i h
      | inr i ↦ step_outside n s st pos i h
    ]

    loop_Reads :
        (n s : ℕ) (st : Scan E)
        → 0 < k
        → Reads a k (n / 2 ^ s) st
        → Reads a k (n / 2 ^ 0) (wind_loop g f n k lookup s st)
    unfolding wind_loop
    loop_Reads n zero st pos h = h
    loop_Reads n (suc s) st pos h =
        loop_Reads n s (wind_step g f n k lookup s st) pos (step_Reads n s st pos h)

    -- The round at bit 0 uses up the word that is being read.
    last_step : (n : ℕ) (st : Scan E) → (wind_step g f n k lookup 0 st).inword ≡ false
    unfolding wind_step read_word
    last_step n st = ground arith

    loop_ends : (n s : ℕ) (st : Scan E) → 0 < s → (wind_loop g f n k lookup s st).inword ≡ false
    unfolding wind_loop
    loop_ends n zero st h = absurd (omega arith)
    loop_ends n (suc zero) st h = last_step n st
    loop_ends n (suc (suc s)) st h =
        loop_ends n (suc s) (wind_step g f n k lookup (suc s) st) (omega arith)

    start_Reads : (n : ℕ) → Reads a k (n / 2 ^ sizeinbase2 n) (wind_start g f)
    unfolding power
    start_Reads n = record {
      done = 0;
      power_done = refl;
      total = sym (above_size g n);
      word_lt = λ c. cc;
      wbits_lt = λ c. cc;
    }

    loop_power :
        (n : ℕ)
        → 0 < k
        → (wind_loop g f n k lookup (sizeinbase2 n) (wind_start g f)).result ≡ power f a n
    loop_power n pos = h.power_done ∙ ap (power f a) whole
      where
        end : Scan E
        end = wind_loop g f n k lookup (sizeinbase2 n) (wind_start g f)

        h : Reads a k (n / 2 ^ 0) end
        h = loop_Reads n (sizeinbase2 n) (wind_start g f) pos (start_Reads n)

        whole : h.done ≡ n
        whole = omega (
          arith,
          h.total,
          pending_out end (loop_ends n (sizeinbase2 n) (wind_start g f) (sizeinbase2_pos n)),
        )

    -- `element_pow_wind` with a table of the first 2^k powers, k at least 1, computes the power.
    pub element_pow_wind-power : (n : ℕ) → 0 < k → element_pow_wind g f n k lookup ≡ power f a n
    unfolding element_pow_wind power
    element_pow_wind-power zero pos = refl
    element_pow_wind-power (suc m) pos =
        let nonzero : (suc m == 0) ≡ false = ground arith in rw nonzero (loop_power (suc m) pos)

  -- The entries of a table from index i on.
  table_from-power :
      (a : E) (rounds i j : ℕ) (previous : E)
      → previous ≡ power f a i
      → j < rounds
      → get_or (table_from g f a rounds previous) j set1 ≡ power f a (suc (i + j))
  unfolding table_from power
  table_from-power a zero i j previous e h = absurd (omega arith)
  table_from-power a (suc rounds) i zero previous e h =
      let start : i ≡ i + 0 = omega arith in
      mul_comm previous a ∙ ap (mul a) (e ∙ ap (power f a) start)
  table_from-power a (suc rounds) i (suc j) previous e h =
      table_from-power a rounds (suc i) j (mul previous a) (mul_comm previous a ∙ ap (mul a) e)
        (omega arith)
      ∙ ap (λ n. power f a (suc n)) (omega arith)

  -- `build_pow_window` tabulates the first 2^k powers.
  pub build_pow_window-IsWindow : (a : E) (k : ℕ) → IsWindow a k (build_pow_window g f a k)
  unfolding build_pow_window power
  build_pow_window-IsWindow a k zero h = refl
  build_pow_window-IsWindow a k (suc i) h =
      table_from-power a (2 ^ k - 1) 0 i set1 refl (omega arith)
      ∙ ap (λ n. power f a (suc n)) (omega arith)

  optimal_window_pos : (bits : ℕ) → 0 < optimal_window bits
  unfolding optimal_window
  optimal_window_pos bits = ground arith

  -- `generic_pow_mpz` computes the power of any base by any exponent, with the table and the window
  -- size that it chooses.
  pub generic_pow_mpz-power : (a : E) (n : ℕ) → generic_pow_mpz g f a n ≡ power f a n
  unfolding generic_pow_mpz power
  generic_pow_mpz-power a zero = refl
  generic_pow_mpz-power a (suc m) =
      let nonzero : (suc m == 0) ≡ false = ground arith in
      rw nonzero (
        element_pow_wind-power a (optimal_window (sizeinbase2 (suc m)))
          (build_pow_window g f a (optimal_window (sizeinbase2 (suc m))))
          (build_pow_window-IsWindow a (optimal_window (sizeinbase2 (suc m)))) (suc m)
          (optimal_window_pos (sizeinbase2 (suc m))))
