-- ===== src/Pbc/PolyMod/Multiply.antt =====
-- The general product of arith/poly.c modulo a monic polynomial.
use dumbo_ms.Prelude.{
  ℕ, zero, suc, ◌+◌, ◌-◌, ◌≤◌, ◌<◌, arith, ◌≡◌, refl, sym, ap, ap₂, subst, ◌∙◌, List, [], ◌∷◌,
  length, length-append, length-drop, length-replicate, replicate, take, drop,
}
use dumbo_ms.Pbc.Structure.{Structure}
use dumbo_ms.Pbc.Structure.Ring.{IsRing, ring, mul_zero, zero_mul, zero_add}
use dumbo_ms.Pbc.Structure.Morphism.{IsMorphism}
use dumbo_ms.Pbc.Poly.{Poly}
use dumbo_ms.Pbc.Poly.Eval.{eval, sum_step}
use dumbo_ms.Pbc.Poly.Shift.{shift, shift-add, shift-mul, shift-step, shift-zero, shift-shift}
use dumbo_ms.Pbc.PolyMod.{
  Halves, add_row, mul_row, mul_rows, reduce, polymod_mul, polymod_add, polymod_const_mul,
  init_modulus, next_power, powers_from, compute_x_powers, polymod_neg, poly_to_polymod_truncate,
}
use dumbo_ms.Pbc.PolyMod.Powers.{
  ArePowers, eval-split, eval-polymod_add, eval-const_mul, length-polymod_add, length-const_mul,
  length-take_of, shift_one, monic, compute_x_powers-ArePowers,
}

length-add_row :
    {E : Type 0} (o : Structure E) (k : ℕ) (c : E) (bs ds : Poly E)
    → length (add_row o k c bs ds) ≡ length ds
unfolding add_row
length-add_row o (suc k) c bs [] = refl
length-add_row o (suc k) c bs (d ∷ ds) = ap suc (length-add_row o k c bs ds)
length-add_row o zero c [] ds = refl
length-add_row o zero c (b ∷ bs) [] = refl
length-add_row o zero c (b ∷ bs) (d ∷ ds) = ap suc (length-add_row o zero c bs ds)

module _ {E R : Type 0} {o : Structure E} {t : Structure R} {φ : E → R} (m : IsMorphism o t φ)
    (x : R) where
  r : IsRing t
  r = m.target

  abbrev value : Poly E → R
  value = eval t φ x

  later : (a u v : R) → t.add a (t.mul x (t.add u v)) ≡ t.add (t.add a (t.mul x u)) (t.mul x v)
  later a u v = simp (ring, r)

  scale_step : (q b v : R) → t.add (t.mul q b) (t.mul x (t.mul q v)) ≡ t.mul q (t.add b (t.mul x v))
  scale_step q b v = simp (ring, r)

  pub eval-add_row :
      (k : ℕ) (c : E) (bs ds : Poly E)
      → k + length bs ≤ length ds
      → value (add_row o k c bs ds) ≡ t.add (value ds) (shift m x k (t.mul (φ c) (value bs)))
  unfolding add_row
  eval-add_row (suc k) c bs [] h = absurd (omega arith)
  eval-add_row (suc k) c bs (d ∷ ds) h =
      ap (λ u. t.add (φ d) (t.mul x u)) (eval-add_row k c bs ds (omega arith))
      ∙ later (φ d) (value ds) (shift m x k (t.mul (φ c) (value bs)))
  eval-add_row zero c [] ds h =
      sym (ap (t.add (value ds)) (mul_zero r (φ c)) ∙ r.add_zero (value ds))
  eval-add_row zero c (b ∷ bs) [] h = absurd (omega arith)
  eval-add_row zero c (b ∷ bs) (d ∷ ds) h =
      ap₂ (λ u v. t.add u (t.mul x v)) (m.φ_add d (o.mul c b) ∙ ap (t.add (φ d)) (m.φ_mul c b))
        (eval-add_row zero c bs ds (omega arith))
      ∙ sum_step m x (φ d) (t.mul (φ c) (φ b)) (value ds) (t.mul (φ c) (value bs))
      ∙ ap (t.add (t.add (φ d) (t.mul x (value ds)))) (scale_step (φ c) (φ b) (value bs))

  -- The value of both halves: dst + x^n high.
  abbrev whole : ℕ → Halves E → R
  whole n h = t.add (value h.dst) (shift m x n (value h.high))

  abbrev Fits : ℕ → Halves E → Type 0
  Fits n h = (length h.dst ≡ n) × (suc (length h.high) ≡ n)

  mul_row-Fits :
      (n i : ℕ) (c : E) (s : Poly E) (h : Halves E) → Fits n h → Fits n (mul_row o n i c s h)
  unfolding mul_row
  mul_row-Fits n i c s h k = (
    length-add_row o i c (take (n - i) s) h.dst ∙ k.0,
    ap suc (length-add_row o 0 c (drop (n - i) s) h.high) ∙ k.1,
  )

  interchange : (a b c d : R) → t.add (t.add a b) (t.add c d) ≡ t.add (t.add a c) (t.add b d)
  interchange a b c d = simp (ring, r)

  mul_row-whole :
      (n i : ℕ) (c : E) (s : Poly E) (h : Halves E)
      → Fits n h
      → length s ≡ n
      → i < n
      → whole n (mul_row o n i c s h) ≡ t.add (whole n h) (shift m x i (t.mul (φ c) (value s)))
  unfolding mul_row
  mul_row-whole n i c s h k l b =
      ap₂ (λ u v. t.add u (shift m x n v))
        (eval-add_row i c low h.dst
          (let p = length-take_of m x (n - i) s (omega arith) in let q = k.0 in omega arith))
        (eval-add_row 0 c high h.high (let p = length-drop (n - i) s in let q = k.1 in omega arith))
      ∙ ap (t.add (t.add (value h.dst) (shift m x i (t.mul (φ c) (value low)))))
          (shift-add m x n (value h.high) (t.mul (φ c) (value high)))
      ∙ interchange (value h.dst) (shift m x i (t.mul (φ c) (value low)))
          (shift m x n (value h.high)) (shift m x n (t.mul (φ c) (value high)))
      ∙ ap (t.add (whole n h)) joined
    where
      low : Poly E
      low = take (n - i) s

      high : Poly E
      high = drop (n - i) s

      joined :
          t.add (shift m x i (t.mul (φ c) (value low))) (shift m x n (t.mul (φ c) (value high)))
          ≡ shift m x i (t.mul (φ c) (value s))
      joined =
          ap (t.add (shift m x i (t.mul (φ c) (value low))))
            (sym (shift-shift m x i (n - i) n (t.mul (φ c) (value high)) (omega arith)))
          ∙ sym (
              shift-add m x i (t.mul (φ c) (value low))
                (shift m x (n - i) (t.mul (φ c) (value high))))
          ∙ ap (λ u. shift m x i (t.add (t.mul (φ c) (value low)) u))
              (ap (shift m x (n - i)) (r.mul_comm (φ c) (value high))
                ∙ shift-mul m x (n - i) (value high) (φ c))
          ∙ ap (shift m x i) (
              sym (r.mul_add (φ c) (value low) (shift m x (n - i) (value high)))
              ∙ ap (t.mul (φ c)) (sym (eval-split m x (n - i) s (omega arith))))

  shift_zeros : (n : ℕ) → value (replicate n o.set0) ≡ t.set0
  shift_zeros zero = refl
  shift_zeros (suc n) =
      ap₂ (λ u v. t.add u (t.mul x v)) m.φ_set0 (shift_zeros n)
      ∙ ap (t.add t.set0) (mul_zero r x)
      ∙ r.add_zero t.set0

  row_step :
      (w a c s v : R) (i : ℕ)
      → t.add (t.add w (shift m x i (t.mul c s))) (t.mul x (shift m x i (t.mul v s)))
        ≡ t.add w (shift m x i (t.mul (t.add c (t.mul x v)) s))
  row_step w a c s v i =
      r.add_assoc w (shift m x i (t.mul c s)) (t.mul x (shift m x i (t.mul v s)))
      ∙ ap (t.add w) (
          ap (t.add (shift m x i (t.mul c s))) (sym (shift-step m x i (t.mul v s)))
          ∙ sym (shift-add m x i (t.mul c s) (t.mul x (t.mul v s)))
          ∙ ap (shift m x i) (cauchy_step c v s))
    where
      cauchy_step :
          (c v g : R) → t.add (t.mul c g) (t.mul x (t.mul v g)) ≡ t.mul (t.add c (t.mul x v)) g
      cauchy_step c v g = simp (ring, r)

  -- All rows together: the whole product.
  mul_rows-whole :
      (n i : ℕ) (s1 s2 : Poly E) (h : Halves E)
      → Fits n h
      → length s2 ≡ n
      → i + length s1 ≤ n
      → (whole n (mul_rows o n i s1 s2 h)
          ≡ t.add (whole n h) (shift m x i (t.mul (value s1) (value s2))))
        × Fits n (mul_rows o n i s1 s2 h)
  unfolding mul_rows
  mul_rows-whole n i [] s2 h k l b = (
    sym (
        ap (t.add (whole n h)) (ap (shift m x i) (zero_mul r (value s2)) ∙ shift-zero m x i)
        ∙ r.add_zero (whole n h)),
    k,
  )
  mul_rows-whole n i (c ∷ cs) s2 h k l b =
      let rest =
        mul_rows-whole n (i + 1) cs s2 (mul_row o n i c s2 h) (mul_row-Fits n i c s2 h k) l
          (omega arith) in
      (
        rest.0
            ∙ ap₂ t.add (mul_row-whole n i c s2 h k l (omega arith)) (
                ap (λ j. shift m x j (t.mul (value cs) (value s2)))
                  (let next : i + 1 ≡ suc i = omega arith in next))
            ∙ row_step (whole n h) (φ c) (φ c) (value s2) (value cs) i,
        rest.1,
      )

  reduce_step :
      (p v h u : R)
      → t.add (t.add p (t.mul v h)) (t.mul (t.mul x v) u) ≡ t.add p (t.mul v (t.add h (t.mul x u)))
  reduce_step p v h u = simp (ring, r)

  -- The high half, with x^n, x^(n+1), .. for its powers.
  reduce-value :
      (n : ℕ) (v : R) (hs : Poly E) (ps : List (Poly E)) (prod : Poly E)
      → ArePowers m x n v ps
      → length hs ≤ length ps
      → length prod ≡ n
      → value (reduce o hs ps prod) ≡ t.add (value prod) (t.mul v (value hs))
  unfolding reduce
  reduce-value n v [] ps prod a l k =
      sym (ap (t.add (value prod)) (mul_zero r v) ∙ r.add_zero (value prod))
  reduce-value n v (h ∷ hs) [] prod a l k = absurd (omega arith)
  reduce-value n v (h ∷ hs) (p ∷ ps) prod a l k =
      let long : length prod ≡ length (polymod_const_mul o h p) =
        k ∙ sym (length-const_mul o h p ∙ a.0) in
      reduce-value n (t.mul x v) hs ps (polymod_add o prod (polymod_const_mul o h p)) a.2
        (omega arith) (length-polymod_add o prod (polymod_const_mul o h p) long ∙ k)
      ∙ ap (λ u. t.add u (t.mul (t.mul x v) (value hs)))
          (eval-polymod_add m x prod (polymod_const_mul o h p) long
            ∙ ap (t.add (value prod)) (eval-const_mul m x h p ∙ ap (λ u. t.mul u (φ h)) a.1))
      ∙ reduce_step (value prod) v (φ h) (value hs)

  length-powers_from :
      (rounds n : ℕ) (pwrn prev : Poly E) → length (powers_from o rounds n pwrn prev) ≡ rounds
  unfolding powers_from
  length-powers_from zero n pwrn prev = refl
  length-powers_from (suc rounds) n pwrn prev =
      ap suc (length-powers_from rounds n pwrn (next_power o n pwrn prev))

  length-compute_x_powers : (n : ℕ) (f : Poly E) → length (compute_x_powers o n f) ≡ n
  unfolding compute_x_powers
  length-compute_x_powers n f =
      length-powers_from n n (polymod_neg o (poly_to_polymod_truncate o n f))
        (polymod_neg o (poly_to_polymod_truncate o n f))

  abbrev start : ℕ → Halves E
  start n = record { dst = replicate n o.set0; high = replicate (n - 1) o.set0 }

  product_value :
      (k : ℕ) (ps : List (Poly E)) (e f : Poly E)
      → ArePowers m x (suc k) (shift m x (suc k) t.set1) ps
      → length ps ≡ suc k
      → length e ≡ suc k
      → length f ≡ suc k
      → (h : Halves E) → h ≡ mul_rows o (suc k) 0 e f (start (suc k))
      → value (reduce o h.high ps h.dst) ≡ t.mul (value e) (value f)
  product_value k ps e f a l le lf h same =
      reduce-value (suc k) (shift m x (suc k) t.set1) h.high ps h.dst a
        (let q = fits.1 in omega arith) fits.0
      ∙ ap (t.add (value h.dst)) (shift_one m x (suc k) (value h.high))
      ∙ ap (whole (suc k)) same
      ∙ rows.0
      ∙ ap₂ t.add
          (ap₂ (λ u v. t.add u (shift m x (suc k) v)) (shift_zeros (suc k))
              (shift_zeros (suc k - 1))
            ∙ ap (t.add t.set0) (shift-zero m x (suc k))
            ∙ r.add_zero t.set0)
          refl
      ∙ zero_add r (t.mul (value e) (value f))
    where
      empty : Halves E
      empty = start (suc k)

      rows :
          (whole (suc k) (mul_rows o (suc k) 0 e f empty)
            ≡ t.add (whole (suc k) empty) (shift m x 0 (t.mul (value e) (value f))))
          × Fits (suc k) (mul_rows o (suc k) 0 e f empty)
      rows =
          mul_rows-whole (suc k) 0 e f empty
            (
              length-replicate (suc k) o.set0,
              let q = length-replicate (suc k - 1) o.set0 in omega arith,
            )
            lf (omega arith)

      fits : Fits (suc k) h
      fits = subst (Fits (suc k)) (sym same) rows.1

  -- The product modulo a monic polynomial has the product of the values at every root of the
  -- modulus, for arrays as long as its degree.
  pub polymod_mul-eval :
      (c : E) (cs e f : Poly E)
      → value (monic m x (c ∷ cs)) ≡ t.set0
      → length e ≡ length (c ∷ cs)
      → length f ≡ length (c ∷ cs)
      → value (polymod_mul o (init_modulus o (monic m x (c ∷ cs))) e f) ≡ t.mul (value e) (value f)
  unfolding polymod_mul init_modulus
  polymod_mul-eval c cs e f h le lf =
      subst
        (λ i.
          value
            (polymod_mul o (record { n = i; poly = poly; xpwr = compute_x_powers o i poly }) e f)
          ≡ t.mul (value e) (value f))
        degree
        (product_value (length cs) (compute_x_powers o (length (c ∷ cs)) poly) e f
          (compute_x_powers-ArePowers m x c cs h) (length-compute_x_powers (length (c ∷ cs)) poly)
          le lf (mul_rows o (length (c ∷ cs)) 0 e f (start (length (c ∷ cs)))) refl)
    where
      poly : Poly E
      poly = monic m x (c ∷ cs)

      degree : length (c ∷ cs) ≡ length poly - 1
      degree = let l = length-append (c ∷ cs) (o.set1 ∷ []) in omega arith
