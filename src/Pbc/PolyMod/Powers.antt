-- ===== src/Pbc/PolyMod/Powers.antt =====
-- The arrays of arith/poly.c at a root of the modulus: sums, multiples, parts and the powers x^n,
-- x^(n+1), .. that the field keeps reduced.
use dumbo_ms.Prelude.{
  ℕ, zero, suc, ◌-◌, ◌≤◌, arith, ◌≡◌, refl, sym, ap, ap₂, subst, ◌∙◌, List, [], ◌∷◌, ◌++◌, length,
  length-map, length-append, append-nil, get_or, replicate, take, drop, take-append,
}
use dumbo_ms.Pbc.Structure.{Structure}
use dumbo_ms.Pbc.Structure.Ring.{IsRing, ring, mul_zero, zero_add, one_mul, neg_of_add}
use dumbo_ms.Pbc.Structure.Morphism.{IsMorphism}
use dumbo_ms.Pbc.Poly.{Poly}
use dumbo_ms.Pbc.Poly.Eval.{eval, sum_step, eval-neg}
use dumbo_ms.Pbc.Poly.Shift.{shift, shift-mul}
use dumbo_ms.Pbc.PolyMod.{
  polymod_add, polymod_const_mul, polymod_neg, next_power, powers_from, compute_x_powers,
  poly_to_polymod_truncate,
}

pub length-polymod_add :
    {E : Type 0} (o : Structure E) (e f : Poly E)
    → length e ≡ length f
    → length (polymod_add o e f) ≡ length e
unfolding polymod_add
length-polymod_add o [] f h = refl
length-polymod_add o (e ∷ es) [] h = absurd (omega arith)
length-polymod_add o (e ∷ es) (f ∷ fs) h = ap suc (length-polymod_add o es fs (omega arith))

pub length-const_mul :
    {E : Type 0} (o : Structure E) (a : E) (e : Poly E)
    → length (polymod_const_mul o a e) ≡ length e
unfolding polymod_const_mul
length-const_mul o a e = length-map e (λ c. o.mul c a)

module _ {E R : Type 0} {o : Structure E} {t : Structure R} {φ : E → R} (m : IsMorphism o t φ)
    (x : R) where
  r : IsRing t
  r = m.target

  abbrev value : Poly E → R
  value = eval t φ x

  pub eval-polymod_add :
      (e f : Poly E) → length e ≡ length f → value (polymod_add o e f) ≡ t.add (value e) (value f)
  unfolding polymod_add
  eval-polymod_add [] [] h = sym (r.add_zero t.set0)
  eval-polymod_add [] (f ∷ fs) h = absurd (omega arith)
  eval-polymod_add (e ∷ es) [] h = absurd (omega arith)
  eval-polymod_add (e ∷ es) (f ∷ fs) h =
      ap₂ (λ u v. t.add u (t.mul x v)) (m.φ_add e f) (eval-polymod_add es fs (omega arith))
      ∙ sum_step m x (φ e) (φ f) (value es) (value fs)

  scale_step : (c a u : R) → t.add (t.mul a c) (t.mul x (t.mul u c)) ≡ t.mul (t.add a (t.mul x u)) c
  scale_step c a u = simp (ring, r)

  pub eval-const_mul :
      (a : E) (e : Poly E) → value (polymod_const_mul o a e) ≡ t.mul (value e) (φ a)
  unfolding polymod_const_mul
  eval-const_mul a [] = sym (r.mul_comm t.set0 (φ a) ∙ mul_zero r (φ a))
  eval-const_mul a (e ∷ es) =
      ap₂ (λ u v. t.add u (t.mul x v)) (m.φ_mul e a) (eval-const_mul a es)
      ∙ scale_step (φ a) (φ e) (value es)

  append_step :
      (a u v : R) → t.add a (t.mul x (t.add u v)) ≡ t.add (t.add a (t.mul x u)) (t.mul x v)
  append_step a u v = simp (ring, r)

  -- The first k coefficients and the others.
  pub eval-split :
      (k : ℕ) (f : Poly E)
      → k ≤ length f
      → value f ≡ t.add (value (take k f)) (shift m x k (value (drop k f)))
  eval-split zero f h = sym (zero_add r (value f))
  eval-split (suc k) [] h = absurd (omega arith)
  eval-split (suc k) (c ∷ cs) h =
      ap (λ u. t.add (φ c) (t.mul x u)) (eval-split k cs (omega arith))
      ∙ append_step (φ c) (value (take k cs)) (shift m x k (value (drop k cs)))

  constant : (c : E) → value (c ∷ []) ≡ φ c
  constant c = ap (t.add (φ c)) (mul_zero r x) ∙ r.add_zero (φ c)

  -- The last of k + 1 coefficients.
  drop_last : (k : ℕ) (f : Poly E) → length f ≡ suc k → drop k f ≡ get_or f k o.set0 ∷ []
  drop_last k [] h = absurd (omega arith)
  drop_last zero (c ∷ []) h = refl
  drop_last zero (c ∷ d ∷ ds) h = absurd (omega arith)
  drop_last (suc k) (c ∷ cs) h = drop_last k cs (omega arith)

  pub length-take_of : (k : ℕ) (f : Poly E) → k ≤ length f → length (take k f) ≡ k
  length-take_of zero f h = refl
  length-take_of (suc k) [] h = absurd (omega arith)
  length-take_of (suc k) (c ∷ cs) h = ap suc (length-take_of k cs (omega arith))

  pub shift_one : (k : ℕ) (v : R) → t.mul (shift m x k t.set1) v ≡ shift m x k v
  shift_one k v =
      r.mul_comm (shift m x k t.set1) v
      ∙ sym (shift-mul m x k t.set1 v)
      ∙ ap (shift m x k) (one_mul r v)

  length-next_power :
      (k : ℕ) (pwrn prev : Poly E)
      → length pwrn ≡ suc k
      → length prev ≡ suc k
      → length (next_power o (suc k) pwrn prev) ≡ suc k
  unfolding next_power
  length-next_power k pwrn prev h l =
      let p = length-take_of k prev (omega arith) in
      let q = length-const_mul o (get_or prev (suc k - 1) o.set0) pwrn in
      let s =
        length-polymod_add o (take (suc k) (o.set0 ∷ prev))
          (polymod_const_mul o (get_or prev (suc k - 1) o.set0) pwrn) (omega arith) in
      omega arith

  -- A round of `compute_x_powers` multiplies by x.
  eval-next_power :
      (k : ℕ) (pwrn prev : Poly E)
      → length pwrn ≡ suc k
      → length prev ≡ suc k
      → value pwrn ≡ shift m x (suc k) t.set1
      → value (next_power o (suc k) pwrn prev) ≡ t.mul x (value prev)
  unfolding next_power
  eval-next_power k pwrn prev h l e =
      eval-polymod_add (o.set0 ∷ take k prev) (polymod_const_mul o last pwrn) (
        let p = length-take_of k prev (omega arith) in
        let q = length-const_mul o last pwrn in omega arith)
      ∙ ap₂ t.add
          (ap (λ u. t.add u (t.mul x (value (take k prev)))) m.φ_set0
            ∙ zero_add r (t.mul x (value (take k prev))))
          (eval-const_mul last pwrn ∙ ap (λ u. t.mul u (φ last)) e ∙ shift_one (suc k) (φ last))
      ∙ sym (
          ap (t.mul x) (
            eval-split k prev (omega arith)
            ∙ ap (λ u. t.add (value (take k prev)) (shift m x k u))
                (ap value (drop_last k prev l)
                  ∙ constant (get_or prev k o.set0)
                  ∙ ap (λ i. φ (get_or prev i o.set0))
                      (let same : k ≡ suc k - 1 = omega arith in same)))
          ∙ r.mul_add x (value (take k prev)) (shift m x k (φ last)))
    where
      last : E
      last = get_or prev (suc k - 1) o.set0

  -- A list of arrays of length n with the values v, x v, x^2 v, ..
  abbrev pub ArePowers : ℕ → R → List (Poly E) → Type 0
  ArePowers n v [] = Unit {0}
  ArePowers n v (p ∷ ps) = (length p ≡ n) × (value p ≡ v) × ArePowers n (t.mul x v) ps

  powers_from-ArePowers :
      (rounds k : ℕ) (pwrn prev : Poly E) (v : R)
      → length pwrn ≡ suc k
      → value pwrn ≡ shift m x (suc k) t.set1
      → length prev ≡ suc k
      → value prev ≡ v
      → ArePowers (suc k) v (powers_from o rounds (suc k) pwrn prev)
  unfolding powers_from
  powers_from-ArePowers zero k pwrn prev v h e l w = tt
  powers_from-ArePowers (suc rounds) k pwrn prev v h e l w = (
    l,
    w,
    powers_from-ArePowers rounds k pwrn (next_power o (suc k) pwrn prev) (t.mul x v) h e
        (length-next_power k pwrn prev h l) (eval-next_power k pwrn prev h l e ∙ ap (t.mul x) w),
  )

  length-neg : (f : Poly E) → length (polymod_neg o f) ≡ length f
  unfolding polymod_neg
  length-neg f = length-map f o.neg

  eval-negative : (f : Poly E) → value (polymod_neg o f) ≡ t.neg (value f)
  unfolding polymod_neg
  eval-negative f = eval-neg m x f

  -- A modulus x^(k+1) + low, and its root x.
  abbrev pub monic : Poly E → Poly E
  monic low = low ++ (o.set1 ∷ [])

  take_of_monic : (low : Poly E) → poly_to_polymod_truncate o (length low) (monic low) ≡ low
  unfolding poly_to_polymod_truncate
  take_of_monic low =
      ap₂ (λ u n. u ++ replicate n o.set0) (take-append low (o.set1 ∷ []))
        (let l = length-append low (o.set1 ∷ []) in
          let same : length low - length (monic low) ≡ 0 = omega arith in same)
      ∙ append-nil low

  drop-monic : (low : Poly E) → drop (length low) (monic low) ≡ o.set1 ∷ []
  drop-monic [] = refl
  drop-monic (c ∷ cs) = drop-monic cs

  pub eval-monic :
      (low : Poly E) → value (monic low) ≡ t.add (value low) (shift m x (length low) t.set1)
  eval-monic low =
      eval-split (length low) (monic low) (let l = length-append low (o.set1 ∷ []) in omega arith)
      ∙ ap₂ (λ u v. t.add (value u) (shift m x (length low) v)) (take-append low (o.set1 ∷ []))
          (ap value (drop-monic low) ∙ constant o.set1 ∙ m.φ_set1)

  -- At a root of the modulus the kept arrays have the values x^n, x^(n+1), ..
  pub compute_x_powers-ArePowers :
      (c : E) (cs : Poly E)
      → value (monic (c ∷ cs)) ≡ t.set0
      → ArePowers
          (length (c ∷ cs))
          (shift m x (length (c ∷ cs)) t.set1)
          (compute_x_powers o (length (c ∷ cs)) (monic (c ∷ cs)))
  unfolding compute_x_powers
  compute_x_powers-ArePowers c cs h =
      subst
        (λ low.
          ArePowers n (shift m x n t.set1)
            (powers_from o n n (polymod_neg o low) (polymod_neg o low)))
        (sym (take_of_monic (c ∷ cs)))
        (powers_from-ArePowers n (length cs) (polymod_neg o (c ∷ cs)) (polymod_neg o (c ∷ cs))
          (shift m x n t.set1) long negative long negative)
    where
      n : ℕ
      n = length (c ∷ cs)

      long : length (polymod_neg o (c ∷ cs)) ≡ n
      long = length-neg (c ∷ cs)

      negative : value (polymod_neg o (c ∷ cs)) ≡ shift m x n t.set1
      negative =
          eval-negative (c ∷ cs)
          ∙ neg_of_add r (shift m x n t.set1) (value (c ∷ cs))
              (r.add_comm (shift m x n t.set1) (value (c ∷ cs)) ∙ sym (eval-monic (c ∷ cs)) ∙ h)
