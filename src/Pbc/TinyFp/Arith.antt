-- ===== src/Pbc/TinyFp/Arith.antt =====
-- The operations of arith/tinyfp.c against arithmetic modulo p.
use native.Mathlib.Nat.{div-add-mod, mul-mod_right, mod_self, mod-eq_of_lt, mod-eq-sub-mod, mod-lt}
use dumbo_ms.Prelude.{
  ℕ, zero, suc, ◌+◌, ◌-◌, ◌*◌, ◌/◌, ◌%◌, ◌^◌, ◌<◌, ◌≤◌, ◌≡◌, ◌≢◌, refl, sym, ap, ◌∙◌, false, ltb,
  leb, leb→le, ◌==◌, arith, Bool-cases, inl, inr, if◌then◌else◌,
}
use dumbo_ms.Pbc.TinyFp.{
  Signed, pos, neg, word_mod, sub_word, set_si, add, double, sub, mul, square, neg_elem, sgn_odd,
}

-- A sum of two residues, reduced.
sum_mod : (p a b : ℕ) → a < p → b < p → p ≤ a + b → (a + b) % p ≡ a + b - p
sum_mod p a b h k le =
    mod-eq-sub-mod {n = a + b} {m = p} le ∙ mod-eq_of_lt {n = a + b - p} {m = p} (omega arith)

diff_mod : (p a b : ℕ) → a < p → b ≤ a → (a + p - b) % p ≡ a - b
diff_mod p a b h le =
    mod-eq-sub-mod {n = a + p - b} {m = p} (omega arith)
    ∙ (let less : a + p - b - p ≡ a - b = omega arith in ap (λ t. t % p) less)
    ∙ mod-eq_of_lt {n = a - b} {m = p} (omega arith)

-- What one overflow test makes of a wrapped sum.
wrapped_sum :
    (p a b : ℕ)
    → p < word_mod
    → a < p
    → b < p
    → (if ltb ((a + b) % word_mod) a then sub_word ((a + b) % word_mod) p else (a + b) % word_mod)
      ≡ (if ltb (a + b) word_mod then a + b else a + b - p)
wrapped_sum p a b small h k = ground arith

pub product_fits : (p a b : ℕ) → p ≤ 2 ^ 32 → a < p → b < p → a * b < word_mod
product_fits p a b h k l = grind arith

-- The sign of the other side; 0 is its own.
abbrev pub opposite : Signed → Signed
opposite (pos zero) = pos 0
opposite (pos (suc n)) = neg (suc n)
opposite (neg n) = pos n

module _ (p : ℕ) (small : p < word_mod) where
  -- Addition is addition modulo p for every modulus of one word: the wrap-around is undone.
  pub add-mod : (a b : ℕ) → a < p → b < p → add p a b ≡ (a + b) % p
  unfolding add
  add-mod a b h k =
      ap (λ t. t % p) (wrapped_sum p a b small h k) ∙ elim (Bool-cases (ltb (a + b) word_mod)) [
        | inl lt ↦ rw lt refl
        | inr ge ↦ rw ge (
            sym (
              sum_mod p a b h k (ground arith)
              ∙ sym (mod-eq_of_lt {n = a + b - p} {m = p} (omega arith))))
      ]

  -- So is doubling into another object.
  pub double-mod : (a : ℕ) → a < p → double p false a ≡ 2 * a % p
  unfolding double add
  double-mod a h = (let twice : 2 * a ≡ a + a = omega arith in rw twice (add-mod a a h h))

  pub sub-mod : (a b : ℕ) → a < p → b < p → sub p a b ≡ (a + p - b) % p
  unfolding sub
  sub-mod a b h k = elim (Bool-cases (leb b a)) [
    | inl le ↦
        rw le
          (sym (diff_mod p a b h (ground arith) ∙ (let q : b ≤ a = leb→le b a le in omega arith)))
    | inr gt ↦ rw gt (
        let q : a < b = ground arith in
        (let plain : (sub_word p b + a) % word_mod ≡ a + p - b = omega arith in
          plain ∙ sym (mod-eq_of_lt {n = a + p - b} {m = p} (omega arith))))
  ]

  pub neg_elem-mod : (a : ℕ) → a < p → neg_elem p a ≡ (p - a) % p
  unfolding neg_elem
  neg_elem-mod zero h =
      let whole : p ≡ p - 0 = omega arith in sym (mod_self p) ∙ ap (λ t. t % p) whole
  neg_elem-mod (suc a) h =
      (let nonzero : (suc a == 0) ≡ false = ground arith in
        rw nonzero (
          let plain : sub_word p (suc a) ≡ p - suc a = omega arith in
          plain ∙ sym (mod-eq_of_lt {n = p - suc a} {m = p} (omega arith))))

  -- The product is right as long as it fits a word, for any modulus up to 2^32 in particular.
  pub mul-mod : (a b : ℕ) → a * b < word_mod → mul p a b ≡ a * b % p
  unfolding mul
  mul-mod a b h = let plain : a * b % word_mod ≡ a * b = omega arith in ap (λ t. t % p) plain

  -- A negative integer -m that the modulus does not divide is converted to the residue of -m.
  pub set_si-neg :
      (m : ℕ) → 0 < p → m % p ≢ 0 → ((set_si p (neg m) + m) % p ≡ 0) × (set_si p (neg m) < p)
  unfolding set_si
  set_si-neg m h ne =
      (ap (λ t. t % p) whole ∙ mul-mod_right p (m / p + 1), omega (arith, mod-lt m h))
    where
      whole : sub_word p (m % p) + m ≡ p * (m / p + 1)
      whole = omega (arith, div-add-mod m p, mod-lt m h)

  -- For residues of a modulus of one word, addition, doubling into another object, subtraction and
  -- negation are those modulo p, and every result is a residue.
  pub linear_ops-mod :
      (a b : ℕ)
      → a < p
      → b < p
      → (add p a b ≡ (a + b) % p)
        × (double p false a ≡ 2 * a % p)
        × (sub p a b ≡ (a + p - b) % p)
        × (neg_elem p a ≡ (p - a) % p)
        × (add p a b < p)
        × (double p false a < p)
        × (sub p a b < p)
        × (neg_elem p a < p)
  linear_ops-mod a b h k = omega (
    arith,
    add-mod a b h k,
    double-mod a h,
    sub-mod a b h k,
    neg_elem-mod a h,
    mod-lt (a + b) pos,
    mod-lt (2 * a) pos,
    mod-lt (a + p - b) pos,
    mod-lt (p - a) pos,
  )
    where
      pos : 0 < p
      pos = omega arith

  -- Up to a modulus of 2^32 products and squares of residues are those modulo p, and a product is
  -- a residue.
  pub mul-mod_small :
      p ≤ 2 ^ 32
      → (a b : ℕ) → a < p
      → b < p
      → (mul p a b ≡ a * b % p) × (square p a ≡ a * a % p) × (mul p a b < p)
  unfolding square
  mul-mod_small bound a b h k = (
    mul-mod a b (product_fits p a b bound h k),
    mul-mod a a (product_fits p a a bound h h),
    omega (arith, mul-mod a b (product_fits p a b bound h k), mod-lt (a * b) {m = p} (omega arith)),
  )

  -- For an odd modulus a residue and its negative have opposite signs.
  pub sgn_odd-neg : p % 2 ≡ 1 → (a : ℕ) → a < p → opposite (sgn_odd p a) ≡ sgn_odd p (neg_elem p a)
  unfolding sgn_odd neg_elem
  sgn_odd-neg odd a h = ground arith
