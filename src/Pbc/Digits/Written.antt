-- ===== src/Pbc/Digits/Written.antt =====
-- The digits of a number, in print and in reading, arith/field.c.
use dumbo_ms.Prelude.{
  ℕ, zero, suc, ◌+◌, ◌-◌, ◌*◌, ◌/◌, ◌%◌, ◌^◌, ◌<◌, ◌≤◌, ltb, leb, ltb→lt, lt→ltb, Bool, arith,
  if◌then◌else◌, Bool-cases, inl, inr, true, false, ◌≡◌, refl, ap, ap₂, subst, ◌∙◌, List, [], ◌∷◌,
  Option, none, some,
}
use native.Mathlib.Nat.{
  pow-suc, mod-lt, mod-eq_of_lt, div-eq_of_lt, div-eq_of_eq-mul_left, pow-le-pow_right,
}
use dumbo_ms.Pbc.Digits.{
  default_base, pbc_mpz_set_str, Answer, zeros_loop, digits_loop, pbc_mpz_trickle, trickle_in,
  set_str_in,
}
use dumbo_ms.Pbc.Digits.Read.{digits, text, false_of_lt, pow_pos, pow_one, set_str-digits}

abbrev pub last_of : {S : Type 0} → Answer S → Option (Answer S) → Answer S
last_of a none = a
last_of a (some b) = b

-- The calls for the digits in order up to the first that stops; its answer, or the last one.
abbrev pub calls : {S : Type 0} → (ℕ → S → Answer S) → List ℕ → S → Option (Answer S)
calls fun [] s = none
calls fun (x ∷ xs) s =
    let a = fun (48 + x) s in
    let rest = calls fun xs a.state in some (if a.res then a else last_of a rest)

module _ {S : Type 0} (fun : ℕ → S → Answer S) where
  -- A number of one digit behind zeros.
  zeros_loop-digits :
      (b l z : ℕ) (s : S) → 2 ≤ b → z < b → some (zeros_loop fun l z s) ≡ calls fun (digits b l z) s
  unfolding zeros_loop
  zeros_loop-digits b zero z s h k = ground arith
  zeros_loop-digits b (suc l) z s h k =
      rw (div-eq_of_lt small, mod-eq_of_lt small)
        (ap (λ t. some (if (fun 48 s).res then fun 48 s else last_of (fun 48 s) t))
          (zeros_loop-digits b l z (fun 48 s).state h k))
    where
      small : z < b ^ suc l
      small =
          let p : b ^ 1 ≤ b ^ suc l = pow-le-pow_right (omega arith) (omega arith) in
          omega (arith, pow_one b)

  -- There is a last call.
  calls-some :
      (b l z : ℕ) (s : S) (a : Answer S)
      → calls fun (digits b l z) s ≡ some (last_of a (calls fun (digits b l z) s))
  calls-some b zero z s a = refl
  calls-some b (suc l) z s a = refl

  joined_answer :
      (stop : Bool) (a : Answer S) (o : Option (Answer S))
      → o ≡ some (last_of a o)
      → (if stop then some a else o) ≡ some (if stop then a else last_of a o)
  joined_answer true a o h = refl
  joined_answer false a o h = h

  digits_loop-digits :
      (fuel b l z : ℕ) (s : S)
      → 2 ≤ b
      → z < b ^ suc l
      → l < fuel
      → digits_loop fun fuel b (b ^ l) z l s ≡ calls fun (digits b l z) s
  unfolding digits_loop
  digits_loop-digits zero b l z s h k n = absurd (omega arith)
  digits_loop-digits (suc fuel) b zero z s h k n =
      rw (false_of_lt b z (subst (λ t. z < t) (pow_one b) k))
        (zeros_loop-digits b zero z s h (subst (λ t. z < t) (pow_one b) k))
  digits_loop-digits (suc fuel) b (suc l) z s h k n = elim (Bool-cases (leb b z)) [
    | inl t ↦
        rw
          (
            t,
            quotient,
            less,
            digits_loop-digits fuel b l (z % b ^ suc l) a.state h
                (mod-lt z (pow_pos b (suc l) (omega arith))) (omega arith),
          )
          (joined_answer a.res a (calls fun (digits b l (z % b ^ suc l)) a.state)
            (calls-some b l (z % b ^ suc l) a.state a))
    | inr t ↦ rw t (
        zeros_loop-digits b (suc l) z s h
          (elim (Bool-cases (ltb z b)) [ inl u ↦ ltb→lt z b u | inr u ↦ ground arith ]))
  ]
    where
      a : Answer S
      a = fun (48 + z / b ^ suc l) s

      quotient : b ^ suc l / b ≡ b ^ l
      quotient = div-eq_of_eq-mul_left (omega arith) (pow-suc b l)

      less : suc l - 1 ≡ l
      less = omega arith

-- The digits that `pbc_mpz_trickle` passes on: as many as the size that GMP announces.
abbrev pub written : (ℕ → ℕ → ℕ) → ℕ → ℕ → List ℕ
written sizeinbase base n = digits (default_base base) (sizeinbase n (default_base base) - 1) n

false_of_le : (a b : ℕ) → b ≤ a → ltb a b ≡ false
false_of_le a b h = ground arith

written_in :
    {S : Type 0} (fun : ℕ → S → Answer S) (sizeinbase : ℕ → ℕ → ℕ) (b n : ℕ) (s : S)
    → (1 ≤ sizeinbase n b) × (n < b ^ sizeinbase n b)
    → 2 ≤ b
    → b ≤ 10
    → (trickle_in fun sizeinbase b n s ≡ calls fun (digits b (sizeinbase n b - 1) n) s)
      × (set_str_in (text (digits b (sizeinbase n b - 1) n)) b
          ≡ record { z = n; count = sizeinbase n b })
unfolding trickle_in set_str_in
written_in fun sizeinbase b n s size h k = (
  rw (false_of_le b 2 h, false_of_le 10 b k, lt→ltb n (b ^ sizeinbase n b) size.1, quotient)
      (digits_loop-digits fun (sizeinbase n b + 1) b (sizeinbase n b - 1) n s h small
        (omega arith)),
  rw (false_of_le b 2 h, false_of_le 36 b (omega arith))
      (set_str-digits b (sizeinbase n b - 1) n 0 0 h k small
        ∙ ap₂ (λ u v. record { z = u; count = v })
            (let same : 0 * b ^ suc (sizeinbase n b - 1) + n ≡ n = omega arith in same)
            (let same : 0 + suc (sizeinbase n b - 1) ≡ sizeinbase n b = omega (arith, size.0) in
              same)),
)
  where
    len_eq : sizeinbase n b ≡ suc (sizeinbase n b - 1)
    len_eq = omega (arith, size.0)

    small : n < b ^ suc (sizeinbase n b - 1)
    small = subst (λ t. n < b ^ t) len_eq size.1

    quotient : b ^ sizeinbase n b / b ≡ b ^ (sizeinbase n b - 1)
    quotient =
        ap (λ t. b ^ t / b) len_eq
        ∙ div-eq_of_eq-mul_left (omega arith) (pow-suc b (sizeinbase n b - 1))

-- With sizes from `sizeinbase` that are at least 1 and large enough, and a base from 2 to 10 (or 0
-- for 10), the printing loop ends and calls its function on the digits `written`, of which the first
-- is 0 where the size is too large, in order until a call stops it; and reading their text back in
-- the base gives n and the size.
pub pbc_mpz_trickle-set_str :
    {S : Type 0} (fun : ℕ → S → Answer S) (sizeinbase : ℕ → ℕ → ℕ) (base n : ℕ) (s : S)
    → ((m b : ℕ) → 2 ≤ b → (1 ≤ sizeinbase m b) × (m < b ^ sizeinbase m b))
    → 2 ≤ default_base base
    → default_base base ≤ 10
    → (pbc_mpz_trickle fun sizeinbase base n s ≡ calls fun (written sizeinbase base n) s)
      × (pbc_mpz_set_str (text (written sizeinbase base n)) base
          ≡ record { z = n; count = sizeinbase n (default_base base) })
unfolding pbc_mpz_trickle pbc_mpz_set_str
pbc_mpz_trickle-set_str fun sizeinbase base n s size h k =
    written_in fun sizeinbase (default_base base) n s (size n (default_base base) h) h k
