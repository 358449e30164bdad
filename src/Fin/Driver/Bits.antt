-- ===== src/Fin/Driver/Bits.antt =====
-- The bits of a byte, and reads of a list after a write.
use native.Mathlib.Nat.{pow-succ', div-div-eq-div-mul}
use dumbo_ms.Prelude.{
  ℕ, zero, suc, ◌+◌, ◌*◌, ◌/◌, ◌%◌, ◌^◌, ◌<◌, ◌≡◌, ◌≢◌, refl, sym, ap, ◌∙◌, arith, true, false,
  List, [], ◌∷◌, length, get_or, set, ◌==◌,
}
use dumbo_ms.Fin.Driver.{bit}

halved : (x j : ℕ) → x / 2 ^ suc j ≡ x / 2 / 2 ^ j
halved x j = ap (λ d. x / d) (pow-succ' 2 j) ∙ sym (div-div-eq-div-mul x 2 (2 ^ j))

half_added : (x p q : ℕ) → q ≡ 2 * p → (x + q) / 2 ≡ x / 2 + p
half_added x p q h = omega arith

digit_below : (j s x : ℕ) → j < s → (x + 2 ^ s) / 2 ^ j % 2 ≡ x / 2 ^ j % 2
digit_below zero zero x h = absurd (omega arith)
digit_below zero (suc s) x h = omega (arith, pow-succ' 2 s)
digit_below (suc j) zero x h = absurd (omega arith)
digit_below (suc j) (suc s) x h = omega (
  arith,
  halved (x + 2 ^ suc s) j,
  halved x j,
  ap (λ t. t / 2 ^ j) (half_added x (2 ^ s) (2 ^ suc s) (pow-succ' 2 s)),
  digit_below j s (x / 2) (omega arith),
)

digit_at : (s x : ℕ) → x < 2 ^ s → (x + 2 ^ s) / 2 ^ s % 2 ≡ 1
digit_at zero x h = omega arith
digit_at (suc s) x h = omega (
  arith,
  halved (x + 2 ^ suc s) s,
  ap (λ t. t / 2 ^ s) (half_added x (2 ^ s) (2 ^ suc s) (pow-succ' 2 s)),
  digit_at s (x / 2) (omega (arith, pow-succ' 2 s)),
)

digit_above : (s x : ℕ) → x < 2 ^ s → x / 2 ^ s % 2 ≡ 0
digit_above zero x h = omega arith
digit_above (suc s) x h =
    omega (arith, halved x s, digit_above s (x / 2) (omega (arith, pow-succ' 2 s)))

pub bit_below : (j s x : ℕ) → j < s → bit (x + 2 ^ s) j ≡ bit x j
bit_below j s x h = ap (λ t. t == 1) (digit_below j s x h)

pub bit_at : (s x : ℕ) → x < 2 ^ s → bit (x + 2 ^ s) s ≡ true
bit_at s x h = ap (λ t. t == 1) (digit_at s x h)

pub bit_above : (s x : ℕ) → x < 2 ^ s → bit x s ≡ false
bit_above s x h = ap (λ t. t == 1) (digit_above s x h)

module _ {ℓ} {A : Type ℓ} where
  pub get_or-set_same :
      (xs : List A) (i : ℕ) (v d : A) → i < length xs → get_or (set xs i v) i d ≡ v
  get_or-set_same [] i v d h = absurd (omega arith)
  get_or-set_same (x ∷ xs) zero v d h = refl
  get_or-set_same (x ∷ xs) (suc i) v d h = get_or-set_same xs i v d (omega arith)

  pub get_or-set_other :
      (xs : List A) (i k : ℕ) (v d : A) → k ≢ i → get_or (set xs i v) k d ≡ get_or xs k d
  get_or-set_other [] i k v d h = refl
  get_or-set_other (x ∷ xs) zero zero v d h = absurd (h refl)
  get_or-set_other (x ∷ xs) zero (suc k) v d h = refl
  get_or-set_other (x ∷ xs) (suc i) zero v d h = refl
  get_or-set_other (x ∷ xs) (suc i) (suc k) v d h = get_or-set_other xs i k v d (λ e. h (ap suc e))

  -- Lists of one length with the same entries are equal.
  pub entries-equal :
      (xs ys : List A) (d : A)
      → length xs ≡ length ys
      → ((k : ℕ) → k < length ys → get_or xs k d ≡ get_or ys k d)
      → xs ≡ ys
  entries-equal [] [] d h e = refl
  entries-equal [] (y ∷ ys) d h e = absurd (omega arith)
  entries-equal (x ∷ xs) [] d h e = absurd (omega arith)
  entries-equal (x ∷ xs) (y ∷ ys) d h e =
      ap (λ z. z ∷ xs) (e 0 (omega arith))
      ∙ ap (λ l. y ∷ l) (entries-equal xs ys d (omega arith) (λ k small. e (suc k) (omega arith)))
