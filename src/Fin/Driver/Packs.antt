-- ===== src/Fin/Driver/Packs.antt =====
-- What the loop of boolArrayToByteArray leaves in its bytes.
use Prim.Native.Nat.{bit_or}
use native.Mathlib.Nat.{pow-le-pow_right, pow-succ'}
use dumbo_ms.Prelude.{
  ℕ, zero, suc, ◌+◌, ◌-◌, ◌*◌, ◌/◌, ◌%◌, ◌^◌, ◌≤◌, ◌<◌, ◌≡◌, ◌≢◌, refl, ap, ◌∙◌, subst, sym, arith,
  Bool, true, false, List, [], ◌∷◌, length, get_or, length-set, ℕ_discrete,
}
use dumbo_ms.Prelude.BitOr.{bit_or-shifted}
use dumbo_ms.Fin.Driver.{bit, pack_bit, pack_loop}
use dumbo_ms.Fin.Driver.Bits.{bit_below, bit_at, bit_above, get_or-set_same, get_or-set_other}

-- From the place `i` on, no bit is set yet.
abbrev pub Fresh : ℕ → List ℕ → Type 0
Fresh i result = (q : ℕ) → i ≤ q * 8 + 7 → get_or result q 0 < 2 ^ (i - q * 8)

byte_bit : (s : ℕ) → s < 8 → 1 * 2 ^ s % 256 ≡ 1 * 2 ^ s
byte_bit s h =
    let bound : 2 ^ s ≤ 2 ^ 7 = pow-le-pow_right (omega arith) {i = s} {j = 7} (omega arith) in
    omega arith

or_bit : (x s : ℕ) → x < 2 ^ s → s < 8 → bit_or x (1 * 2 ^ s % 256) ≡ x + 2 ^ s
or_bit x s small h = ap (bit_or x) (byte_bit s h) ∙ bit_or-shifted s x 1 small ∙ omega arith

current : (i : ℕ) (r : List ℕ) → Fresh i r → get_or r (i / 8) 0 < 2 ^ (i % 8)
current i r fresh =
    subst (λ s. get_or r (i / 8) 0 < 2 ^ s) (omega arith) (fresh (i / 8) (omega arith))

packed :
    (i : ℕ) (r : List ℕ)
    → Fresh i r
    → i < length r * 8
    → get_or (pack_bit true i r) (i / 8) 0 ≡ get_or r (i / 8) 0 + 2 ^ (i % 8)
unfolding pack_bit
packed i r fresh h =
    get_or-set_same r (i / 8) (bit_or (get_or r (i / 8) 0) (1 * 2 ^ (i % 8) % 256)) 0 (omega arith)
    ∙ or_bit (get_or r (i / 8) 0) (i % 8) (current i r fresh) (omega arith)

packed_other :
    (b : Bool) (i q : ℕ) (r : List ℕ) → q ≢ i / 8 → get_or (pack_bit b i r) q 0 ≡ get_or r q 0
unfolding pack_bit
packed_other true i q r h =
    get_or-set_other r (i / 8) q (bit_or (get_or r (i / 8) 0) (1 * 2 ^ (i % 8) % 256)) 0 h
packed_other false i q r h = refl

length-pack_bit : (b : Bool) (i : ℕ) (r : List ℕ) → length (pack_bit b i r) ≡ length r
unfolding pack_bit
length-pack_bit true i r =
    length-set r (i / 8) (bit_or (get_or r (i / 8) 0) (1 * 2 ^ (i % 8) % 256))
length-pack_bit false i r = refl

packed_below :
    (b : Bool) (i : ℕ) (r : List ℕ)
    → Fresh i r
    → i < length r * 8
    → get_or (pack_bit b i r) (i / 8) 0 < 2 ^ suc (i % 8)
unfolding pack_bit
packed_below true i r fresh h =
    omega (arith, packed i r fresh h, current i r fresh, pow-succ' 2 (i % 8))
packed_below false i r fresh h = omega (arith, current i r fresh, pow-succ' 2 (i % 8))

pack_bit-Fresh :
    (b : Bool) (i : ℕ) (r : List ℕ) → Fresh i r → i < length r * 8 → Fresh (i + 1) (pack_bit b i r)
pack_bit-Fresh b i r fresh h q later = elim (ℕ_discrete q (i / 8)) [
  | yes e ↦
      let exponent : suc (i % 8) ≡ i + 1 - q * 8 = omega arith in
      subst (λ s. get_or (pack_bit b i r) q 0 < 2 ^ s) exponent
        (subst (λ p. get_or (pack_bit b i r) p 0 < 2 ^ suc (i % 8)) (sym e)
          (packed_below b i r fresh h))
  | no ne ↦
      let exponent : i - q * 8 ≡ i + 1 - q * 8 = omega arith in
      subst (λ s. get_or (pack_bit b i r) q 0 < 2 ^ s) exponent
        (omega (arith, packed_other b i q r ne, fresh q (omega arith)))
]

-- The bit at the place `i` is the entry, and the bits before it stay.
bit-pack_bit :
    (b : Bool) (i : ℕ) (r : List ℕ)
    → Fresh i r
    → i < length r * 8
    → bit (get_or (pack_bit b i r) (i / 8) 0) (i % 8) ≡ b
unfolding pack_bit
bit-pack_bit true i r fresh h =
    ap (λ x. bit x (i % 8)) (packed i r fresh h)
    ∙ bit_at (i % 8) (get_or r (i / 8) 0) (current i r fresh)
bit-pack_bit false i r fresh h = bit_above (i % 8) (get_or r (i / 8) 0) (current i r fresh)

same_byte :
    (b : Bool) (i j : ℕ) (r : List ℕ)
    → Fresh i r
    → i < length r * 8
    → j < i % 8
    → bit (get_or (pack_bit b i r) (i / 8) 0) j ≡ bit (get_or r (i / 8) 0) j
unfolding pack_bit
same_byte true i j r fresh h below =
    ap (λ x. bit x j) (packed i r fresh h) ∙ bit_below j (i % 8) (get_or r (i / 8) 0) below
same_byte false i j r fresh h below = refl

before :
    (b : Bool) (i k : ℕ) (r : List ℕ)
    → Fresh i r
    → i < length r * 8
    → k < i
    → bit (get_or (pack_bit b i r) (k / 8) 0) (k % 8) ≡ bit (get_or r (k / 8) 0) (k % 8)
before b i k r fresh h early = elim (ℕ_discrete (k / 8) (i / 8)) [
  | yes e ↦
      subst (λ p. bit (get_or (pack_bit b i r) p 0) (k % 8) ≡ bit (get_or r p 0) (k % 8)) (sym e)
        (same_byte b i (k % 8) r fresh h (omega arith))
  | no ne ↦ ap (λ x. bit x (k % 8)) (packed_other b i (k / 8) r ne)
]

pub length-pack_loop :
    (arr : List Bool) (i : ℕ) (r : List ℕ) → length (pack_loop arr i r) ≡ length r
unfolding pack_loop
length-pack_loop [] i r = refl
length-pack_loop (b ∷ arr) i r =
    length-pack_loop arr (i + 1) (pack_bit b i r) ∙ length-pack_bit b i r

fits :
    (b : Bool) (i n : ℕ) (r : List ℕ)
    → i + suc n ≤ length r * 8
    → i + 1 + n ≤ length (pack_bit b i r) * 8
fits b i n r h = omega (arith, length-pack_bit b i r)

loop_before :
    (arr : List Bool) (i k : ℕ) (r : List ℕ)
    → Fresh i r
    → i + length arr ≤ length r * 8
    → k < i
    → bit (get_or (pack_loop arr i r) (k / 8) 0) (k % 8) ≡ bit (get_or r (k / 8) 0) (k % 8)
unfolding pack_loop
loop_before [] i k r fresh h early = refl
loop_before (b ∷ arr) i k r fresh h early =
    loop_before arr (i + 1) k (pack_bit b i r) (pack_bit-Fresh b i r fresh (omega arith))
      (fits b i (length arr) r h) (omega arith)
    ∙ before b i k r fresh (omega arith) early

-- The bit at a place from `i` on is the entry of the list at the place less `i`.
pub bit-pack_loop :
    (arr : List Bool) (i d : ℕ) (r : List ℕ)
    → Fresh i r
    → i + length arr ≤ length r * 8
    → d < length arr
    → bit (get_or (pack_loop arr i r) ((i + d) / 8) 0) ((i + d) % 8) ≡ get_or arr d false
unfolding pack_loop
bit-pack_loop [] i d r fresh h early = absurd (omega arith)
bit-pack_loop (b ∷ arr) i zero r fresh h early =
    let place : i ≡ i + 0 = omega arith in
    subst (λ k. bit (get_or (pack_loop arr (i + 1) (pack_bit b i r)) (k / 8) 0) (k % 8) ≡ b) place
      (loop_before arr (i + 1) i (pack_bit b i r) (pack_bit-Fresh b i r fresh (omega arith))
          (fits b i (length arr) r h) (omega arith)
        ∙ bit-pack_bit b i r fresh (omega arith))
bit-pack_loop (b ∷ arr) i (suc d) r fresh h early =
    let place : i + 1 + d ≡ i + suc d = omega arith in
    subst
      (λ k.
        bit (get_or (pack_loop arr (i + 1) (pack_bit b i r)) (k / 8) 0) (k % 8)
        ≡ get_or arr d false)
      place
      (bit-pack_loop arr (i + 1) d (pack_bit b i r) (pack_bit-Fresh b i r fresh (omega arith))
        (fits b i (length arr) r h) (omega arith))
