-- ===== src/Pbc/TinyFp/Bytes.antt =====
-- The byte strings of arith/tinyfp.c: their fixed length, and the round trip.
use native.Mathlib.Nat.{pow-suc, pow-le-pow_right}
use native.Mathlib.Numerals.{add-one}
use dumbo_ms.Prelude.{
  ℕ, zero, suc, ◌+◌, ◌-◌, ◌*◌, ◌/◌, ◌%◌, ◌^◌, ◌<◌, ◌≤◌, ◌≡◌, ◌⊎◌, inl, inr, refl, ap, ◌∙◌, some,
  List, [], ◌∷◌, ◌++◌, arith, ltb, ltb→lt, dec_lt, Bool-cases, length, length-append,
}
use dumbo_ms.Pbc.TinyFp.{
  word_mod, mul_word, to_bytes, read_bytes, from_bytes, length_loop, fixed_length,
}

read_bytes-append :
    (xs ys : List ℕ) (l : ℕ) → read_bytes (xs ++ ys) l ≡ read_bytes ys (read_bytes xs l)
unfolding read_bytes
read_bytes-append [] ys l = refl
read_bytes-append (x ∷ xs) ys l = read_bytes-append xs ys ((mul_word l 256 + x) % word_mod)

length-to_bytes : (n l : ℕ) → length (to_bytes n l) ≡ n
unfolding to_bytes
length-to_bytes zero l = refl
length-to_bytes (suc n) l =
    omega (arith, length-append (to_bytes n (l / 256)) (l % 256 ∷ []), length-to_bytes n (l / 256))

-- Reading back what was written gives the element, if it fits the length and a word.
from_bytes-to_bytes : (n l : ℕ) → l < 256 ^ n → l < word_mod → from_bytes (to_bytes n l) ≡ l
unfolding to_bytes from_bytes
from_bytes-to_bytes zero l h k = omega arith
from_bytes-to_bytes (suc n) l h k =
    read_bytes-append (to_bytes n (l / 256)) (l % 256 ∷ []) 0
    ∙ ap (λ t. (mul_word t 256 + l % 256) % word_mod)
        (from_bytes-to_bytes n (l / 256) (omega (arith, pow-suc 256 n)) (omega arith))
    ∙ omega arith

pow_next : (n : ℕ) → 256 ^ (n + 1) ≡ 256 ^ n * 256
pow_next n = rw add-one (pow-suc 256 n)

-- Eight bytes hold every word, so the loop does not go on from there.
room_left : (p l n : ℕ) → l + 1 ≡ 256 ^ n → l < p → p < word_mod → n ≤ 8 → n < 8
room_left p l n e lt small le = elim (dec_lt n 8) [
  | yes h ↦ h
  | no h ↦ let full : n ≡ 8 = omega arith in absurd (omega (arith, e ∙ ap (λ t. 256 ^ t) full))
]

next_full :
    (l n : ℕ) → l + 1 ≡ 256 ^ n → n < 8 → (mul_word l 256 + 255) % word_mod + 1 ≡ 256 ^ (n + 1)
next_full l n e h =
    omega (
      arith,
      pow_next n,
      pow-le-pow_right {n = 256} (omega arith) {i = n + 1} {j = 8} (omega arith),
    )

-- The loop finds a length that fits, and the least one.
length_loop-fits :
    (fuel p l n : ℕ)
    → 9 ≤ n + fuel
    → l + 1 ≡ 256 ^ n
    → n ≤ 8
    → p < word_mod
    → (n ≡ 1) ⊎ (256 ^ (n - 1) ≤ p)
    → (m : ℕ) × (length_loop fuel p l n ≡ some m)
      × (p < 256 ^ m)
      × (m ≤ 8)
      × ((m ≡ 1) ⊎ (256 ^ (m - 1) ≤ p))
unfolding length_loop
length_loop-fits zero p l n h e le small least = absurd (omega arith)
length_loop-fits (suc fuel) p l n h e le small least = elim (Bool-cases (ltb l p)) [
  | inl lt ↦
      let room : n < 8 = room_left p l n e (ltb→lt l p lt) small le in
      let room_le : n + 1 ≤ 8 = omega arith in
      let same : n + 1 - 1 ≡ n = omega arith in
      let below : l < p = ltb→lt l p lt in
      rw lt (
        length_loop-fits fuel p ((mul_word l 256 + 255) % word_mod) (n + 1) (omega arith)
          (next_full l n e room) room_le small (inr (omega (arith, ap (λ t. 256 ^ t) same))))
  | inr ge ↦ (n, rw ge refl, ground arith, le, least)
]

-- For every modulus of one word `field_init_tiny_fp` computes the least length whose byte strings
-- hold the modulus, at most 8; at that length `fp_to_bytes` writes so many bytes for every residue,
-- and `fp_from_bytes` reads the residue back.
pub bytes_roundtrip :
    (p : ℕ)
    → p < word_mod
    → (n : ℕ) × (fixed_length p ≡ some n)
      × (n ≤ 8)
      × ((n ≡ 1) ⊎ (256 ^ (n - 1) ≤ p))
      × ((a : ℕ) → a < p → (length (to_bytes n a) ≡ n) × (from_bytes (to_bytes n a) ≡ a))
unfolding fixed_length
bytes_roundtrip p small =
    let (n, found, fits, le, least) =
      length_loop-fits 9 p 255 1 (omega arith) refl (omega arith) small (inl refl) in
    (
      n,
      found,
      le,
      least,
      λ a h. (length-to_bytes n a, from_bytes-to_bytes n a (omega arith) (omega arith)),
    )
