-- ===== src/Fin/Driver/Unpacks.antt =====
-- What the loops of byteArrayToBoolArray leave in their Booleans, and the round trip.
use dumbo_ms.Prelude.{
  ℕ, zero, suc, ◌+◌, ◌-◌, ◌*◌, ◌/◌, ◌%◌, ◌^◌, ◌≤◌, ◌<◌, ◌≡◌, ◌≢◌, refl, ap, ◌∙◌, subst, ◌⊎◌, inl,
  inr, arith, Bool, false, Bool-cases, leb, tests, List, [], ◌∷◌, length, get_or, set, length-set,
  replicate, length-replicate,
}
use dumbo_ms.Fin.Driver.{
  bit, pack_loop, bool_array_to_byte_array, unpack_byte, unpack_loop, byte_array_to_bool_array,
}
use dumbo_ms.Fin.Driver.Bits.{get_or-set_same, get_or-set_other, entries-equal}
use dumbo_ms.Fin.Driver.Packs.{length-pack_loop, bit-pack_loop}

length-unpack_byte : (n b i j : ℕ) (r : List Bool) → length (unpack_byte n b i j r) ≡ length r
unfolding unpack_byte
length-unpack_byte zero b i j r = refl
length-unpack_byte (suc n) b i j r = elim (Bool-cases (leb (length r) (i * 8 + j))) [
  | inl e ↦ rw e refl
  | inr e ↦ rw e (
      length-unpack_byte n b i (j + 1) (set r (i * 8 + j) (bit b j))
      ∙ length-set r (i * 8 + j) (bit b j))
]

still_out :
    (n i j k : ℕ)
    → (k < i * 8 + j) ⊎ (i * 8 + j + suc n ≤ k)
    → (k < i * 8 + (j + 1)) ⊎ (i * 8 + (j + 1) + n ≤ k)
still_out n i j k (inl h) = inl (omega arith)
still_out n i j k (inr h) = inr (omega arith)

elsewhere : (n i j k : ℕ) → (k < i * 8 + j) ⊎ (i * 8 + j + suc n ≤ k) → k ≢ i * 8 + j
elsewhere n i j k (inl h) e = omega arith
elsewhere n i j k (inr h) e = omega arith

-- The entries before the place of the bit `j` and past the rounds stay.
byte_kept :
    (n b i j k : ℕ) (r : List Bool)
    → (k < i * 8 + j) ⊎ (i * 8 + j + n ≤ k)
    → get_or (unpack_byte n b i j r) k false ≡ get_or r k false
unfolding unpack_byte
byte_kept zero b i j k r out = refl
byte_kept (suc n) b i j k r out = elim (Bool-cases (leb (length r) (i * 8 + j))) [
  | inl e ↦ rw e refl
  | inr e ↦ rw e (
      byte_kept n b i (j + 1) k (set r (i * 8 + j) (bit b j)) (still_out n i j k out)
      ∙ get_or-set_other r (i * 8 + j) k (bit b j) false (elsewhere n i j k out))
]

byte_written :
    (n b i j d : ℕ) (r : List Bool)
    → d < n
    → i * 8 + (j + d) < length r
    → get_or (unpack_byte n b i j r) (i * 8 + (j + d)) false ≡ bit b (j + d)
unfolding unpack_byte
byte_written zero b i j d r h inside = absurd (omega arith)
byte_written (suc n) b i j zero r h inside = elim (Bool-cases (leb (length r) (i * 8 + j))) [
  | inl e ↦ absurd (omega tests)
  | inr e ↦
      let place : i * 8 + j ≡ i * 8 + (j + 0) = omega arith in
      rw e (
        byte_kept n b i (j + 1) (i * 8 + (j + 0)) (set r (i * 8 + j) (bit b j)) (inl (omega arith))
        ∙ subst (λ k. get_or (set r (i * 8 + j) (bit b j)) k false ≡ bit b j) place
            (get_or-set_same r (i * 8 + j) (bit b j) false (omega arith))
        ∙ ap (bit b) (omega arith))
]
byte_written (suc n) b i j (suc d) r h inside = elim (Bool-cases (leb (length r) (i * 8 + j))) [
  | inl e ↦ absurd (omega tests)
  | inr e ↦
      let place : j + 1 + d ≡ j + suc d = omega arith in
      rw e (
        subst
          (λ m.
            get_or (unpack_byte n b i (j + 1) (set r (i * 8 + j) (bit b j))) (i * 8 + m) false
            ≡ bit b m)
          place
          (byte_written n b i (j + 1) d (set r (i * 8 + j) (bit b j)) (omega arith)
            (omega (arith, length-set r (i * 8 + j) (bit b j)))))
]

length-unpack_loop :
    (arr : List ℕ) (i : ℕ) (r : List Bool) → length (unpack_loop arr i r) ≡ length r
unfolding unpack_loop
length-unpack_loop [] i r = refl
length-unpack_loop (b ∷ arr) i r =
    length-unpack_loop arr (i + 1) (unpack_byte 8 b i 0 r) ∙ length-unpack_byte 8 b i 0 r

loop_kept :
    (arr : List ℕ) (i k : ℕ) (r : List Bool)
    → k < i * 8
    → get_or (unpack_loop arr i r) k false ≡ get_or r k false
unfolding unpack_loop
loop_kept [] i k r h = refl
loop_kept (b ∷ arr) i k r h =
    loop_kept arr (i + 1) k (unpack_byte 8 b i 0 r) (omega arith)
    ∙ byte_kept 8 b i 0 k r (inl (omega arith))

-- The entry at a place is the bit of its byte.
loop_written :
    (arr : List ℕ) (i q j : ℕ) (r : List Bool)
    → j < 8
    → q < length arr
    → (i + q) * 8 + j < length r
    → get_or (unpack_loop arr i r) ((i + q) * 8 + j) false ≡ bit (get_or arr q 0) j
unfolding unpack_loop
loop_written [] i q j r small h inside = absurd (omega arith)
loop_written (b ∷ arr) i zero j r small h inside =
    let place : i * 8 + (0 + j) ≡ (i + 0) * 8 + j = omega arith in
    loop_kept arr (i + 1) ((i + 0) * 8 + j) (unpack_byte 8 b i 0 r) (omega arith)
    ∙ subst (λ k. get_or (unpack_byte 8 b i 0 r) k false ≡ bit b j) place
        (byte_written 8 b i 0 j r small (omega arith) ∙ ap (bit b) (omega arith))
loop_written (b ∷ arr) i (suc q) j r small h inside =
    let place : (i + 1 + q) * 8 + j ≡ (i + suc q) * 8 + j = omega arith in
    subst
      (λ k.
        get_or (unpack_loop arr (i + 1) (unpack_byte 8 b i 0 r)) k false ≡ bit (get_or arr q 0) j)
      place
      (loop_written arr (i + 1) q j (unpack_byte 8 b i 0 r) small (omega arith)
        (omega (arith, length-unpack_byte 8 b i 0 r)))

zeros : (n q : ℕ) → get_or {A = ℕ} (replicate n 0) q 0 ≡ 0
zeros zero q = refl
zeros (suc n) zero = refl
zeros (suc n) (suc q) = zeros n q

length-bytes : (arr : List Bool) → length (bool_array_to_byte_array arr) ≡ (length arr + 7) / 8
unfolding bool_array_to_byte_array
length-bytes arr =
    length-pack_loop arr 0 (replicate ((length arr + 7) / 8) 0)
    ∙ length-replicate ((length arr + 7) / 8) 0

bytes-bit :
    (arr : List Bool) (k : ℕ)
    → k < length arr
    → bit (get_or (bool_array_to_byte_array arr) (k / 8) 0) (k % 8) ≡ get_or arr k false
unfolding bool_array_to_byte_array
bytes-bit arr k h =
    let size = (length arr + 7) / 8 in
    let place : 0 + k ≡ k = omega arith in
    subst
      (λ m.
        bit (get_or (pack_loop arr 0 (replicate size 0)) (m / 8) 0) (m % 8) ≡ get_or arr k false)
      place
      (bit-pack_loop arr 0 k (replicate size 0)
        (λ q later.
          let exponent : 0 ≡ 0 - q * 8 = omega arith in
          subst (λ s. get_or (replicate size 0) q 0 < 2 ^ s) exponent (omega (arith, zeros size q)))
        (omega (arith, length-replicate {A = ℕ} size 0)) h)

-- The entry of the Booleans at every place whose byte there is.
byte_array-bit :
    (arr : List ℕ) (size k : ℕ)
    → k < size
    → k / 8 < length arr
    → get_or (byte_array_to_bool_array arr size) k false ≡ bit (get_or arr (k / 8) 0) (k % 8)
unfolding byte_array_to_bool_array
byte_array-bit arr size k h inside =
    let place : (0 + k / 8) * 8 + k % 8 ≡ k = omega arith in
    subst
      (λ m.
        get_or (unpack_loop arr 0 (replicate size false)) m false
        ≡ bit (get_or arr (k / 8) 0) (k % 8))
      place
      (loop_written arr 0 (k / 8) (k % 8) (replicate size false) (omega arith) inside
        (omega (arith, length-replicate size false)))

length-bools : (arr : List ℕ) (size : ℕ) → length (byte_array_to_bool_array arr size) ≡ size
unfolding byte_array_to_bool_array
length-bools arr size =
    length-unpack_loop arr 0 (replicate size false) ∙ length-replicate size false

-- Booleans made into bytes and read back with their number are the Booleans again.
pub bool_array_roundtrip :
    (arr : List Bool) → byte_array_to_bool_array (bool_array_to_byte_array arr) (length arr) ≡ arr
bool_array_roundtrip arr =
    entries-equal (byte_array_to_bool_array (bool_array_to_byte_array arr) (length arr)) arr false
      (length-bools (bool_array_to_byte_array arr) (length arr))
      (λ k h.
        byte_array-bit (bool_array_to_byte_array arr) (length arr) k h
          (omega (arith, length-bytes arr))
        ∙ bytes-bit arr k h)
