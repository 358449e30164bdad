-- ===== src/Pbc/Tests/SmallFields.antt =====
-- The one-word fields of arith/tinyfp.c on small inputs.
use dumbo_ms.Prelude.{
  ℕ, ◌-◌, ◌*◌, ◌%◌, ◌^◌, ◌<◌, ◌≤◌, ◌≡◌, ◌⊎◌, refl, arith, true, some, [], ◌∷◌, length,
}
use dumbo_ms.Pbc.TinyFp.{add, double, mul, to_bytes, from_bytes, fixed_length}
use dumbo_ms.Pbc.TinyFp.Bytes.{bytes_roundtrip}
use dumbo_ms.Pbc.TinyFp.Wrap.{double_in_place-mod}

-- The largest prime below 2^64.
abbrev large : ℕ
large = 2 ^ 64 - 59

-- The sum overflows a word, and is right.
add_runs : add large (large - 1) (large - 2) ≡ large - 3
unfolding add
add_runs = refl

-- Doubled into itself the same element comes out wrong.
double_runs : double large true (large - 1) ≡ large - 61
unfolding double
double_runs = refl

mul_runs : mul large (2 ^ 32) (2 ^ 32) ≡ 0
unfolding mul
mul_runs = refl

bytes_run : to_bytes 3 0x10203 ≡ 1 ∷ 2 ∷ 3 ∷ []
unfolding to_bytes
bytes_run = refl

length_runs : fixed_length 65536 ≡ some 3
unfolding fixed_length
length_runs = refl

bytes_roundtrip_example :
    (n : ℕ) × (fixed_length 65536 ≡ some n)
    × (n ≤ 8)
    × ((n ≡ 1) ⊎ (256 ^ (n - 1) ≤ 65536))
    × ((a : ℕ) → a < 65536 → (length (to_bytes n a) ≡ n) × (from_bytes (to_bytes n a) ≡ a))
bytes_roundtrip_example = bytes_roundtrip 65536 (omega arith)

double_in_place-mod_example : double 7 true 5 ≡ 2 * 5 % 7
double_in_place-mod_example = double_in_place-mod 7 5 (omega arith)
