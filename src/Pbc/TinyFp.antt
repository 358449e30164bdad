-- ===== src/Pbc/TinyFp.antt =====
-- The prime field of arith/tinyfp.c: an element is one `unsigned long`, a number below 2^64, and
-- `p` is the modulus, `*(unsigned long *) field->data`. A function that writes its result through
-- its first argument returns it. Word arithmetic wraps.
pub mod Arith
pub mod Bytes
pub mod Wrap
use dumbo_ms.Prelude.{
  ℕ, zero, suc, ◌+◌, ◌-◌, ◌*◌, ◌/◌, ◌%◌, ◌^◌, Bool, true, false, List, [], ◌∷◌, ◌++◌, ltb, leb,
  ◌==◌, not, Option, some, none, if◌then◌else◌,
}

abbrev pub word_mod : ℕ
word_mod = 2 ^ 64

-- A `signed long`, by its sign; `neg m` is -m.
pub data Signed : Type 0 where
  pos : ℕ → Signed
  neg : ℕ → Signed

-- `a - b` and `a * b` in `unsigned long`, for words.
abbrev pub sub_word : ℕ → ℕ → ℕ
sub_word a b = (a + word_mod - b) % word_mod

abbrev pub mul_word : ℕ → ℕ → ℕ
mul_word a b = a * b % word_mod

-- The conversion of a `signed long` to `unsigned long`.
abbrev pub to_word : Signed → ℕ
to_word (pos n) = n % word_mod
to_word (neg m) = (word_mod - m % word_mod) % word_mod

module _ (p : ℕ) where
  unfoldable pub set_si : Signed → ℕ
  set_si (pos n) = n % p
  set_si (neg m) = sub_word p (m % p)

  unfoldable pub set0 : ℕ
  set0 = 0

  unfoldable pub set1 : ℕ
  set1 = 1

  unfoldable pub is0 : ℕ → Bool
  is0 a = a == 0

  unfoldable pub is1 : ℕ → Bool
  is1 a = a == 1

  unfoldable pub add : ℕ → ℕ → ℕ
  add a b = let l0 = (a + b) % word_mod in (if ltb l0 a then sub_word l0 p else l0) % p

  -- `same` says that the result and the argument are one object, as in `element_double(a, a)`:
  -- the test after the first write then reads the new value on both sides.
  unfoldable pub double : Bool → ℕ → ℕ
  double same a =
      let r = mul_word 2 a in
      let a' = if same then r else a in (if ltb r a' then sub_word r p else r) % p

  unfoldable pub sub : ℕ → ℕ → ℕ
  sub a b = if leb b a then sub_word a b else (sub_word p b + a) % word_mod

  -- The product is computed in `unsigned long`; only its value is widened.
  unfoldable pub mul : ℕ → ℕ → ℕ
  mul a b = mul_word a b % p

  unfoldable pub square : ℕ → ℕ
  unfolding mul
  square a = mul a a

  unfoldable pub neg_elem : ℕ → ℕ
  neg_elem a = if a == 0 then 0 else sub_word p a

  unfoldable pub mul_si : ℕ → Signed → ℕ
  mul_si a op = mul_word a (to_word op) % p

  unfoldable pub cmp : ℕ → ℕ → Bool
  cmp a b = not (a == b)

  -- 0, 1 and -1.
  unfoldable pub sgn_odd : ℕ → Signed
  sgn_odd a = if a == 0 then pos 0 else if a % 2 == 1 then pos 1 else neg 1

-- `data[n - i - 1] = (unsigned char) l; l >>= 8;` for i from 0 on: the last byte is written first.
unfoldable pub to_bytes : ℕ → ℕ → List ℕ
to_bytes zero l = []
to_bytes (suc n) l = to_bytes n (l / 256) ++ (l % 256 ∷ [])

-- `*p <<= 8; *p += *ptr; ptr++;`
unfoldable pub read_bytes : List ℕ → ℕ → ℕ
read_bytes [] l = l
read_bytes (b ∷ bs) l = read_bytes bs ((mul_word l 256 + b) % word_mod)

unfoldable pub from_bytes : List ℕ → ℕ
unfolding read_bytes
from_bytes bs = read_bytes bs 0

-- `while (l < *p) { fixed_length_in_bytes++; l <<= 8; l += 255; }` on fuel; `none` is out of fuel.
unfoldable pub length_loop : ℕ → ℕ → ℕ → ℕ → Option ℕ
length_loop zero p l n = none
length_loop (suc fuel) p l n =
    let longer = length_loop fuel p ((mul_word l 256 + 255) % word_mod) (n + 1) in
    if ltb l p then longer else some n

-- The value of `fixed_length_in_bytes` that `field_init_tiny_fp` computes.
unfoldable pub fixed_length : ℕ → Option ℕ
unfolding length_loop
fixed_length p = length_loop 9 p 255 1
