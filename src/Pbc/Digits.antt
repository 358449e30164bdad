-- ===== src/Pbc/Digits.antt =====
-- Numbers as text in arith/field.c: pbc_mpz_set_str reads digits, pbc_mpz_trickle passes the
-- digits of a number to a callback. Text is a list of character codes; its end is the NUL. A
-- base is not negative. The callback is a function on a state that says whether to stop.
pub mod Read
pub mod Written
pub mod Letters
use dumbo_ms.Prelude.{
  ℕ, zero, suc, ◌+◌, ◌-◌, ◌*◌, ◌/◌, ◌%◌, ◌^◌, ltb, leb, ◌==◌, ◌&&◌, ◌||◌, if◌then◌else◌, Bool, true,
  false, List, [], ◌∷◌, Option, none, some,
}

abbrev pub is_space : ℕ → Bool
is_space c = c == 32 || (leb 9 c && leb c 13)

-- The value that the code gives a character, if it has one.
abbrev pub digit_of : ℕ → Option ℕ
digit_of c =
    if leb 48 c && leb c 57
    then some (c - 48)
    else (if leb 65 c && leb c 90
        then some (c - 65)
        else (if leb 97 c && leb c 122 then some (c - 97) else none))

-- What is added to the number by a digit, if it is one in base b.
abbrev pub push_digit : ℕ → ℕ → Option ℕ → Option ℕ
push_digit b z none = none
push_digit b z (some j) = if leb b j then none else some (z * b + j)

-- The number after one more character, or `none` where the loop breaks.
unfoldable pub read_char : ℕ → ℕ → ℕ → Option ℕ
read_char b z c = if is_space c then some z else push_digit b z (digit_of c)

pub record Reading : Type 0 where
  pub z : ℕ
  pub count : ℕ

unfoldable pub set_str_loop : ℕ → List ℕ → ℕ → ℕ → Reading
unfolding read_char
set_str_loop b [] z i = record { z = z; count = i }
set_str_loop b (c ∷ cs) z i = elim (read_char b z c) [
  | none ↦ record { z = z; count = i }
  | some z' ↦ set_str_loop b cs z' (i + 1)
]

abbrev pub default_base : ℕ → ℕ
default_base base = if base == 0 then 10 else base

unfoldable pub set_str_in : List ℕ → ℕ → Reading
unfolding set_str_loop
set_str_in s b = if ltb b 2 || ltb 36 b then record { z = 0; count = 0 } else set_str_loop b s 0 0

unfoldable pub pbc_mpz_set_str : List ℕ → ℕ → Reading
unfolding set_str_in
pbc_mpz_set_str s base = set_str_in s (default_base base)

-- What a call of `fun` leaves: `res`, which is true where it is not 0, and the state.
pub record Answer (S : Type 0) : Type 0 where
  pub res : Bool
  pub state : S

module _ {S : Type 0} (fun : ℕ → S → Answer S) where
  -- `while (len) ..` and the last call.
  unfoldable pub zeros_loop : ℕ → ℕ → S → Answer S
  zeros_loop zero z s = fun (48 + z) s
  zeros_loop (suc len) z s =
      let a = fun 48 s in let rest = zeros_loop len z a.state in if a.res then a else rest

  -- `while (mpz_cmp_ui(z, base) >= 0) ..`, on fuel.
  unfoldable pub digits_loop : ℕ → ℕ → ℕ → ℕ → ℕ → S → Option (Answer S)
  unfolding zeros_loop
  digits_loop zero base d z len s = none
  digits_loop (suc fuel) base d z len s =
      let a = fun (48 + z / d) s in
      let rest = digits_loop fuel base (d / base) (z % d) (len - 1) a.state in
      if leb base z then (if a.res then some a else rest) else some (zeros_loop len z s)

  -- `sizeinbase` is `mpz_sizeinbase`. A round takes one from `len`, so len + 1 rounds are enough.
  unfoldable pub trickle_in : (ℕ → ℕ → ℕ) → ℕ → ℕ → S → Option (Answer S)
  unfolding digits_loop
  trickle_in sizeinbase b n s =
      let len = sizeinbase n b in
      let d = b ^ len in
      if ltb b 2 || ltb 10 b
      then some (record { res = true; state = s })
      else (if ltb n d
          then digits_loop (len + 1) b (d / b) n (len - 1) s
          else digits_loop (len + 1) b d n len s)

  unfoldable pub pbc_mpz_trickle : (ℕ → ℕ → ℕ) → ℕ → ℕ → S → Option (Answer S)
  unfolding trickle_in
  pbc_mpz_trickle sizeinbase base n s = trickle_in sizeinbase (default_base base) n s
