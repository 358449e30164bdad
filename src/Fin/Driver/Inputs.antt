-- ===== src/Fin/Driver/Inputs.antt =====
-- The input that Run gives to its MVBA, and the test check_input_rbc of it.
use dumbo_ms.Prelude.{
  ℕ, suc, ◌+◌, ◌≡◌, refl, ap, ◌∙◌, subst, arith, Bool, true, false, not, ◌&&◌, List, [], ◌∷◌, some,
  length, get_or, map, if◌then◌else◌,
}
use dumbo_ms.Fin.Messages.{Bytes}
use dumbo_ms.Fin.Driver.{
  Look, is_valid, wait_loop, wait_rbc_done, check_loop, check_input_rbc, bool_array_to_byte_array,
  byte_array_to_bool_array,
}
use dumbo_ms.Fin.Driver.Unpacks.{bool_array_roundtrip}

pass :
    (b m rest : Bool)
    → (b ≡ true → m ≡ true)
    → rest ≡ true
    → (if b && not m then false else rest) ≡ true
pass true true rest h e = e
pass true false rest h e = absurd (let k = h refl in ground arith)
pass false m rest h e = e

all_marked :
    (result mine : List Bool) (i : ℕ)
    → ((k : ℕ) → get_or result k false ≡ true → get_or mine (i + k) false ≡ true)
    → is_valid result mine i ≡ true
unfolding is_valid
all_marked [] mine i h = refl
all_marked (b ∷ result) mine i h =
    pass b (get_or mine i false) (is_valid result mine (i + 1))
      (λ e.
        let place : i + 0 ≡ i = omega arith in
        subst (λ p. get_or mine p false ≡ true) place (h 0 e))
      (all_marked result mine (i + 1) (λ k e.
        let place : i + suc k ≡ i + 1 + k = omega arith in
        subst (λ p. get_or mine p false ≡ true) place (h (suc k) e)))

covered-check_loop :
    (result mine : List Bool) (looks : List Look)
    → ((k : ℕ) → get_or result k false ≡ true → get_or mine k false ≡ true)
    → check_loop result (record { closed = false; mine = mine } ∷ looks) ≡ some true
unfolding check_loop
covered-check_loop result mine looks more =
    ap (λ b. if b then some true else check_loop result looks)
      (all_marked result mine 0 (λ k e.
        let place : k ≡ 0 + k = omega arith in
        subst (λ p. get_or mine p false ≡ true) place (more k e)))

-- The input that a node packs from its marks passes the test of a node that has these marks, and
-- maybe more, when the node looks for the first time and `done` is open.
pub own_input-accepted :
    (marks mine : List Bool) (looks : List Look)
    → ((k : ℕ) → get_or marks k false ≡ true → get_or mine k false ≡ true)
    → check_input_rbc
        (bool_array_to_byte_array marks)
        (length marks)
        (record { closed = false; mine = mine } ∷ looks)
      ≡ some true
unfolding check_input_rbc
own_input-accepted marks mine looks more =
    ap (λ result. check_loop result (record { closed = false; mine = mine } ∷ looks))
      (bool_array_roundtrip marks)
    ∙ covered-check_loop marks mine looks more

-- Looks at these marks while `done` is open.
abbrev open_looks : List (List Bool) → List Look
open_looks mines = map (λ mine. record { closed = false; mine = mine }) mines

check_loop-wait :
    (result : List Bool) (mines : List (List Bool))
    → check_loop result (open_looks mines) ≡ wait_loop result mines
unfolding check_loop wait_loop
check_loop-wait result [] = refl
check_loop-wait result (mine ∷ mines) =
    ap (λ rest. if is_valid result mine 0 then some true else rest) (check_loop-wait result mines)

-- While `done` is open, the test and the wait agree.
check_input_rbc-wait :
    (input : Bytes) (n : ℕ) (mines : List (List Bool))
    → check_input_rbc input n (open_looks mines) ≡ wait_rbc_done input n mines
unfolding check_input_rbc wait_rbc_done
check_input_rbc-wait input n mines = check_loop-wait (byte_array_to_bool_array input n) mines
