-- ===== src/Fin/Tests/Blocks.antt =====
-- Conversions of a driver among ten nodes, and a block of one among four.
use mathlib.Core.List.{Memᴰ}
use dumbo_ms.Prelude.{
  ℕ, zero, suc, ◌+◌, ◌≡◌, ◌⊎◌, refl, Bool, true, false, List, [], ◌∷◌, ◌++◌, some, none, get_or,
}
use dumbo_ms.Fin.Messages.{Bytes}
use dumbo_ms.Fin.Driver.{
  RbcOut, Outputs, new_outputs, Turn, marks, writes, take_turns, wait_rbc_done, check_input_rbc,
  block_payload, bool_array_to_byte_array, byte_array_to_bool_array,
}
use dumbo_ms.Fin.Driver.Unpacks.{bool_array_roundtrip}
use dumbo_ms.Fin.Driver.Blocks.{block_payload-heard}
use dumbo_ms.Fin.Driver.Inputs.{own_input-accepted}

abbrev ten_marks : List Bool
ten_marks = true ∷ false ∷ true ∷ true ∷ false ∷ false ∷ false ∷ true ∷ false ∷ true ∷ []

pack_run : bool_array_to_byte_array ten_marks ≡ 141 ∷ 2 ∷ []
unfolding bool_array_to_byte_array
pack_run = refl

bool_array_roundtrip_example :
    byte_array_to_bool_array (bool_array_to_byte_array ten_marks) 10 ≡ ten_marks
bool_array_roundtrip_example = bool_array_roundtrip ten_marks

second_only :
    (k : ℕ) → get_or (false ∷ true ∷ []) k false ≡ true → get_or (true ∷ true ∷ []) k false ≡ true
second_only zero e = refl
second_only (suc zero) e = refl
second_only (suc (suc k)) e = e

own_input-accepted_example :
    check_input_rbc
      (bool_array_to_byte_array (false ∷ true ∷ []))
      2
      (record { closed = false; mine = true ∷ true ∷ [] } ∷ [])
    ≡ some true
own_input-accepted_example =
    own_input-accepted (false ∷ true ∷ []) (true ∷ true ∷ []) [] second_only

-- The broadcasts 2 and 3 are heard of, and the broadcast 4 is marked.
abbrev nine_of_4 : RbcOut
nine_of_4 = record { value = 9 ∷ []; id = 4 }

abbrev five_turns : List Turn
five_turns =
    marks (record { value = 7 ∷ []; id = 2 })
    ∷ writes
    ∷ marks (record { value = 8 ∷ []; id = 3 })
    ∷ writes
    ∷ marks nine_of_4
    ∷ []

abbrev half_heard : Outputs
half_heard = record {
  outputs = false ∷ true ∷ true ∷ true ∷ [];
  contents = [] ∷ (7 ∷ []) ∷ (8 ∷ []) ∷ [] ∷ [];
  donecount = 3;
  mvbaready = 0;
  writing = some nine_of_4;
}

abbrev heard_three : Outputs
heard_three = record {
  outputs = false ∷ true ∷ true ∷ true ∷ [];
  contents = [] ∷ (7 ∷ []) ∷ (8 ∷ []) ∷ (9 ∷ []) ∷ [];
  donecount = 3;
  mvbaready = 1;
  writing = none;
}

half_run : take_turns 1 five_turns (new_outputs 4) ≡ some half_heard
unfolding take_turns new_outputs
half_run = refl

last_run : take_turns 1 (writes ∷ []) half_heard ≡ some heard_three
unfolding take_turns
last_run = refl

no_turn : take_turns 1 [] half_heard ≡ some half_heard
unfolding take_turns
no_turn = refl

-- The output 12 takes the broadcasts 3 and 4.
wait_run : wait_rbc_done (12 ∷ []) 4 (half_heard.outputs ∷ []) ≡ some true
unfolding wait_rbc_done
wait_run = refl

payload_run : block_payload (12 ∷ []) 4 (λ i. heard_three.contents) ≡ (8 ∷ []) ∷ (9 ∷ []) ∷ []
unfolding block_payload
payload_run = refl

-- Without another turn the payload of the broadcast 4 is empty.
early_run : block_payload (12 ∷ []) 4 (λ i. half_heard.contents) ≡ (8 ∷ []) ∷ [] ∷ []
unfolding block_payload
early_run = refl

abbrev nothing : Bytes
nothing = []

empty_taken : Memᴰ [] (block_payload (12 ∷ []) 4 (λ i. half_heard.contents))
unfolding block_payload
empty_taken = Memᴰ.tail (Memᴰ.head refl)

block_payload-heard_example :
    (i : ℕ) × (get_or (byte_array_to_bool_array (12 ∷ []) 4) i false ≡ true)
    × (o : RbcOut) × Memᴰ (marks o) (five_turns ++ [])
    × (o.id ≡ i + 1)
    × ((nothing ≡ o.value) ⊎ ((nothing ≡ []) × (half_heard.writing ≡ some o)))
block_payload-heard_example =
    block_payload-heard 1 4 five_turns (λ i. []) (12 ∷ []) half_heard (λ i. half_heard) [] half_run
      wait_run (λ i. no_turn) empty_taken
