-- ===== src/Fin/Driver.antt =====
-- The driver consensus/fin/conseneus.go: the conversions between the Booleans of the finished
-- broadcasts and the bytes that are the input of an MVBA, the test of such an input, and the block
-- that comes of its output. A loop that assigns to `result` passes it on.
pub mod Bits
pub mod Packs
pub mod Unpacks
pub mod Turns
pub mod Blocks
pub mod Inputs
use Prim.Native.Nat.{bit_or}
use dumbo_ms.Prelude.{
  ℕ, zero, suc, ◌+◌, ◌-◌, ◌*◌, ◌/◌, ◌%◌, ◌^◌, Bool, true, false, not, ◌&&◌, List, [], ◌∷◌, ◌++◌,
  Option, none, some, ◌==◌, leb, if◌then◌else◌, length, get_or, set, replicate,
}
use dumbo_ms.Fin.Messages.{Bytes}

-- `b >> j & 1 == 1`
abbrev pub bit : ℕ → ℕ → Bool
bit b j = b / 2 ^ j % 2 == 1

-- One round of the loop of boolArrayToByteArray: `result[byteIndex] |= 1 << bitIndex`, on bytes.
unfoldable pub pack_bit : Bool → ℕ → List ℕ → List ℕ
pack_bit b i result =
    if b
    then set result (i / 8) (bit_or (get_or result (i / 8) 0) (1 * 2 ^ (i % 8) % 256))
    else result

unfoldable pub pack_loop : List Bool → ℕ → List ℕ → List ℕ
unfolding pack_bit
pack_loop [] i result = result
pack_loop (b ∷ arr) i result = pack_loop arr (i + 1) (pack_bit b i result)

unfoldable pub bool_array_to_byte_array : List Bool → List ℕ
unfolding pack_loop
bool_array_to_byte_array arr = pack_loop arr 0 (replicate ((length arr + 7) / 8) 0)

-- The rounds of the inner loop of byteArrayToBoolArray that are left, from the bit `j` of the byte
-- `b`; an index past the end breaks it off.
unfoldable pub unpack_byte : ℕ → ℕ → ℕ → ℕ → List Bool → List Bool
unpack_byte zero b i j result = result
unpack_byte (suc rounds) b i j result =
    let rest = unpack_byte rounds b i (j + 1) (set result (i * 8 + j) (bit b j)) in
    if leb (length result) (i * 8 + j) then result else rest

unfoldable pub unpack_loop : List ℕ → ℕ → List Bool → List Bool
unfolding unpack_byte
unpack_loop [] i result = result
unpack_loop (b ∷ arr) i result = unpack_loop arr (i + 1) (unpack_byte 8 b i 0 result)

unfoldable pub byte_array_to_bool_array : List ℕ → ℕ → List Bool
unfolding unpack_loop
byte_array_to_bool_array arr size = unpack_loop arr 0 (replicate size false)

pub record RbcOut : Type 0 where
  pub value : Bytes
  pub id : ℕ

-- The locals of Run: the finished broadcasts with their contents, their count, how often
-- `mvbaready` was signalled, and the output whose content the goroutine has yet to write.
pub record Outputs : Type 0 where
  pub outputs : List Bool
  pub contents : List Bytes
  pub donecount : ℕ
  pub mvbaready : ℕ
  pub writing : Option RbcOut

unfoldable pub new_outputs : ℕ → Outputs
new_outputs num = record {
  outputs = replicate num false;
  contents = replicate num [];
  donecount = 0;
  mvbaready = 0;
  writing = none;
}

-- A round of the goroutine has two turns, since the slices are shared without a lock: it gets an
-- output, counts and marks it; then it writes the content, and signals if these are enough.
pub data Turn : Type 0 where
  marks : (out : RbcOut) → Turn
  writes : Turn

-- An index out of range ends the program.
unfoldable pub mark : RbcOut → Outputs → Option Outputs
mark out s =
    if leb 1 out.id && leb out.id (length s.outputs)
    then some (record s {
      outputs = set s.outputs (out.id - 1) true;
      donecount = s.donecount + 1;
      writing = some out;
    })
    else none

abbrev pub store : ℕ → RbcOut → Outputs → Outputs
store fault out s = record s {
  contents = set s.contents (out.id - 1) out.value;
  mvbaready = if s.donecount == fault * 2 + 1 then s.mvbaready + 1 else s.mvbaready;
  writing = none;
}

-- A turn of the goroutine, which is `none` where it is not the goroutine's next one.
abbrev pub turn_at : ℕ → Turn → Outputs → Option RbcOut → Option Outputs
turn_at fault (marks out) s none = mark out s
turn_at fault (marks out) s (some old) = none
turn_at fault writes s none = none
turn_at fault writes s (some out) = some (store fault out s)

unfoldable pub take_turn : ℕ → Turn → Outputs → Option Outputs
unfolding mark
take_turn fault t s = turn_at fault t s s.writing

unfoldable pub take_turns : ℕ → List Turn → Outputs → Option Outputs
unfolding take_turn
take_turns fault [] s = some s
take_turns fault (t ∷ ts) s = elim (take_turn fault t s) [
  | none ↦ none
  | some u ↦ take_turns fault ts u
]

-- The pass over `result` that wait_rbc_done and check_input_rbc make, from the place `i`.
unfoldable pub is_valid : List Bool → List Bool → ℕ → Bool
is_valid [] mine i = true
is_valid (b ∷ result) mine i =
    let rest = is_valid result mine (i + 1) in
    if b && not (get_or mine i false) then false else rest

-- `mine` is shared: the contents at the end of a round's pass. Marks are not taken back, so a pass
-- that reads while some are set accepts no more than these do. `none`: it still waits.
unfoldable pub wait_loop : List Bool → List (List Bool) → Option Bool
unfolding is_valid
wait_loop result [] = none
wait_loop result (mine ∷ mines) =
    let rest = wait_loop result mines in if is_valid result mine 0 then some true else rest

unfoldable pub wait_rbc_done : Bytes → ℕ → List (List Bool) → Option Bool
unfolding wait_loop byte_array_to_bool_array
wait_rbc_done input n mines = wait_loop (byte_array_to_bool_array input n) mines

-- Every round looks first whether `done` is closed.
pub record Look : Type 0 where
  pub closed : Bool
  pub mine : List Bool

unfoldable pub check_loop : List Bool → List Look → Option Bool
unfolding is_valid
check_loop result [] = none
check_loop result (l ∷ looks) =
    let rest = check_loop result looks in
    if l.closed then some false else if is_valid result l.mine 0 then some true else rest

unfoldable pub check_input_rbc : Bytes → ℕ → List Look → Option Bool
unfolding check_loop byte_array_to_bool_array
check_input_rbc input n looks = check_loop (byte_array_to_bool_array input n) looks

-- The loop of Run that appends the contents to the payload of the block. `contents` is shared:
-- the contents that the round `i` finds.
unfoldable pub payload_loop : List Bool → ℕ → (ℕ → List Bytes) → List Bytes → List Bytes
payload_loop [] i contents payload = payload
payload_loop (v ∷ outputbools) i contents payload =
    payload_loop outputbools (i + 1) contents
      (if v then payload ++ (get_or (contents i) i [] ∷ []) else payload)

unfoldable pub block_payload : Bytes → ℕ → (ℕ → List Bytes) → List Bytes
unfolding payload_loop byte_array_to_bool_array
block_payload output num contents = payload_loop (byte_array_to_bool_array output num) 0 contents []
