-- ===== src/Fin/BinaryAgreement.antt =====
-- Binary agreement, consensus/fin/MVBA/binaryagreement. A handler is a function of a message and of
-- its locals with the channels that it sends on; the hash of the coin is a parameter.
pub mod Waits
pub mod Decisions
pub mod Finish
pub mod Handlers
pub mod Exclusion
use dumbo_ms.Prelude.{
  ℕ, ◌+◌, ◌-◌, ◌*◌, ◌/◌, ◌%◌, ◌^◌, Bool, true, false, ◌&&◌, ◌||◌, not, List, [], ◌∷◌, ◌++◌, Option,
  none, some, get_or, ◌==◌, if◌then◌else◌,
}
use dumbo_ms.Fin.Messages.{BaMsg}

-- The fields of `BA` that stay as they are.
pub record Agreement : Type 0 where
  pub num : ℕ
  pub id : ℕ
  pub faults : ℕ
  pub mvbaround : ℕ
  pub baround : ℕ

unfoldable pub new_ba : ℕ → ℕ → ℕ → ℕ → Agreement
new_ba num id mvbaround baround = record {
  num = num;
  id = id;
  faults = (num - 1) / 3;
  mvbaround = mvbaround;
  baround = baround;
}

-- The locals of `handle_val` and what it has sent; `value0ready` stands for both channels of that
-- name, on which it sends together.
pub record Vals : Type 0 where
  pub v0count : ℕ
  pub v1count : ℕ
  pub isauxsent : Bool
  pub sendvalsignal : List Bool
  pub value0ready : ℕ
  pub value1ready : ℕ
  pub value0 : Bool
  pub value1 : Bool
  pub sendauxsignal : List Bool

abbrev pub new_vals : Vals
new_vals = record {
  v0count = 0;
  v1count = 0;
  isauxsent = false;
  sendvalsignal = [];
  value0ready = 0;
  value1ready = 0;
  value0 = false;
  value1 = false;
  sendauxsignal = [];
}

-- `if !isauxsent { loopinfo.sendauxsignal <- b; isauxsent = true }`
abbrev aux_once : Bool → Vals → Vals
aux_once b s =
    if s.isauxsent
    then s
    else record s { sendauxsignal = s.sendauxsignal ++ (b ∷ []); isauxsent = true }

-- The locals of `handle_finish` and what it has sent; `returned` also closes the agreement.
pub record Finishes : Type 0 where
  pub finish0count : ℕ
  pub finish1count : ℕ
  pub sendfinishsignal : List Bool
  pub output : List Bool
  pub returned : Bool

abbrev pub new_finishes : Finishes
new_finishes = record {
  finish0count = 0;
  finish1count = 0;
  sendfinishsignal = [];
  output = [];
  returned = false;
}

module _ (c : Agreement) where
  val_zero : Vals → Vals
  val_zero s =
      let t = record s { v0count = s.v0count + 1 } in
      if t.v0count == c.faults + 1
      then record t { sendvalsignal = s.sendvalsignal ++ (false ∷ []) }
      else if t.v0count == c.faults * 2 + 1
      then aux_once false (record t { value0ready = s.value0ready + 1; value0 = true })
      else t

  val_one : Vals → Vals
  val_one s =
      let t = record s { v1count = s.v1count + 1 } in
      if t.v1count == c.faults + 1
      then record t { sendvalsignal = s.sendvalsignal ++ (true ∷ []) }
      else if t.v1count == c.faults * 2 + 1
      then aux_once true (record t { value1ready = s.value1ready + 1; value1 = true })
      else t

  unfoldable pub handle_val : ℕ → BaMsg → Vals → Vals
  unfolding val_zero val_one
  handle_val loop msg s =
      if msg.loop == loop then (if msg.value then val_one s else val_zero s) else s

  finished : Bool → ℕ → Finishes → Finishes
  finished b n s =
      if n == c.faults + 1
      then record s { sendfinishsignal = s.sendfinishsignal ++ (b ∷ []) }
      else if n == c.faults * 2 + 1
      then record s { output = s.output ++ (b ∷ []); returned = true }
      else s

  unfoldable pub handle_finish : BaMsg → Finishes → Finishes
  unfolding finished
  handle_finish msg s =
      if msg.value
      then finished true (s.finish1count + 1) (record s { finish1count = s.finish1count + 1 })
      else finished false (s.finish0count + 1) (record s { finish0count = s.finish0count + 1 })

  -- The loop of the goroutine over the messages of its channel.
  unfoldable pub finish_loop : List BaMsg → Finishes → Finishes
  unfolding handle_finish
  finish_loop [] s = s
  finish_loop (m ∷ ms) s =
      let rest = finish_loop ms (handle_finish m s) in if s.returned then s else rest

-- What `Launch` waits for, before it sends its conf message and again before the coin: that the
-- value 0 or 1 is ready, and a quorum of aux or of conf messages for 0, for 1 or for any.
pub record Flags : Type 0 where
  pub v0 : Bool
  pub v1 : Bool
  pub a0 : Bool
  pub a1 : Bool
  pub amix : Bool

pub data Signal : Type 0 where
  value0ready value1ready aux0ready aux1ready auxmixready : Signal

abbrev pub no_flags : Flags
no_flags = record { v0 = false; v1 = false; a0 = false; a1 = false; amix = false }

abbrev pub set_flag : Signal → Flags → Flags
set_flag value0ready s = record s { v0 = true }
set_flag value1ready s = record s { v1 = true }
set_flag aux0ready s = record s { a0 = true }
set_flag aux1ready s = record s { a1 = true }
set_flag auxmixready s = record s { amix = true }

-- The test that the case of the `select` makes.
unfoldable pub ready_on : Signal → Flags → Bool
ready_on value0ready s = s.a0 || (s.v1 && s.amix)
ready_on value1ready s = s.a1 || (s.v0 && s.amix)
ready_on aux0ready s = s.v0
ready_on aux1ready s = s.v1
ready_on auxmixready s = s.v0 && s.v1

-- Whether the loop ends on a sequence of signals.
unfoldable pub wait : List Signal → Flags → Bool
unfolding ready_on
wait [] s = false
wait (e ∷ es) s = let rest = wait es (set_flag e s) in if ready_on e s then true else rest

-- What a round of `Launch` comes to: a finish signal, or the input of the next round.
pub data Outcome : Type 0 where
  finish : (b : Bool) → Outcome
  next : (input : Bool) → Outcome

unfoldable pub decide : Bool → Bool → Bool → Outcome
decide value0 value1 coin =
    if value0 && value1
    then next coin
    else if value0 && not coin
    then finish false
    else if value1 && coin
    then finish true
    else next (if value0 then false else true)

-- `int32(n)`, the highest byte first
unfoldable pub int_to_bytes : ℕ → List ℕ
int_to_bytes n = n % 2 ^ 32 / 2 ^ 24 ∷ n % 2 ^ 24 / 2 ^ 16 ∷ n % 2 ^ 16 / 2 ^ 8 ∷ n % 2 ^ 8 ∷ []

unfoldable pub handle_coin : (List ℕ → List ℕ) → Agreement → ℕ → ℕ → Bool
unfolding int_to_bytes
handle_coin sha256 c ba_loop loop =
    if loop == 0
    then true
    else get_or (sha256 (int_to_bytes (ba_loop + c.mvbaround * 100 + c.baround * 10 + loop))) 0 0
        % 2
      == 0
