-- ===== src/Fin/RbcWithFinish.antt =====
-- Reliable broadcast with a finish message, consensus/fin/MVBA/rbcwithfinish. A goroutine that
-- loops over a channel is the handler that it runs on a message, with its locals in the state of
-- the node; a send on a channel is an entry of a list; the goroutine ends with `returned`. The
-- test of inputs, `check_input_rbc`, is a parameter.
pub mod Leader
pub mod Network
pub mod Votes
pub mod Follows
pub mod Routed
pub mod Leads
pub mod Counts
pub mod Turns
pub mod Invariant
pub mod Agreement
pub mod Schedule
pub mod Repeats
pub mod Validity
pub mod Quorums
use dumbo_ms.Prelude.{
  ℕ, zero, suc, ◌+◌, ◌-◌, ◌*◌, ◌/◌, Bool, true, false, ◌&&◌, List, [], ◌∷◌, ◌++◌, Option, none,
  some, ◌==◌, if◌then◌else◌,
}
use dumbo_ms.Fin.Messages.{Bytes, bytes_equal, RbcMsg, to_all, Tally, empty, value_of, count_up}

-- The fields of `BC_f` and `BC_l` that stay as they are.
pub record Broadcast : Type 0 where
  pub nid : ℕ
  pub lid : ℕ
  pub num : ℕ
  pub threshold : ℕ
  pub round : ℕ

unfoldable pub new_broadcast : ℕ → ℕ → ℕ → ℕ → Broadcast
new_broadcast nid lid round num = record {
  nid = nid;
  lid = lid;
  num = num;
  threshold = (num - 1) / 3;
  round = round;
}

-- The cases of the router's `switch` on the type of a message.
pub data Kind : Type 0 where
  val echo ready finish other : Kind

unfoldable pub kind : ℕ → Kind
kind t =
    if t == 1
    then val
    else if t == 2
    then echo
    else if t == 3
    then ready
    else if t == 4
    then finish
    else other

-- The locals of a handler: its map and its counter, and whether it has returned.
pub record Handler : Type 0 where
  pub counts : Tally
  pub seen : ℕ
  pub returned : Bool

abbrev pub new_handler : Handler
new_handler = record { counts = empty; seen = 0; returned = false }

abbrev pub counted : Handler → Bytes → Handler
counted h value = record h { counts = count_up h.counts value; seen = h.seen + 1 }

-- What is sent on a channel when a test holds.
abbrev pub signal_if : Bool → Bytes → List Bytes → List Bytes
signal_if true value signals = signals ++ (value ∷ [])
signal_if false value signals = signals

-- A follower, `BC_f`: the three counting handlers, what `readysignal` still holds, the value that
-- `send_ready` took from it, and the values sent on the two output channels.
pub record Follower : Type 0 where
  pub echo : Handler
  pub ready : Handler
  pub finish : Handler
  pub readysignal : List Bytes
  pub ready_sent : Option Bytes
  pub output1signal : List Bytes
  pub output2signal : List Bytes

abbrev pub new_follower : Follower
new_follower = record {
  echo = new_handler;
  ready = new_handler;
  finish = new_handler;
  readysignal = [];
  ready_sent = none;
  output1signal = [];
  output2signal = [];
}

-- A message of type t from this node to every node, itself included.
unfoldable pub send : Broadcast → ℕ → Bytes → List RbcMsg
send c t value = to_all c.num 0 (record {
  id = c.nid;
  rcv_id = 0;
  leader = c.lid;
  round = c.round;
  msg_type = t;
  msglen = 0;
  root = value;
  values = [];
})

module _ (c : Broadcast) where
  unfoldable pub handle_val : (Bytes → Bool) → RbcMsg → List RbcMsg
  unfolding send
  handle_val check_input_rbc msg =
      if (msg.round == c.round) && check_input_rbc msg.root then send c 2 msg.root else []

  -- Counting and the quorum of echoes; `if echocount == bcf.num` comes last.
  unfoldable pub handle_echo : RbcMsg → Follower → Follower
  handle_echo msg s =
      let same = msg.round == c.round in
      let h = if same then counted s.echo msg.root else s.echo in
      let quorum = same && (value_of (h.counts msg.root) == c.threshold * 2 + 1) in
      record s {
        echo = record h { returned = h.seen == c.num };
        readysignal = signal_if quorum msg.root s.readysignal;
      }

  unfoldable pub handle_ready : RbcMsg → Follower → Follower × List RbcMsg
  unfolding send
  handle_ready msg s =
      let h = counted s.ready msg.root in
      let n = value_of (h.counts msg.root) in
      let signals = signal_if (n == c.threshold + 1) msg.root s.readysignal in
      if msg.round == c.round
      then (if n == c.threshold * 2 + 1
          then (
            record s {
              ready = record h { returned = true };
              readysignal = signals;
              output1signal = s.output1signal ++ (msg.root ∷ []);
            },
            send c 4 msg.root,
          )
          else (record s { ready = h; readysignal = signals }, []))
      else (s, [])

  -- The loop of the goroutine over the messages of its channel.
  unfoldable pub ready_loop : List RbcMsg → Follower → Follower
  unfolding handle_ready
  ready_loop [] s = s
  ready_loop (m ∷ ms) s =
      let rest = ready_loop ms (handle_ready m s).0 in if s.ready.returned then s else rest

  unfoldable pub handle_finish : RbcMsg → Follower → Follower
  handle_finish msg s =
      let h = counted s.finish msg.root in
      if msg.round == c.round
      then (if value_of (h.counts msg.root) == c.threshold * 2 + 1
          then record s {
            finish = record h { returned = true };
            output2signal = s.output2signal ++ (msg.root ∷ []);
          }
          else record s { finish = h })
      else s

  -- The router `handle_msgin`, and the handler behind the channel unless it has returned. A panic
  -- is `none`.
  unfoldable pub dispatch :
      (Bytes → Bool) → Kind → RbcMsg → Follower → Option (Follower × List RbcMsg)
  unfolding handle_val handle_echo handle_ready handle_finish
  dispatch check val msg s = some (s, handle_val check msg)
  dispatch check echo msg s = some (if s.echo.returned then s else handle_echo msg s, [])
  dispatch check ready msg s = some (if s.ready.returned then (s, []) else handle_ready msg s)
  dispatch check finish msg s = some (if s.finish.returned then s else handle_finish msg s, [])
  dispatch check other msg s = none

  unfoldable pub receive : (Bytes → Bool) → RbcMsg → Follower → Option (Follower × List RbcMsg)
  unfolding dispatch
  receive check msg s =
      if msg.round == c.round then dispatch check (kind msg.msg_type) msg s else none

  -- `send_ready` waits for the first signal, sends its value, and ends.
  unfoldable pub send_ready : Follower → Option (Follower × List RbcMsg)
  unfolding send
  send_ready s = elim s.ready_sent [
    | some value ↦ none
    | none ↦ elim s.readysignal [
      | [] ↦ none
      | value ∷ rest ↦
          some (record s { readysignal = rest; ready_sent = some value }, send c 3 value)
    ]
  ]
