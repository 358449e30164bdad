-- ===== src/Fin/RbcWithFinish/Leader.antt =====
-- The leader of a broadcast with a finish message, consensus/fin/MVBA/rbcwithfinish/leader.go.
-- A channel of `bool` is the number of signals on it.
use dumbo_ms.Prelude.{
  ℕ, ◌+◌, ◌-◌, ◌*◌, Bool, true, false, ◌&&◌, not, List, [], ◌∷◌, Option, none, some, ◌==◌,
  if◌then◌else◌,
}
use dumbo_ms.Fin.Messages.{Bytes, bytes_equal, RbcMsg}
use dumbo_ms.Fin.RbcWithFinish.{Broadcast, Kind, val, echo, ready, finish, other, kind, send}

-- `BC_l` with the locals of its handlers.
pub record Leader : Type 0 where
  pub input : Bytes
  pub echocount : ℕ
  pub readycount : ℕ
  pub ready_returned : Bool
  pub finishcount : ℕ
  pub finish_returned : Bool
  pub readysignal : ℕ
  pub ready_sent : Bool
  pub output1signal : ℕ
  pub output2signal : ℕ

abbrev pub new_leader : Bytes → Leader
new_leader input = record {
  input = input;
  echocount = 0;
  readycount = 0;
  ready_returned = false;
  finishcount = 0;
  finish_returned = false;
  readysignal = 0;
  ready_sent = false;
  output1signal = 0;
  output2signal = 0;
}

-- `if i+1 != bcl.nid { bcl.msgOut <- msg }`
abbrev pub but_own : ℕ → List RbcMsg → List RbcMsg
but_own nid [] = []
but_own nid (m ∷ ms) = if m.rcv_id == nid then but_own nid ms else (m ∷ but_own nid ms)

abbrev pub plus_if : Bool → ℕ → ℕ
plus_if b n = if b then n + 1 else n

module _ (c : Broadcast) where
  unfoldable pub send_val : Leader → List RbcMsg
  unfolding send
  send_val s = but_own c.nid (send c 1 s.input)

  unfoldable pub send_echo : Leader → List RbcMsg
  unfolding send
  send_echo s = send c 2 s.input

  unfoldable pub handle_echo : RbcMsg → Leader → Leader
  unfolding bytes_equal
  handle_echo msg s =
      let n = plus_if ((msg.round == c.round) && bytes_equal s.input msg.root) s.echocount in
      record s { echocount = n; readysignal = plus_if (n == c.threshold * 2 + 1) s.readysignal }

  unfoldable pub handle_ready : RbcMsg → Leader → Leader × List RbcMsg
  unfolding bytes_equal send
  handle_ready msg s =
      let n = s.readycount + 1 in
      let signals = plus_if (n == c.threshold + 1) s.readysignal in
      if (msg.round == c.round) && bytes_equal msg.root s.input
      then (if n == c.threshold * 2
          then (
            record s {
              readycount = n;
              ready_returned = true;
              readysignal = signals;
              output1signal = s.output1signal + 1;
            },
            send c 4 s.input,
          )
          else (record s { readycount = n; readysignal = signals }, []))
      else (s, [])

  unfoldable pub handle_finish : RbcMsg → Leader → Leader
  unfolding bytes_equal
  handle_finish msg s =
      let n = s.finishcount + 1 in
      if (msg.round == c.round) && bytes_equal msg.root s.input
      then (if n == c.threshold * 2
          then record s {
            finishcount = n;
            finish_returned = true;
            output2signal = s.output2signal + 1;
          }
          else record s { finishcount = n })
      else s

  -- The router and the handlers; the leader panics on a val message.
  unfoldable pub dispatch : Kind → RbcMsg → Leader → Option (Leader × List RbcMsg)
  unfolding handle_echo handle_ready handle_finish
  dispatch val msg s = none
  dispatch echo msg s = some (handle_echo msg s, [])
  dispatch ready msg s = some (if s.ready_returned then (s, []) else handle_ready msg s)
  dispatch finish msg s = some (if s.finish_returned then s else handle_finish msg s, [])
  dispatch other msg s = none

  unfoldable pub receive : RbcMsg → Leader → Option (Leader × List RbcMsg)
  unfolding dispatch kind
  receive msg s = if msg.round == c.round then dispatch (kind msg.msg_type) msg s else none

  unfoldable pub send_ready : Leader → Option (Leader × List RbcMsg)
  unfolding send
  send_ready s =
      if not s.ready_sent && not (s.readysignal == 0)
      then some (record s { readysignal = s.readysignal - 1; ready_sent = true }, send c 3 s.input)
      else none

  -- The messages that arrive, one after the other; one at which the router panics changes nothing.
  unfoldable pub receive_all : List RbcMsg → Leader → Leader
  unfolding receive
  receive_all [] s = s
  receive_all (m ∷ ms) s = receive_all ms (elim (receive m s) [ none ↦ s | some p ↦ p.0 ])
