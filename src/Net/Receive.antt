-- ===== src/Net/Receive.antt =====
-- RcvBuf of network/priority/priorityqueue.go. A send on a channel is an entry of a list; the
-- channel of a registration goes by a number. `none` is a run that ends or blocks for ever: an index
-- out of range, or a send on the nil channel that `RegisterCH` has at first.
pub mod Registers
pub mod Runs
use dumbo_ms.Prelude.{
  ℕ, ◌+◌, ◌-◌, Bool, true, false, ◌&&◌, List, [], ◌∷◌, ◌++◌, Option, none, some, drop,
  if◌then◌else◌,
}
use dumbo_ms.Prelude.Int.{ℤ, pos, negsuc, ltb_ℤ, ◌-ℤ◌, ◌==ℤ◌}
use dumbo_ms.Net.Messages.{ConsMsg, size, Sort}
use dumbo_ms.Net.Buffer.{Buffer, new_buffer, put}

pub record RcvBuf : Type 0 where
  pub queue : Buffer
  pub max_priority : ℤ
  pub register_priority : ℤ
  pub register_ch : Option ℕ
  pub waiting_assist_priority : ℤ
  pub is_waiting_for_assist : Bool
  pub max_call_help_priority : ℤ
  -- What was sent on the channels.
  pub max_priority_out : List ℤ
  pub registered : List (ℕ × ConsMsg)
  pub assist_out : List ConsMsg
  pub call_help_out : List ConsMsg

abbrev pub new_rcv_buff : ℕ → ℕ → RcvBuf
new_rcv_buff capacity volume = record {
  queue = new_buffer capacity volume;
  max_priority = negsuc 0;
  register_priority = negsuc 0;
  register_ch = none;
  waiting_assist_priority = negsuc 0;
  is_waiting_for_assist = false;
  max_call_help_priority = negsuc 0;
  max_priority_out = [];
  registered = [];
  assist_out = [];
  call_help_out = [];
}

abbrev pub update_waiting_priority : ℤ → RcvBuf → RcvBuf
update_waiting_priority priority s = record s {
  waiting_assist_priority = priority;
  is_waiting_for_assist = true;
}

abbrev pub raise_max : ConsMsg → RcvBuf → RcvBuf
raise_max msg s =
    if ltb_ℤ s.max_priority msg.priority
    then record s {
      max_priority = msg.priority;
      max_priority_out = s.max_priority_out ++ (msg.priority ∷ []);
    }
    else s

abbrev pub hand_over : ConsMsg → RcvBuf → Option RcvBuf
hand_over msg s = elim s.register_ch [
  | none ↦ none
  | some ch ↦ some (record s { registered = s.registered ++ ((ch, msg) ∷ []) })
]

abbrev pub into_queue : RcvBuf → Option Buffer → Option RcvBuf
into_queue s none = none
into_queue s (some b) = some (record s { queue = b })

unfoldable pub push : Sort → ConsMsg → RcvBuf → Option RcvBuf
push sort msg s =
    let t = raise_max msg s in
    if ltb_ℤ msg.priority (t.max_priority -ℤ 3)
    then some t
    else if t.register_priority ==ℤ msg.priority
    then hand_over msg t
    else if ltb_ℤ t.register_priority msg.priority
    then into_queue t (put sort msg t.queue)
    else some t

-- One round of `HandleProtoMsg`.
unfoldable pub handle_in : Sort → ConsMsg → RcvBuf → Option RcvBuf
unfolding push
handle_in sort msg s =
    if msg.msg_type ==ℤ pos 3
    then some (
        if s.is_waiting_for_assist && (msg.priority ==ℤ s.waiting_assist_priority)
        then record s { assist_out = s.assist_out ++ (msg ∷ []); is_waiting_for_assist = false }
        else s)
    else if msg.msg_type ==ℤ pos 2
    then some (
        if ltb_ℤ s.max_call_help_priority msg.priority
        then record s {
          max_call_help_priority = msg.priority;
          call_help_out = s.call_help_out ++ (msg ∷ []);
        }
        else s)
    else push sort msg s

-- The loop of `RegisterMsgCHByPriority` from the place `i` on, with its locals.
pub record Registering : Type 0 where
  pub mem_use : ℕ
  pub cut_index : ℕ
  pub sent : List ConsMsg

abbrev pub taken : ℤ → ConsMsg → ℕ → Registering → Registering
taken priority msg i r =
    if msg.priority ==ℤ priority
    then record { mem_use = r.mem_use - size msg; cut_index = i + 1; sent = r.sent ++ (msg ∷ []) }
    else r

-- The first message of a higher priority, which is not an equal one, breaks the loop off.
unfoldable pub register_loop : ℤ → List ConsMsg → ℕ → Registering → Registering
register_loop priority [] i r = r
register_loop priority (msg ∷ buf) i r =
    let rest = register_loop priority buf (i + 1) (taken priority msg i r) in
    if ltb_ℤ priority msg.priority then r else rest

abbrev pub tagged : ℕ → List ConsMsg → List (ℕ × ConsMsg)
tagged ch [] = []
tagged ch (m ∷ ms) = (ch, m) ∷ tagged ch ms

unfoldable pub register_msg_ch_by_priority : ℤ → ℕ → RcvBuf → RcvBuf
unfolding register_loop
register_msg_ch_by_priority priority ch s =
    let start : Registering = record { mem_use = s.queue.mem_use; cut_index = 0; sent = [] } in
    let r = register_loop priority s.queue.buf 0 start in
    record s {
      register_priority = priority;
      register_ch = some ch;
      registered = s.registered ++ tagged ch r.sent;
      queue = record s.queue { mem_use = r.mem_use; buf = drop r.cut_index s.queue.buf };
    }
