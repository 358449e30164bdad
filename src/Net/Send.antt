-- ===== src/Net/Send.antt =====
-- SendBuf of network/priority/priorityqueue.go: HandleProtoMsg takes messages in, AsyncSend chooses
-- the next one to send.
use dumbo_ms.Prelude.{List, [], ◌∷◌, ◌++◌, Option, none, some, if◌then◌else◌}
use dumbo_ms.Prelude.Int.{ℤ, pos, ◌==ℤ◌}
use dumbo_ms.Net.Messages.{ConsMsg, Sort}
use dumbo_ms.Net.Buffer.{Buffer, put, pop}

pub record SendBuf : Type 0 where
  pub sb_id : ℤ
  pub queue : Buffer
  pub call_help_buf : List ConsMsg
  pub assist_buf : List ConsMsg

abbrev pub with_queue : SendBuf → Option Buffer → Option SendBuf
with_queue s none = none
with_queue s (some b) = some (record s { queue = b })

-- One round of `HandleProtoMsg`.
unfoldable pub handle_out : Sort → ConsMsg → SendBuf → Option SendBuf
handle_out sort msg s =
    if msg.rev_id ==ℤ s.sb_id
    then (if msg.msg_type ==ℤ pos 2
        then some (record s { call_help_buf = s.call_help_buf ++ (msg ∷ []) })
        else if msg.msg_type ==ℤ pos 3
        then some (record s { assist_buf = s.assist_buf ++ (msg ∷ []) })
        else with_queue s (put sort msg s.queue))
    else some s

abbrev pub newest : ConsMsg → List ConsMsg → ConsMsg
newest m [] = m
newest m (x ∷ xs) = newest x xs

-- The choice at the head of the loop of `AsyncSend`; `none` is a sleep of 50 ms.
unfoldable pub next_out : SendBuf → Option (ConsMsg × SendBuf)
unfolding pop
next_out s = elim s.call_help_buf [
  | m ∷ ms ↦ some (newest m ms, record s { call_help_buf = [] })
  | [] ↦ elim s.assist_buf [
    | m ∷ ms ↦ some (newest m ms, record s { assist_buf = [] })
    | [] ↦ elim (pop s.queue) [ none ↦ none | some (m, b) ↦ some (m, record s { queue = b }) ]
  ]
]
