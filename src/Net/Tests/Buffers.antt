-- ===== src/Net/Tests/Buffers.antt =====
-- Buffers for few and small messages.
use mathlib.Core.List.{Permᴰ}
use dumbo_ms.Prelude.{ℕ, ◌+◌, ◌≤◌, ◌≡◌, refl, arith, List, [], ◌∷◌, none, some, length, replicate}
use dumbo_ms.Prelude.Int.{pos, negsuc}
use dumbo_ms.Net.Messages.{ConsMsg, IsSorted}
use dumbo_ms.Net.Messages.Model.{by_insertion, insertion_sort}
use dumbo_ms.Net.Buffer.{Buffer, new_buffer, put, put_all, pop}
use dumbo_ms.Net.Buffer.Bounds.{Holds, PutEnds, put-ends, pop-Least}
use dumbo_ms.Net.Buffer.Exact.{put_all-all}
use dumbo_ms.Net.Buffer.Starved.{lost, put_all-starved, put-lost}
use dumbo_ms.Net.Send.{next_out}
use dumbo_ms.Net.Receive.{RcvBuf, new_rcv_buff, register_msg_ch_by_priority, handle_in}
use dumbo_ms.Net.Receive.Registers.{register-ends}
use dumbo_ms.Net.Receive.Runs.{Event, arrives, registers, run, Sound, run-Sound}

-- A message of the priority `p` with `n` bytes.
abbrev msg : ℕ → ℕ → ConsMsg
msg p n = record {
  send_id = pos 1;
  rev_id = pos 2;
  priority = pos p;
  content = replicate n 0;
  msg_type = pos 1;
}

-- Room for one message and for 120 bytes: a second message of a low priority is cut and stays
-- counted, and then no message fits.
abbrev one_high : Buffer
one_high = record { capacity = 1; volume = 120; mem_use = 58; buf = msg 9 2 ∷ [] }

one_cut : put by_insertion (msg 1 0) one_high ≡ some (record one_high { mem_use = 114 })
unfolding put insertion_sort
one_cut = refl

-- With both counted, a third message ends the program: Buf[0] of an empty buffer is read.
cut_end : put by_insertion (msg 1 70) (record one_high { mem_use = 114 }) ≡ none
unfolding put insertion_sort
cut_end = refl

put-ends_example :
    PutEnds by_insertion
      (msg 1 70)
      (record one_high { mem_use = 114 })
      (put by_insertion (msg 1 70) (record one_high { mem_use = 114 }))
put-ends_example =
    put-ends by_insertion (msg 1 70) (record one_high { mem_use = 114 }) (omega arith)

put_all-all_example :
    (t : Buffer) × (put_all by_insertion (msg 3 1 ∷ msg 1 2 ∷ []) (new_buffer 2 200) ≡ some t)
    × Permᴰ t.buf (msg 3 1 ∷ msg 1 2 ∷ [])
    × IsSorted t.buf
    × (t.mem_use ≡ 115)
put_all-all_example =
    put_all-all by_insertion 2 200 (msg 3 1 ∷ msg 1 2 ∷ []) (omega arith) (omega arith)

put_all-starved_example :
    put_all by_insertion
      (msg 9 0 ∷ msg 8 5 ∷ [])
      (record { capacity = 1; volume = 120; mem_use = 70; buf = [] })
    ≡ some (record { capacity = 1; volume = 120; mem_use = 70; buf = [] })
put_all-starved_example =
    put_all-starved by_insertion (msg 9 0) (msg 8 5 ∷ [])
      (record { capacity = 1; volume = 120; mem_use = 70; buf = [] }) (omega arith) (omega arith)
      (omega arith) (omega arith)

put-lost_example :
    (t : Buffer) × (put by_insertion (msg 1 0) one_high ≡ some t)
    × (length t.buf ≡ 1)
    × (0 + 56 ≤ lost t)
put-lost_example = put-lost by_insertion (msg 1 0) one_high refl (omega arith) (omega arith)

pop_run : pop one_high ≡ some (msg 9 2, record one_high { mem_use = 0; buf = [] })
unfolding pop
pop_run = refl

pop-Least_example :
    Holds (record one_high { mem_use = 0; buf = [] })
    × Unit {0}
    × (0 + 58 ≡ 58)
    × (msg 9 2 ∷ [] ≡ msg 9 2 ∷ [])
pop-Least_example =
    pop-Least one_high (record one_high { mem_use = 0; buf = [] }) (msg 9 2)
      (record {
        ordered = (tt, tt);
        few = omega arith;
        counted = omega arith;
        within = omega arith;
      })
      pop_run

abbrev three_waiting : RcvBuf
three_waiting = record (new_rcv_buff 9 999) {
  queue = record {
    capacity = 9;
    volume = 999;
    mem_use = 170;
    buf = msg 1 0 ∷ msg 2 1 ∷ msg 3 1 ∷ [];
  };
}

-- The message of the priority 1 is cut off, and its 56 bytes stay counted.
register_run :
    (register_msg_ch_by_priority (pos 2) 4 three_waiting).queue
    ≡ record { capacity = 9; volume = 999; mem_use = 113; buf = msg 3 1 ∷ [] }
unfolding register_msg_ch_by_priority
register_run = refl

three-IsSorted : IsSorted three_waiting.queue.buf
three-IsSorted = ((omega arith, (omega arith, tt)), ((omega arith, tt), (tt, tt)))

register-ends_example :
    ((register_msg_ch_by_priority (pos 2) 4 three_waiting).registered ≡ (4, msg 2 1) ∷ [])
    × ((register_msg_ch_by_priority (pos 2) 4 three_waiting).queue.mem_use + 57 ≡ 170)
    × ((register_msg_ch_by_priority (pos 2) 4 three_waiting).queue.buf ≡ msg 3 1 ∷ [])
register-ends_example = register-ends (pos 2) 4 three_waiting three-IsSorted (omega arith)

abbrev two_events : List Event
two_events = arrives (msg 2 1) ∷ registers (pos 2) 4 ∷ arrives (msg 5 1) ∷ []

abbrev after_two : RcvBuf
after_two = record (new_rcv_buff 9 999) {
  queue = record { capacity = 9; volume = 999; mem_use = 57; buf = msg 5 1 ∷ [] };
  max_priority = pos 5;
  register_priority = pos 2;
  register_ch = some 4;
  max_priority_out = pos 2 ∷ pos 5 ∷ [];
  registered = (4, msg 2 1) ∷ [];
}

two_run : run by_insertion two_events (new_rcv_buff 9 999) ≡ some after_two
unfolding run handle_in put register_msg_ch_by_priority insertion_sort
two_run = refl

run-Sound_example : Sound after_two
run-Sound_example = run-Sound by_insertion 9 999 two_events after_two two_run

-- A message of the priority -1 is sent on the channel that nobody has registered.
nil_run :
    handle_in by_insertion (record (msg 0 0) { priority = negsuc 0 }) (new_rcv_buff 9 999) ≡ none
unfolding handle_in
nil_run = refl

-- Of two messages of assistance the second is sent and the first is gone.
assist_run :
    next_out (record {
      sb_id = pos 2;
      queue = one_high;
      call_help_buf = [];
      assist_buf = msg 4 1 ∷ msg 5 1 ∷ [];
    })
    ≡ some
        (msg 5 1, record { sb_id = pos 2; queue = one_high; call_help_buf = []; assist_buf = [] })
unfolding next_out
assist_run = refl
