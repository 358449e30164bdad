-- ===== src/Net/Receive/Runs.antt =====
-- A receive buffer through arrivals, registrations and waits, in any order.
use dumbo_ms.Prelude.{
  ℕ, ◌≤◌, ◌≡◌, refl, sym, ap, subst, arith, inl, inr, Bool-cases, Bool, true, false, List, [], ◌∷◌,
  ◌++◌, Option, none, some, length, ◌&&◌, if◌then◌else◌,
}
use dumbo_ms.Prelude.Int.{ℤ, pos, ltb_ℤ, ◌≤ℤ◌, ◌==ℤ◌, ◌-ℤ◌}
use dumbo_ms.Net.Messages.{ConsMsg, total, IsSorted, Sort}
use dumbo_ms.Net.Buffer.{Buffer, put}
use dumbo_ms.Net.Buffer.Bounds.{PutEnds, put-ends}
use dumbo_ms.Net.Receive.{
  RcvBuf, new_rcv_buff, raise_max, hand_over, into_queue, push, handle_in, update_waiting_priority,
  register_msg_ch_by_priority,
}
use dumbo_ms.Net.Receive.Registers.{equals, register-ends, total-parts, chosen_keeps}

pub data Event : Type 0 where
  arrives : (msg : ConsMsg) → Event
  registers : (priority : ℤ) (ch : ℕ) → Event
  waits : (priority : ℤ) → Event

unfoldable pub step : Sort → Event → RcvBuf → Option RcvBuf
step sort (arrives msg) s = handle_in sort msg s
step sort (registers priority ch) s = some (register_msg_ch_by_priority priority ch s)
step sort (waits priority) s = some (update_waiting_priority priority s)

unfoldable pub run : Sort → List Event → RcvBuf → Option RcvBuf
unfolding step
run sort [] s = some s
run sort (e ∷ es) s = elim (step sort e s) [ none ↦ none | some t ↦ run sort es t ]

-- Each priority is above the ones before it, and none is above `p`.
abbrev pub Rising : List ℤ → ℤ → Type 0
Rising [] p = Unit
Rising (x ∷ []) p = x ≤ℤ p
Rising (x ∷ y ∷ xs) p = (ltb_ℤ x y ≡ true) × Rising (y ∷ xs) p

Rising-snoc : (xs : List ℤ) (p q : ℤ) → Rising xs p → ltb_ℤ p q ≡ true → Rising (xs ++ (q ∷ [])) q
Rising-snoc [] p q r h = omega arith
Rising-snoc (x ∷ []) p q r h = (ground arith, omega arith)
Rising-snoc (x ∷ y ∷ xs) p q r h = (r.0, Rising-snoc (y ∷ xs) p q r.1 h)

-- The buffer keeps its order, its limits and its count, and the priorities that are reported rise
-- to the highest one seen.
pub record Sound (s : RcvBuf) : Type 0 where
  pub ordered : IsSorted s.queue.buf
  pub few : length s.queue.buf ≤ s.queue.capacity
  pub counted : total s.queue.buf ≤ s.queue.mem_use
  pub within : s.queue.mem_use ≤ s.queue.volume
  pub rising : Rising s.max_priority_out s.max_priority

abbrev SoundIf : Option RcvBuf → Type 0
SoundIf none = Unit
SoundIf (some s) = Sound s

raise_max-Sound : (msg : ConsMsg) (s : RcvBuf) → Sound s → Sound (raise_max msg s)
raise_max-Sound msg s h = elim (Bool-cases (ltb_ℤ s.max_priority msg.priority)) [
  | inl e ↦ rw e (record {
    ordered = h.ordered;
    few = h.few;
    counted = h.counted;
    within = h.within;
    rising = Rising-snoc s.max_priority_out s.max_priority msg.priority h.rising e;
  })
  | inr e ↦ rw e h
]

hand_over-Sound :
    (msg : ConsMsg) (s : RcvBuf) (o : Option ℕ)
    → Sound s
    → s.register_ch ≡ o
    → SoundIf (hand_over msg s)
hand_over-Sound msg s none h e = rw e tt
hand_over-Sound msg s (some ch) h e = rw e (record {
  ordered = h.ordered;
  few = h.few;
  counted = h.counted;
  within = h.within;
  rising = h.rising;
})

into_queue-Sound :
    (sort : Sort) (msg : ConsMsg) (s : RcvBuf) (o : Option Buffer)
    → Sound s
    → PutEnds sort msg s.queue o
    → SoundIf (into_queue s o)
into_queue-Sound sort msg s none h e = tt
into_queue-Sound sort msg s (some b) h e = record {
  ordered = e.0.ordered;
  few = e.0.few;
  counted = e.0.counted;
  within = e.0.within;
  rising = h.rising;
}

if-Sound : (b : Bool) (x y : Option RcvBuf) → SoundIf x → SoundIf y → SoundIf (if b then x else y)
if-Sound true x y h k = h
if-Sound false x y h k = k

keeps : (b : Bool) (x y : RcvBuf) → Sound x → Sound y → Sound (if b then x else y)
keeps true x y h k = h
keeps false x y h k = k

push-Sound : (sort : Sort) (msg : ConsMsg) (s : RcvBuf) → Sound s → SoundIf (push sort msg s)
unfolding push
push-Sound sort msg s h =
    let t = raise_max msg s in
    let k = raise_max-Sound msg s h in
    if-Sound (ltb_ℤ msg.priority (t.max_priority -ℤ 3)) (some t) _ k (
      if-Sound (t.register_priority ==ℤ msg.priority) (hand_over msg t) _
        (hand_over-Sound msg t t.register_ch k refl)
        (if-Sound (ltb_ℤ t.register_priority msg.priority) (into_queue t (put sort msg t.queue))
          (some t)
          (into_queue-Sound sort msg t (put sort msg t.queue) k
            (put-ends sort msg t.queue k.counted))
          k))

handle_in-Sound :
    (sort : Sort) (msg : ConsMsg) (s : RcvBuf) → Sound s → SoundIf (handle_in sort msg s)
unfolding handle_in
handle_in-Sound sort msg s h =
    if-Sound (msg.msg_type ==ℤ pos 3) _ _
      (keeps (s.is_waiting_for_assist && (msg.priority ==ℤ s.waiting_assist_priority))
        (record s { assist_out = s.assist_out ++ (msg ∷ []); is_waiting_for_assist = false }) s
        (record {
          ordered = h.ordered;
          few = h.few;
          counted = h.counted;
          within = h.within;
          rising = h.rising;
        })
        h)
      (if-Sound (msg.msg_type ==ℤ pos 2) _ _
        (keeps (ltb_ℤ s.max_call_help_priority msg.priority)
          (record s {
            max_call_help_priority = msg.priority;
            call_help_out = s.call_help_out ++ (msg ∷ []);
          })
          s
          (record {
            ordered = h.ordered;
            few = h.few;
            counted = h.counted;
            within = h.within;
            rising = h.rising;
          })
          h)
        (push-Sound sort msg s h))

register-Sound :
    (p : ℤ) (ch : ℕ) (s : RcvBuf) → Sound s → Sound (register_msg_ch_by_priority p ch s)
unfolding register_msg_ch_by_priority
register-Sound p ch s h =
    let e = register-ends p ch s h.ordered h.counted in
    let k =
      chosen_keeps p (equals p s.queue.buf) s.queue.buf s.queue.mem_use
        (register_msg_ch_by_priority p ch s).queue.mem_use h.ordered h.counted e.1
        (total-parts p s.queue.buf h.ordered) in
    record {
      ordered = subst IsSorted (sym e.2) k.0;
      few = omega (arith, ap length e.2, k.1, h.few);
      counted = omega (arith, ap total e.2, k.2);
      within = omega (arith, e.1, h.within);
      rising = h.rising;
    }

step-Sound : (sort : Sort) (e : Event) (s : RcvBuf) → Sound s → SoundIf (step sort e s)
unfolding step
step-Sound sort (arrives msg) s h = handle_in-Sound sort msg s h
step-Sound sort (registers p ch) s h = register-Sound p ch s h
step-Sound sort (waits p) s h = record {
  ordered = h.ordered;
  few = h.few;
  counted = h.counted;
  within = h.within;
  rising = h.rising;
}

abbrev run_rest : Sort → List Event → Option RcvBuf → Option RcvBuf
run_rest sort es o = elim o [ none ↦ none | some t ↦ run sort es t ]

rest_from :
    (sort : Sort) (es : List Event) (o : Option RcvBuf)
    → ((t : RcvBuf) → Sound t → SoundIf (run sort es t))
    → SoundIf o
    → SoundIf (run_rest sort es o)
rest_from sort es none f h = tt
rest_from sort es (some t) f h = f t h

run_from : (sort : Sort) (es : List Event) (s : RcvBuf) → Sound s → SoundIf (run sort es s)
unfolding run
run_from sort [] s h = h
run_from sort (e ∷ es) s h =
    rest_from sort es (step sort e s) (λ t k. run_from sort es t k) (step-Sound sort e s h)

-- Whatever arrives and is registered in whatever order, the buffer stays sorted by priority and
-- within its limits and counts at least the bytes that it holds, and the priorities that are
-- reported as the highest ones rise.
pub run-Sound :
    (sort : Sort) (capacity volume : ℕ) (es : List Event) (s : RcvBuf)
    → run sort es (new_rcv_buff capacity volume) ≡ some s
    → Sound s
run-Sound sort capacity volume es s e = subst SoundIf e (
    run_from sort es (new_rcv_buff capacity volume) (record {
      ordered = tt;
      few = omega arith;
      counted = omega arith;
      within = omega arith;
      rising = tt;
    }))
