-- ===== src/Fin/RbcWithFinish/Validity.antt =====
-- A broadcast among four nodes whose honest leader is node 1 and whose faulty node is node 4, which
-- sends val messages of its own: `handle_val` does not look at the sender.
use mathlib.Core.List.{Memᴰ}
use dumbo_ms.Prelude.{
  ℕ, zero, suc, arith, ◌≡◌, refl, sym, ap, ◌∙◌, Bool, true, false, List, [], ◌∷◌, Option, some, ltb,
  leb, ◌==◌, if◌then◌else◌,
}
use dumbo_ms.Fin.Messages.{
  Bytes, bytes_equal_refl, RbcMsg, Tally, empty, value_of, count_up, value_of-count_up,
}
use dumbo_ms.Fin.RbcWithFinish.{Handler, Follower, new_follower, signal_if}
use dumbo_ms.Fin.RbcWithFinish.Network.{
  Setting, System, Node, follower, as_follower, Reach, start, later, deliver, go_ready,
  node_receives, node_sends_ready,
}
use dumbo_ms.Fin.RbcWithFinish.Votes.{readies, outputs}
use dumbo_ms.Fin.RbcWithFinish.Schedule.{true_not_false}

-- What the nodes accept as an input is a parameter.
abbrev pub four : (ℕ → Bytes → Bool) → Bytes → Setting
four check_input_rbc input = record {
  num = 4;
  lid = 1;
  round = 5;
  input = input;
  honest = λ i. ltb i 4;
  check_input_rbc = check_input_rbc;
}

-- The messages that the followers hear, of the types 1 to 3 and with one value.
abbrev msg : Bytes → ℕ → ℕ → ℕ → RbcMsg
msg value t from to = record {
  id = from;
  rcv_id = to;
  leader = 1;
  round = 5;
  msg_type = t;
  msglen = 0;
  root = value;
  values = [];
}

module _ (check_input_rbc : ℕ → Bytes → Bool) (input value : Bytes) where
  abbrev g : Setting
  g = four check_input_rbc input

  -- The counts after n messages for the value.
  abbrev tally : ℕ → Tally
  tally zero = empty
  tally (suc n) = count_up (tally n) value

  value_of-tally : (n : ℕ) → value_of (tally n value) ≡ n
  value_of-tally zero = refl
  value_of-tally (suc n) =
      value_of-count_up (tally n) value value
      ∙ ap (λ b. if b then suc (value_of (tally n value)) else value_of (tally n value))
          (bytes_equal_refl value)
      ∙ ap suc (value_of-tally n)

  abbrev handler : Bool → ℕ → Handler
  handler returned n = record { counts = tally n; seen = n; returned = returned }

  -- A follower after n echoes.
  abbrev echoed : ℕ → Follower
  echoed n = record new_follower {
    echo = handler false n;
    readysignal = signal_if (n == 3) value [];
  }

  -- A follower that has sent its ready message, after n ready messages.
  abbrev readied : ℕ → Follower
  readied n = record new_follower {
    echo = handler false 3;
    ready = handler (n == 3) n;
    readysignal = signal_if (leb 2 n) value [];
    ready_sent = some value;
    output1signal = signal_if (n == 3) value [];
  }

  abbrev sends : ℕ → ℕ → List RbcMsg
  sends t i = msg value t i 1 ∷ msg value t i 2 ∷ msg value t i 3 ∷ msg value t i 4 ∷ []

  val_taken :
      (i : ℕ)
      → check_input_rbc i value ≡ true
      → node_receives g i (msg value 1 4 i) (follower new_follower)
        ≡ some (follower new_follower, sends 2 i)
  unfolding node_receives
  val_taken i e = ap (λ b. some (follower new_follower, if b then sends 2 i else [])) e

  echo_at : ℕ → ℕ → Option (Node × List RbcMsg)
  echo_at n k = some (
    follower
        (record new_follower { echo = handler false n; readysignal = signal_if (k == 3) value [] }),
    [],
  )

  first_echo :
      (from i : ℕ)
      → node_receives g i (msg value 2 from i) (follower new_follower)
        ≡ some (follower (echoed 1), [])
  unfolding node_receives echo_at
  first_echo from i = ap (echo_at 1) (value_of-tally 1)

  second_echo :
      (from i : ℕ)
      → node_receives g i (msg value 2 from i) (follower (echoed 1))
        ≡ some (follower (echoed 2), [])
  unfolding node_receives echo_at
  second_echo from i = ap (echo_at 2) (value_of-tally 2)

  third_echo :
      (from i : ℕ)
      → node_receives g i (msg value 2 from i) (follower (echoed 2))
        ≡ some (follower (echoed 3), [])
  unfolding node_receives echo_at
  third_echo from i = ap (echo_at 3) (value_of-tally 3)

  ready_goes :
      (i : ℕ) → node_sends_ready g i (follower (echoed 3)) ≡ some (follower (readied 0), sends 3 i)
  unfolding node_sends_ready
  ready_goes i = refl

  ready_at : ℕ → ℕ → ℕ → Option (Node × List RbcMsg)
  ready_at i n k =
      let signals = signal_if (k == 2) value (signal_if (leb 2 n) value []) in
      as_follower (
        some (
          if k == 3
          then (
            record (readied n) {
              ready = handler true (suc n);
              readysignal = signals;
              output1signal = value ∷ [];
            },
            sends 4 i,
          )
          else (record (readied n) { ready = handler false (suc n); readysignal = signals }, [])))

  first_ready :
      (from i : ℕ)
      → node_receives g i (msg value 3 from i) (follower (readied 0))
        ≡ some (follower (readied 1), [])
  unfolding node_receives ready_at
  first_ready from i = ap (ready_at i 0) (value_of-tally 1)

  second_ready :
      (from i : ℕ)
      → node_receives g i (msg value 3 from i) (follower (readied 1))
        ≡ some (follower (readied 2), [])
  unfolding node_receives ready_at
  second_ready from i = ap (ready_at i 1) (value_of-tally 2)

  third_ready :
      (from i : ℕ)
      → node_receives g i (msg value 3 from i) (follower (readied 2))
        ≡ some (follower (readied 3), sends 4 i)
  unfolding node_receives ready_at
  third_ready from i = ap (ready_at i 2) (value_of-tally 3)

  -- Node 4 sends what it likes.
  forged : {A : Type 0} → g.honest 4 ≡ true → A
  forged h = absurd (true_not_false (sym h))

  -- Past the four messages of one more send.
  past : {m a b c d : RbcMsg} {ms : List RbcMsg} → Memᴰ m ms → Memᴰ m (a ∷ b ∷ c ∷ d ∷ ms)
  past k = Memᴰ.tail (Memᴰ.tail (Memᴰ.tail (Memᴰ.tail k)))

  -- Both followers have heard the echoes of the value.
  abbrev after_echoes :
      check_input_rbc 2 value ≡ true → check_input_rbc 3 value ≡ true → (s : System) × Reach g s
  after_echoes second third =
      let r1 = later start (
        deliver 2 (msg value 1 4 2) (follower new_follower) (sends 2 2) refl (omega arith)
          (omega arith) refl refl forged (val_taken 2 second)) in
      let r2 = later r1 (
        deliver 3 (msg value 1 4 3) (follower new_follower) (sends 2 3) refl (omega arith)
          (omega arith) refl refl forged (val_taken 3 third)) in
      let r3 = later r2 (
        deliver 2 (msg value 2 4 2) (follower (echoed 1)) [] refl (omega arith) (omega arith) refl
          refl forged (first_echo 4 2)) in
      let r4 = later r3 (
        deliver 2 (msg value 2 2 2) (follower (echoed 2)) [] refl (omega arith) (omega arith) refl
          refl (λ h. (past (Memᴰ.tail (Memᴰ.head refl)))) (second_echo 2 2)) in
      let r5 = later r4 (
        deliver 2 (msg value 2 3 2) (follower (echoed 3)) [] refl (omega arith) (omega arith) refl
          refl (λ h. (Memᴰ.tail (Memᴰ.head refl))) (third_echo 3 2)) in
      let r6 = later r5 (
        deliver 3 (msg value 2 4 3) (follower (echoed 1)) [] refl (omega arith) (omega arith) refl
          refl forged (first_echo 4 3)) in
      let r7 = later r6 (
        deliver 3 (msg value 2 2 3) (follower (echoed 2)) [] refl (omega arith) (omega arith) refl
          refl (λ h. (past (Memᴰ.tail (Memᴰ.tail (Memᴰ.head refl))))) (second_echo 2 3)) in
      let r8 = later r7 (
        deliver 3 (msg value 2 3 3) (follower (echoed 3)) [] refl (omega arith) (omega arith) refl
          refl (λ h. (Memᴰ.tail (Memᴰ.tail (Memᴰ.head refl)))) (third_echo 3 3)) in
      (_, r8)

  -- Whatever the honest leader's input, and whatever value the two followers accept as an input,
  -- the leader's or another one, a state can be reached in which both followers have put that
  -- value out: it is enough that the one faulty node sends it.
  pub run-another :
      check_input_rbc 2 value ≡ true
      → check_input_rbc 3 value ≡ true
      → (s : System) × Reach g s
        × (outputs readies (s.node 2) ≡ value ∷ [])
        × (outputs readies (s.node 3) ≡ value ∷ [])
  run-another second third =
      let r8 = (after_echoes second third).1 in
      let r9 = later r8 (go_ready 2 (follower (readied 0)) (sends 3 2) refl (ready_goes 2)) in
      let r10 = later r9 (go_ready 3 (follower (readied 0)) (sends 3 3) refl (ready_goes 3)) in
      let r11 = later r10 (
        deliver 2 (msg value 3 4 2) (follower (readied 1)) [] refl (omega arith) (omega arith) refl
          refl forged (first_ready 4 2)) in
      let r12 = later r11 (
        deliver 2 (msg value 3 2 2) (follower (readied 2)) [] refl (omega arith) (omega arith) refl
          refl (λ h. (past (Memᴰ.tail (Memᴰ.head refl)))) (second_ready 2 2)) in
      let r13 = later r12 (
        deliver 2 (msg value 3 3 2) (follower (readied 3)) (sends 4 2) refl (omega arith)
          (omega arith) refl refl (λ h. (Memᴰ.tail (Memᴰ.head refl))) (third_ready 3 2)) in
      let r14 = later r13 (
        deliver 3 (msg value 3 4 3) (follower (readied 1)) [] refl (omega arith) (omega arith) refl
          refl forged (first_ready 4 3)) in
      let r15 = later r14 (
        deliver 3 (msg value 3 2 3) (follower (readied 2)) [] refl (omega arith) (omega arith) refl
          refl (λ h. (past (past (Memᴰ.tail (Memᴰ.tail (Memᴰ.head refl)))))) (second_ready 2 3)) in
      let r16 = later r15 (
        deliver 3 (msg value 3 3 3) (follower (readied 3)) (sends 4 3) refl (omega arith)
          (omega arith) refl refl (λ h. (past (Memᴰ.tail (Memᴰ.tail (Memᴰ.head refl)))))
          (third_ready 3 3)) in
      (_, r16, refl, refl)
