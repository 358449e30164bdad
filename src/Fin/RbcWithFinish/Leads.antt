-- ===== src/Fin/RbcWithFinish/Leads.antt =====
-- What the handlers of the leader change of its votes.
use mathlib.Core.List.Memᴰ
use mathlib.Core.Option.{some-injective, none-ne-some}
use dumbo_ms.Prelude.{
  ℕ, ◌+◌, ◌-◌, ◌*◌, arith, ◌≡◌, refl, sym, ap, subst, ◌∙◌, inl, inr, Bool, true, false, ◌&&◌, not,
  List, [], Option, none, some, ◌==◌, Bool-cases, if◌then◌else◌,
}
use dumbo_ms.Fin.Messages.{Bytes, bytes_equal, RbcMsg}
use dumbo_ms.Fin.RbcWithFinish.{Broadcast, Kind, kind, send}
use dumbo_ms.Fin.RbcWithFinish.Leader.{
  Leader, handle_echo, handle_ready, handle_finish, dispatch, receive, send_ready,
}
use dumbo_ms.Fin.RbcWithFinish.Network.{leader}
use dumbo_ms.Fin.RbcWithFinish.Votes.{
  Vote, readies, finishes, vote_type, claim, All, Change, unchanged, send-says,
}

still_claimed :
    (b b' : Bool) (x v : Bytes)
    → (b ≡ true → b' ≡ true)
    → (if b then some x else none) ≡ some v
    → (if b' then some x else none) ≡ some v
still_claimed false b' x v h e = absurd (none-ne-some v e)
still_claimed true b' x v h e = rw (h refl) e

module _ (c : Broadcast) (more : Bytes → ℕ) where
  abbrev q : ℕ
  q = c.threshold * 2 + 1

  -- Neither flag is taken back.
  abbrev Keeps : Leader → Leader → Type 0
  Keeps s s' =
      (s'.input ≡ s.input)
      × (s.ready_sent ≡ true → s'.ready_sent ≡ true)
      × (s.ready_returned ≡ true → s'.ready_returned ≡ true)

  leader-grows :
      (w : Vote) (s s' : Leader)
      → Keeps s s'
      → (v : Bytes) → claim w (leader s) ≡ some v
      → claim w (leader s') ≡ some v
  leader-grows readies s s' k v e =
      subst (λ x. (if s'.ready_sent then some x else none) ≡ some v) (sym k.0)
        (still_claimed s.ready_sent s'.ready_sent s.input v k.1 e)
  leader-grows finishes s s' k v e =
      subst (λ x. (if s'.ready_returned then some x else none) ≡ some v) (sym k.0)
        (still_claimed s.ready_returned s'.ready_returned s.input v k.2 e)

  leader-Change :
      (w : Vote) (s s' : Leader) (out : List RbcMsg)
      → Keeps s s'
      → All
          (λ m. (m.id ≡ c.nid) × (m.msg_type ≡ vote_type w → claim w (leader s') ≡ some m.root))
          out
      → Change c.nid q w more (leader s) (leader s') out
  leader-Change readies s s' out k h = record {
    grows = leader-grows readies s s' k;
    says = h;
    tallies = λ v. omega arith;
    puts = λ v d. absurd (Memᴰ.not-nil d);
  }
  leader-Change finishes s s' out k h = record {
    grows = leader-grows finishes s s' k;
    says = h;
    tallies = λ v. omega arith;
    puts = λ v d. absurd (Memᴰ.not-nil d);
  }

  abbrev To : Vote → Leader → Leader × List RbcMsg → Type 0
  To w s p = Change c.nid q w more (leader s) (leader p.0) p.1

  as_it_was : (w : Vote) (s : Leader) → To w s (s, [])
  as_it_was w s = unchanged c.nid q w more (leader s) [] tt

  -- The leader puts its input out and sends the finish message.
  abbrev ready_over : Leader → ℕ → Leader
  ready_over s signals = record s {
    readycount = s.readycount + 1;
    ready_returned = true;
    readysignal = signals;
    output1signal = s.output1signal + 1;
  }

  over : (w : Vote) (s : Leader) (signals : ℕ) → To w s (ready_over s signals, send c 4 s.input)
  over readies s signals =
      leader-Change readies s (ready_over s signals) (send c 4 s.input) (refl, λ b. b, λ b. refl)
        (send-says c 4 s.input readies (leader (ready_over s signals)) (λ l. absurd (omega arith)))
  over finishes s signals =
      leader-Change finishes s (ready_over s signals) (send c 4 s.input) (refl, λ b. b, λ b. refl)
        (send-says c 4 s.input finishes (leader (ready_over s signals)) (λ l. refl))

  handle_ready-Change : (w : Vote) (m : RbcMsg) (s : Leader) → To w s (handle_ready c m s)
  unfolding handle_ready
  handle_ready-Change w m s =
      elim (Bool-cases ((m.round == c.round) && bytes_equal m.root s.input)) [
        | inr r ↦ rw r (as_it_was w s)
        | inl r ↦ elim (Bool-cases (s.readycount + 1 == c.threshold * 2)) [
          | inl k ↦ rw (r, k) (over w s _)
          | inr k ↦ rw (r, k) (leader-Change w s _ [] (refl, λ b. b, λ b. b) tt)
        ]
      ]

  handle_finish-Change : (w : Vote) (m : RbcMsg) (s : Leader) → To w s (handle_finish c m s, [])
  unfolding handle_finish
  handle_finish-Change w m s =
      elim (Bool-cases ((m.round == c.round) && bytes_equal m.root s.input)) [
        | inr r ↦ rw r (as_it_was w s)
        | inl r ↦ elim (Bool-cases (s.finishcount + 1 == c.threshold * 2)) [
          | inl k ↦ rw (r, k) (leader-Change w s _ [] (refl, λ b. b, λ b. b) tt)
          | inr k ↦ rw (r, k) (leader-Change w s _ [] (refl, λ b. b, λ b. b) tt)
        ]
      ]

  handle_echo-Change : (w : Vote) (m : RbcMsg) (s : Leader) → To w s (handle_echo c m s, [])
  unfolding handle_echo
  handle_echo-Change w m s = leader-Change w s _ [] (refl, λ b. b, λ b. b) tt

  unless_returned :
      (w : Vote) (s : Leader) (b : Bool) (p : Leader × List RbcMsg)
      → To w s p
      → To w s (if b then (s, []) else p)
  unless_returned w s true p h = as_it_was w s
  unless_returned w s false p h = h

  unless_gone :
      (w : Vote) (s : Leader) (b : Bool) (t : Leader)
      → To w s (t, [])
      → To w s (if b then s else t, [])
  unless_gone w s true t h = as_it_was w s
  unless_gone w s false t h = h

  dispatch-Change :
      (w : Vote) (k : Kind) (m : RbcMsg) (s : Leader) (p : Leader × List RbcMsg)
      → dispatch c k m s ≡ some p
      → To w s p
  unfolding dispatch
  dispatch-Change w Kind.val m s p e = absurd (none-ne-some p e)
  dispatch-Change w Kind.echo m s p e =
      subst (To w s) (some-injective _ p e) (handle_echo-Change w m s)
  dispatch-Change w Kind.ready m s p e =
      subst (To w s) (some-injective _ p e)
        (unless_returned w s s.ready_returned (handle_ready c m s) (handle_ready-Change w m s))
  dispatch-Change w Kind.finish m s p e =
      subst (To w s) (some-injective _ p e)
        (unless_gone w s s.finish_returned (handle_finish c m s) (handle_finish-Change w m s))
  dispatch-Change w Kind.other m s p e = absurd (none-ne-some p e)

  pub receive-Change :
      (w : Vote) (m : RbcMsg) (s : Leader) (p : Leader × List RbcMsg)
      → receive c m s ≡ some p
      → To w s p
  unfolding receive
  receive-Change w m s p e = elim (Bool-cases (m.round == c.round)) [
    | inl r ↦
        dispatch-Change w (kind m.msg_type) m s p
          (sym (ap (λ b. if b then dispatch c (kind m.msg_type) m s else none) r) ∙ e)
    | inr r ↦ absurd (
        none-ne-some p (sym (ap (λ b. if b then dispatch c (kind m.msg_type) m s else none) r) ∙ e))
  ]

  sends :
      (w : Vote) (s : Leader) (signals : ℕ)
      → To w s (record s { readysignal = signals; ready_sent = true }, send c 3 s.input)
  sends readies s signals =
      leader-Change readies s _ (send c 3 s.input) (refl, λ b. refl, λ b. b)
        (send-says c 3 s.input readies
          (leader (record s { readysignal = signals; ready_sent = true })) (λ l. refl))
  sends finishes s signals =
      leader-Change finishes s _ (send c 3 s.input) (refl, λ b. refl, λ b. b)
        (send-says c 3 s.input finishes
          (leader (record s { readysignal = signals; ready_sent = true }))
          (λ l. absurd (omega arith)))

  pub send_ready-Change :
      (w : Vote) (s : Leader) (p : Leader × List RbcMsg) → send_ready c s ≡ some p → To w s p
  unfolding send_ready
  send_ready-Change w s p e = elim (Bool-cases (not s.ready_sent && not (s.readysignal == 0))) [
    | inl r ↦ subst (To w s) (some-injective _ p (sym (ap choose r) ∙ e)) (sends w s _)
    | inr r ↦ absurd (none-ne-some p (sym (ap choose r) ∙ e))
  ]
    where
      choose : Bool → Option (Leader × List RbcMsg)
      choose b =
          if b
          then some
              (record s { readysignal = s.readysignal - 1; ready_sent = true }, send c 3 s.input)
          else none
