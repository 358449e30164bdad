-- ===== src/Fin/RbcWithFinish/Routed.antt =====
-- The router of a follower and its `send_ready`, by what they change of the votes.
use mathlib.Core.Option.{some-injective, none-ne-some}
use dumbo_ms.Prelude.{
  ℕ, ◌+◌, ◌*◌, arith, ◌≡◌, refl, sym, ap, subst, ◌∙◌, inl, inr, Bool, true, false, ◌&&◌, List, [],
  ◌∷◌, Option, none, some, ◌==◌, Bool-cases, if◌then◌else◌,
}
use dumbo_ms.Fin.Messages.{Bytes, RbcMsg}
use dumbo_ms.Fin.RbcWithFinish.{
  Broadcast, Kind, kind, Follower, send, handle_val, handle_echo, handle_ready, handle_finish,
  dispatch, receive, send_ready,
}
use dumbo_ms.Fin.RbcWithFinish.Network.{follower}
use dumbo_ms.Fin.RbcWithFinish.Votes.{
  Vote, readies, finishes, vote_type, claim, All, Ended, Change, unchanged, send-says,
}
use dumbo_ms.Fin.RbcWithFinish.Follows.{
  one_vote, handle_ready-Change, handle_finish-Change, handle_echo-Change, handle_ready-Ended,
  handle_finish-Ended,
}

module _ (c : Broadcast) (m : RbcMsg) (s : Follower) where
  abbrev q : ℕ
  q = c.threshold * 2 + 1

  kind_ready : kind m.msg_type ≡ Kind.ready → m.msg_type ≡ 3
  unfolding kind
  kind_ready e = ground arith

  kind_finish : kind m.msg_type ≡ Kind.finish → m.msg_type ≡ 4
  unfolding kind
  kind_finish e = ground arith

  -- An echo goes out as type 2.
  handle_val-says :
      (check : Bytes → Bool) (w : Vote)
      → All
          (λ x. (x.id ≡ c.nid) × (x.msg_type ≡ vote_type w → claim w (follower s) ≡ some x.root))
          (handle_val c check m)
  unfolding handle_val
  handle_val-says check w = elim (Bool-cases ((m.round == c.round) && check m.root)) [
    | inl e ↦ rw e (send-says c 2 m.root w (follower s) (λ l. absurd (no_echo w l)))
    | inr e ↦ rw e tt
  ]
    where
      no_echo : (w : Vote) → 2 ≡ vote_type w → ⊥
      no_echo readies l = omega arith
      no_echo finishes l = omega arith

  abbrev To : Vote → Follower × List RbcMsg → Type 0
  To w p =
      Change c.nid q w (one_vote w m) (follower s) (follower p.0) p.1
      × (Ended (follower s) → Ended (follower p.0))

  as_it_was : (w : Vote) → To w (s, [])
  as_it_was w = (unchanged c.nid q w (one_vote w m) (follower s) [] tt, λ d. d)

  unless_returned :
      (w : Vote) (b : Bool) (p : Follower × List RbcMsg)
      → (b ≡ false → To w p)
      → To w (if b then (s, []) else p)
  unless_returned w true p h = as_it_was w
  unless_returned w false p h = h refl

  unless_gone : (w : Vote) (b : Bool) (t : Follower) → To w (t, []) → To w (if b then s else t, [])
  unless_gone w true t h = as_it_was w
  unless_gone w false t h = h

  dispatch-Change :
      (check : Bytes → Bool) (k : Kind) (w : Vote) (p : Follower × List RbcMsg)
      → kind m.msg_type ≡ k
      → Ended (follower s)
      → dispatch c check k m s ≡ some p
      → To w p
  unfolding dispatch
  dispatch-Change check Kind.val w p k d e =
      subst (To w) (some-injective (s, handle_val c check m) p e) (
        unchanged c.nid q w (one_vote w m) (follower s) (handle_val c check m)
            (handle_val-says check w),
        λ d. d,
      )
  dispatch-Change check Kind.echo w p k d e = subst (To w) (some-injective _ p e) (
      unless_gone w s.echo.returned (handle_echo c m s)
        (handle_echo-Change c m s w, unfold handle_echo in λ d. d))
  dispatch-Change check Kind.ready w p k d e = subst (To w) (some-injective _ p e) (
      unless_returned w s.ready.returned (handle_ready c m s)
        (λ r. (handle_ready-Change c m s w (kind_ready k) (d r), handle_ready-Ended c m s)))
  dispatch-Change check Kind.finish w p k d e = subst (To w) (some-injective _ p e) (
      unless_gone w s.finish.returned (handle_finish c m s)
        (handle_finish-Change c m s w (kind_finish k), handle_finish-Ended c m s))
  dispatch-Change check Kind.other w p k d e = absurd (ground arith)

  pub receive-Change :
      (check : Bytes → Bool) (w : Vote) (p : Follower × List RbcMsg)
      → Ended (follower s)
      → receive c check m s ≡ some p
      → To w p
  unfolding receive
  receive-Change check w p d e = elim (Bool-cases (m.round == c.round)) [
    | inl r ↦
        dispatch-Change check (kind m.msg_type) w p refl d
          (sym (ap (λ b. if b then dispatch c check (kind m.msg_type) m s else none) r) ∙ e)
    | inr r ↦ absurd (
        none-ne-some p
          (sym (ap (λ b. if b then dispatch c check (kind m.msg_type) m s else none) r) ∙ e))
  ]

module _ (c : Broadcast) (s : Follower) where
  abbrev no_vote : Bytes → ℕ
  no_vote v = 0

  waiting :
      (w : Vote) (value : Bytes) (rest : List Bytes)
      → s.ready_sent ≡ none
      → Change c.nid
          (c.threshold * 2 + 1)
          w
          no_vote
          (follower s)
          (follower (record s { readysignal = rest; ready_sent = some value }))
          (send c 3 value)
  waiting readies value rest e = record {
    grows = λ v h. absurd (none-ne-some v (sym e ∙ h));
    says =
        send-says c 3 value readies
          (follower (record s { readysignal = rest; ready_sent = some value })) (λ l. refl);
    tallies = λ v. omega arith;
    puts = λ v h. inl h;
  }
  waiting finishes value rest e = record {
    grows = λ v h. h;
    says =
        send-says c 3 value finishes
          (follower (record s { readysignal = rest; ready_sent = some value }))
          (λ l. absurd (omega arith));
    tallies = λ v. omega arith;
    puts = λ v h. inl h;
  }

  send_ready_after :
      (w : Vote) (o : Option Bytes) (signals : List Bytes) (p : Follower × List RbcMsg)
      → s.ready_sent ≡ o
      → (elim o [
        | some value ↦ none
        | none ↦ elim signals [
          | [] ↦ none
          | value ∷ rest ↦
              some (record s { readysignal = rest; ready_sent = some value }, send c 3 value)
        ]
      ])
        ≡ some p
      → Change c.nid (c.threshold * 2 + 1) w no_vote (follower s) (follower p.0) p.1
        × (Ended (follower s) → Ended (follower p.0))
  send_ready_after w (some value) signals p a e = absurd (none-ne-some p e)
  send_ready_after w none [] p a e = absurd (none-ne-some p e)
  send_ready_after w none (value ∷ rest) p a e =
      subst
        (λ p.
          Change c.nid (c.threshold * 2 + 1) w no_vote (follower s) (follower p.0) p.1
          × (Ended (follower s) → Ended (follower p.0)))
        (some-injective _ p e) (waiting w value rest a, λ d. d)

  pub send_ready-Change :
      (w : Vote) (p : Follower × List RbcMsg)
      → send_ready c s ≡ some p
      → Change c.nid (c.threshold * 2 + 1) w no_vote (follower s) (follower p.0) p.1
        × (Ended (follower s) → Ended (follower p.0))
  unfolding send_ready
  send_ready-Change w p e = send_ready_after w s.ready_sent s.readysignal p refl e
