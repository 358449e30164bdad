-- ===== src/Fin/RbcWithFinish/Repeats.antt =====
-- What the handlers do where their counts do not mean what they are meant to: messages repeated by
-- one sender, and fewer than four nodes.
use dumbo_ms.Prelude.{
  ℕ, zero, suc, ◌+◌, ◌*◌, ◌≤◌, arith, ◌≡◌, ◌≢◌, refl, subst, ap, ◌∙◌, inl, inr, Bool, true, false,
  ◌&&◌, List, [], ◌∷◌, ◌++◌, replicate, Option, none, some, ◌==◌, ==_iff, Bool-cases, if◌then◌else◌,
}
use dumbo_ms.Fin.Messages.{
  Bytes, bytes_equal, bytes_equal_refl, RbcMsg, value_of, count_up, value_of-count_up,
}
use dumbo_ms.Fin.RbcWithFinish.{
  Broadcast, new_broadcast, Kind, kind, Follower, new_follower, handle_ready, ready_loop,
}
use dumbo_ms.Fin.RbcWithFinish.Leader.{
  Leader, new_leader, receive, receive_all, dispatch, handle_echo, handle_finish,
}
use dumbo_ms.Fin.RbcWithFinish.Leader as Leading

differs : (a b : ℕ) → a ≢ b → (a == b) ≡ false
differs a b h = ground arith

module _ (c : Broadcast) (m : RbcMsg) (same : m.round ≡ c.round) where
  same_round : (m.round == c.round) ≡ true
  same_round = (==_iff m.round c.round).1 same

  counted_once :
      (s : Follower)
      → value_of (count_up s.ready.counts m.root m.root) ≡ suc (value_of (s.ready.counts m.root))
  counted_once s =
      value_of-count_up s.ready.counts m.root m.root ∙ rw (bytes_equal_refl m.root) refl

  ready_loop-rest :
      (k : ℕ) (s : Follower)
      → s.ready.returned ≡ false
      → s.output1signal ≡ []
      → value_of (s.ready.counts m.root) + suc k ≡ c.threshold * 2 + 1
      → (ready_loop c (replicate (suc k) m) s).output1signal ≡ m.root ∷ []
  unfolding ready_loop handle_ready
  ready_loop-rest zero s open_still none_out left =
      let once = counted_once s in
      let full =
        (==_iff (value_of (count_up s.ready.counts m.root m.root)) (c.threshold * 2 + 1)).1
          (omega arith) in
      rw (open_still, same_round, full) (ap (λ xs. xs ++ (m.root ∷ [])) none_out)
  ready_loop-rest (suc k) s open_still none_out left =
      let once = counted_once s in
      let more =
        differs (value_of (count_up s.ready.counts m.root m.root)) (c.threshold * 2 + 1)
          (λ e. omega arith) in
      ap
        (λ b.
          (if b
            then s
            else ready_loop c (replicate (suc k) m) (handle_ready c m s).0).output1signal)
        open_still
      ∙ ready_loop-rest k (handle_ready c m s).0 (rw (same_round, more) open_still)
          (rw (same_round, more) none_out) (rw (same_round, more) (omega arith))

  -- One ready message taken in 2 threshold + 1 times is a quorum: the handler does not look at the
  -- senders.
  pub ready_loop-repeated :
      (ready_loop c (replicate (c.threshold * 2 + 1) m) new_follower).output1signal ≡ m.root ∷ []
  ready_loop-repeated =
      let next : suc (c.threshold * 2) ≡ c.threshold * 2 + 1 = omega arith in
      subst (λ k. (ready_loop c (replicate k m) new_follower).output1signal ≡ m.root ∷ []) next
        (ready_loop-rest (c.threshold * 2) new_follower refl refl (omega arith))

abbrev IsSilent : Leader → Type 0
IsSilent s = (s.output1signal ≡ 0) × (s.output2signal ≡ 0)

module _ (c : Broadcast) (none_faulty : c.threshold ≡ 0) where
  no_quorum : (n : ℕ) → (n + 1 == c.threshold * 2) ≡ false
  no_quorum n = differs (n + 1) (c.threshold * 2) (λ e. omega arith)

  handle_ready-IsSilent :
      (m : RbcMsg) (s : Leader) → IsSilent s → IsSilent (Leading.handle_ready c m s).0
  unfolding Leading.handle_ready
  handle_ready-IsSilent m s h =
      elim (Bool-cases ((m.round == c.round) && bytes_equal m.root s.input)) [
        | inl e ↦ rw (e, no_quorum s.readycount) h
        | inr e ↦ rw e h
      ]

  handle_finish-IsSilent : (m : RbcMsg) (s : Leader) → IsSilent s → IsSilent (handle_finish c m s)
  unfolding handle_finish
  handle_finish-IsSilent m s h =
      elim (Bool-cases ((m.round == c.round) && bytes_equal m.root s.input)) [
        | inl e ↦ rw (e, no_quorum s.finishcount) h
        | inr e ↦ rw e h
      ]

  abbrev kept : Leader → Option (Leader × List RbcMsg) → Leader
  kept s none = s
  kept s (some p) = p.0

  unless : (s t : Leader) (b : Bool) → IsSilent s → IsSilent t → IsSilent (if b then s else t)
  unless s t true h k = h
  unless s t false h k = k

  unless_pair :
      (s : Leader) (p : Leader × List RbcMsg) (b : Bool)
      → IsSilent s
      → IsSilent p.0
      → IsSilent (if b then (s, []) else p).0
  unless_pair s p true h k = h
  unless_pair s p false h k = k

  dispatch-IsSilent :
      (k : Kind) (m : RbcMsg) (s : Leader) → IsSilent s → IsSilent (kept s (dispatch c k m s))
  unfolding dispatch
  dispatch-IsSilent Kind.val m s h = h
  dispatch-IsSilent Kind.echo m s h = unfold handle_echo in h
  dispatch-IsSilent Kind.ready m s h =
      unless_pair s (Leading.handle_ready c m s) s.ready_returned h (handle_ready-IsSilent m s h)
  dispatch-IsSilent Kind.finish m s h =
      unless s (handle_finish c m s) s.finish_returned h (handle_finish-IsSilent m s h)
  dispatch-IsSilent Kind.other m s h = h

  receive-IsSilent : (m : RbcMsg) (s : Leader) → IsSilent s → IsSilent (kept s (receive c m s))
  unfolding receive
  receive-IsSilent m s h = elim (Bool-cases (m.round == c.round)) [
    | inl e ↦ rw e (dispatch-IsSilent (kind m.msg_type) m s h)
    | inr e ↦ rw e h
  ]

  receive_all-IsSilent :
      (ms : List RbcMsg) (s : Leader) → IsSilent s → IsSilent (receive_all c ms s)
  unfolding receive_all
  receive_all-IsSilent [] s h = h
  receive_all-IsSilent (m ∷ ms) s h =
      receive_all-IsSilent ms (kept s (receive c m s)) (receive-IsSilent m s h)

-- Below four nodes the leader puts nothing out on either channel, whatever it receives.
pub receive_all-silent :
    (nid lid round num : ℕ) (input : Bytes) (ms : List RbcMsg)
    → num ≤ 3
    → ((receive_all (new_broadcast nid lid round num) ms (new_leader input)).output1signal ≡ 0)
      × ((receive_all (new_broadcast nid lid round num) ms (new_leader input)).output2signal ≡ 0)
receive_all-silent nid lid round num input ms h =
    receive_all-IsSilent (new_broadcast nid lid round num) (unfold new_broadcast in omega arith) ms
      (new_leader input) (refl, refl)
