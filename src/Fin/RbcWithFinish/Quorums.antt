-- ===== src/Fin/RbcWithFinish/Quorums.antt =====
-- A follower that hears a quorum of ready messages puts a value out.
use dumbo_ms.Prelude.{
  ℕ, ◌+◌, ◌*◌, ◌≤◌, ◌<◌, arith, ◌≡◌, refl, sym, ap, subst, inl, inr, true, false, ◌&&◌, List, [],
  ◌∷◌, ◌++◌, ◌==◌, Bool-cases, if◌then◌else◌,
}
use dumbo_ms.Fin.Messages.{
  Bytes, bytes_equal, bytes_equal-true, RbcMsg, value_of, count_up, value_of-count_up,
}
use dumbo_ms.Fin.RbcWithFinish.{Broadcast, Follower, new_follower, handle_ready, ready_loop}

module _ (c : Broadcast) (v : Bytes) where
  abbrev q : ℕ
  q = c.threshold * 2 + 1

  -- The messages of the round for the value.
  abbrev pub votes_in : List RbcMsg → ℕ
  votes_in [] = 0
  votes_in (m ∷ ms) =
      let rest = votes_in ms in
      if (m.round == c.round) && bytes_equal m.root v then rest + 1 else rest

  ready_loop-returned :
      (ms : List RbcMsg) (s : Follower) → s.ready.returned ≡ true → ready_loop c ms s ≡ s
  unfolding ready_loop
  ready_loop-returned [] s h = refl
  ready_loop-returned (m ∷ ms) s h =
      ap (λ b. if b then s else ready_loop c ms (handle_ready c m s).0) h

  abbrev PutsOut : Follower → Type 0
  PutsOut s = (u : Bytes) × (s.output1signal ≡ u ∷ []) × (s.ready.returned ≡ true)

  ready_loop-next :
      (m : RbcMsg) (ms : List RbcMsg) (s : Follower)
      → s.ready.returned ≡ false
      → ready_loop c (m ∷ ms) s ≡ ready_loop c ms (handle_ready c m s).0
  unfolding ready_loop
  ready_loop-next m ms s h = ap (λ b. if b then s else ready_loop c ms (handle_ready c m s).0) h

  -- Counting another message that is no quorum keeps the value's count below the quorum.
  below :
      (s : Follower) (m : RbcMsg)
      → value_of (s.ready.counts v) < q
      → (value_of (count_up s.ready.counts m.root m.root) == q) ≡ false
      → value_of (count_up s.ready.counts m.root v) < q
  below s m h k = elim (Bool-cases (bytes_equal m.root v)) [
    | inl e ↦
        let same = bytes_equal-true m.root v e in
        let count = value_of-count_up s.ready.counts m.root v in
        let other =
          subst (λ x. (value_of (count_up s.ready.counts m.root x) == q) ≡ false) same k in
        grind arith
    | inr e ↦ let count = value_of-count_up s.ready.counts m.root v in grind arith
  ]

  ready_loop-PutsOut :
      (ms : List RbcMsg) (s : Follower)
      → s.ready.returned ≡ false
      → s.output1signal ≡ []
      → value_of (s.ready.counts v) < q
      → q ≤ value_of (s.ready.counts v) + votes_in ms
      → PutsOut (ready_loop c ms s)
  unfolding handle_ready
  ready_loop-PutsOut [] s h n b l = absurd (omega arith)
  ready_loop-PutsOut (m ∷ ms) s h n b l =
      subst PutsOut (sym (ready_loop-next m ms s h)) (elim (Bool-cases (m.round == c.round)) [
        | inr r ↦
            ready_loop-PutsOut ms (handle_ready c m s).0 (rw r h) (rw r n) (rw r b)
              (rw r (let same : votes_in (m ∷ ms) ≡ votes_in ms = rw r refl in omega arith))
        | inl r ↦ elim (Bool-cases (value_of (count_up s.ready.counts m.root m.root) == q)) [
          | inl k ↦
              subst PutsOut (sym (ready_loop-returned ms (handle_ready c m s).0 (rw (r, k) refl)))
                (m.root, rw (r, k) (ap (λ xs. xs ++ (m.root ∷ [])) n), rw (r, k) refl)
          | inr k ↦
              ready_loop-PutsOut ms (handle_ready c m s).0 (rw (r, k) h) (rw (r, k) n)
                (rw (r, k) (below s m b k))
                (rw (r, k) (let count = value_of-count_up s.ready.counts m.root v in grind arith))
        ]
      ])

  -- When among the messages of a follower's ready channel 2 threshold + 1 are of the round and for
  -- one value, its loop ends, having put out one value.
  pub ready_loop-quorum :
      (ms : List RbcMsg)
      → c.threshold * 2 + 1 ≤ votes_in ms
      → (u : Bytes) × ((ready_loop c ms new_follower).output1signal ≡ u ∷ [])
        × ((ready_loop c ms new_follower).ready.returned ≡ true)
  ready_loop-quorum ms h = ready_loop-PutsOut ms new_follower refl refl (omega arith) (omega arith)
