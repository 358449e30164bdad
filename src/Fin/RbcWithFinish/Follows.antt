-- ===== src/Fin/RbcWithFinish/Follows.antt =====
-- What the handlers of a follower change of its votes.
use mathlib.Core.List.{Memᴰ}
use mathlib.Core.List.Memᴰ
use dumbo_ms.Prelude.{
  ℕ, ◌+◌, ◌*◌, ◌≤◌, arith, ◌≡◌, sym, ap, subst, ◌⊎◌, inl, inr, true, false, List, [], ◌∷◌, ◌++◌,
  some, ◌==◌, ==_iff, Bool-cases, if◌then◌else◌,
}
use dumbo_ms.Fin.Messages.{Bytes, bytes_equal, RbcMsg, Tally, value_of, count_up}
use dumbo_ms.Fin.RbcWithFinish.{
  Broadcast, counted, Follower, send, handle_echo, handle_ready, handle_finish,
}
use dumbo_ms.Fin.RbcWithFinish.Network.{follower}
use dumbo_ms.Fin.RbcWithFinish.Votes.{
  Vote, readies, finishes, vote_type, head, votes, Ended, Change, unchanged, send-says, counted_le,
}

-- A put behind a list.
Memᴰ-snoc : (v y : Bytes) (xs : List Bytes) → Memᴰ v (xs ++ (y ∷ [])) → Memᴰ v xs ⊎ (v ≡ y)
Memᴰ-snoc v y [] (Memᴰ.head e) = inr e
Memᴰ-snoc v y [] (Memᴰ.tail d) = absurd (Memᴰ.not-nil d)
Memᴰ-snoc v y (x ∷ xs) (Memᴰ.head e) = inl (Memᴰ.head e)
Memᴰ-snoc v y (x ∷ xs) (Memᴰ.tail d) = elim (Memᴰ-snoc v y xs d) [
  | inl k ↦ inl (Memᴰ.tail k)
  | inr e ↦ inr e
]

-- The vote of one message.
abbrev pub one_vote : Vote → RbcMsg → Bytes → ℕ
one_vote w m v = votes w v (m ∷ [])

one_vote_le :
    (w : Vote) (m : RbcMsg) (v : Bytes)
    → m.msg_type ≡ vote_type w
    → (if bytes_equal m.root v then 1 else 0) ≤ one_vote w m v
one_vote_le w m v e = let k = (==_iff m.msg_type (vote_type w)).1 e in rw k (grind arith)

head-snoc : (v y : Bytes) (xs : List Bytes) → head xs ≡ some v → head (xs ++ (y ∷ [])) ≡ some v
head-snoc v y [] e = absurd (ground arith)
head-snoc v y (x ∷ xs) e = e

module _ (c : Broadcast) (m : RbcMsg) (s : Follower) where
  abbrev q : ℕ
  q = c.threshold * 2 + 1

  -- The states after a ready message of the round, with the quorum and without.
  abbrev ready_quorum : List Bytes → Follower
  ready_quorum signals = record s {
    ready = record (counted s.ready m.root) { returned = true };
    readysignal = signals;
    output1signal = s.output1signal ++ (m.root ∷ []);
  }

  abbrev ready_counted : List Bytes → Follower
  ready_counted signals = record s { ready = counted s.ready m.root; readysignal = signals }

  reached :
      (t : Tally) (v : Bytes)
      → (value_of (count_up t m.root m.root) == q) ≡ true
      → v ≡ m.root
      → q ≤ value_of (count_up t m.root v)
  reached t v k e =
      subst (λ u. q ≤ value_of (count_up t m.root u)) (sym e)
        (let same = (==_iff (value_of (count_up t m.root m.root)) q).0 k in omega arith)

  ready_quorum-readies :
      (signals : List Bytes)
      → m.msg_type ≡ 3
      → (value_of (count_up s.ready.counts m.root m.root) == q) ≡ true
      → Change c.nid q readies
          (one_vote readies m)
          (follower s)
          (follower (ready_quorum signals))
          (send c 4 m.root)
  ready_quorum-readies signals e k = record {
    grows = λ v h. h;
    says =
        send-says c 4 m.root readies (follower (ready_quorum signals)) (λ l. absurd (omega arith));
    tallies = λ v.
        let a = counted_le s.ready.counts m.root v in
        let b = one_vote_le readies m v e in omega arith;
    puts = λ v h. elim (Memᴰ-snoc v m.root s.output1signal h) [
      | inl old ↦ inl old
      | inr same ↦ inr (reached s.ready.counts v k same)
    ];
  }

  ready_quorum-finishes :
      (signals : List Bytes)
      → s.output1signal ≡ []
      → Change c.nid q finishes
          (one_vote finishes m)
          (follower s)
          (follower (ready_quorum signals))
          (send c 4 m.root)
  ready_quorum-finishes signals e = record {
    grows = λ v h. head-snoc v m.root s.output1signal h;
    says =
        send-says c 4 m.root finishes (follower (ready_quorum signals))
          (λ l. ap (λ xs. head (xs ++ (m.root ∷ []))) e);
    tallies = λ v. omega arith;
    puts = λ v h. inl h;
  }

  ready_counted-Change :
      (w : Vote) (signals : List Bytes)
      → m.msg_type ≡ 3
      → Change c.nid q w (one_vote w m) (follower s) (follower (ready_counted signals)) []
  ready_counted-Change readies signals e = record {
    grows = λ v h. h;
    says = tt;
    tallies = λ v.
        let a = counted_le s.ready.counts m.root v in
        let b = one_vote_le readies m v e in omega arith;
    puts = λ v h. inl h;
  }
  ready_counted-Change finishes signals e = record {
    grows = λ v h. h;
    says = tt;
    tallies = λ v. omega arith;
    puts = λ v h. inl h;
  }

  ready_quorum-Change :
      (w : Vote) (signals : List Bytes)
      → m.msg_type ≡ 3
      → s.output1signal ≡ []
      → (value_of (count_up s.ready.counts m.root m.root) == q) ≡ true
      → Change c.nid q w
          (one_vote w m)
          (follower s)
          (follower (ready_quorum signals))
          (send c 4 m.root)
  ready_quorum-Change readies signals e d k = ready_quorum-readies signals e k
  ready_quorum-Change finishes signals e d k = ready_quorum-finishes signals d

  pub handle_ready-Change :
      (w : Vote)
      → m.msg_type ≡ 3
      → s.output1signal ≡ []
      → Change c.nid q w
          (one_vote w m)
          (follower s)
          (follower (handle_ready c m s).0)
          (handle_ready c m s).1
  unfolding handle_ready
  handle_ready-Change w e d = elim (Bool-cases (m.round == c.round)) [
    | inr r ↦ rw r (unchanged c.nid q w (one_vote w m) (follower s) [] tt)
    | inl r ↦ elim (Bool-cases (value_of (count_up s.ready.counts m.root m.root) == q)) [
      | inl k ↦ rw (r, k) (ready_quorum-Change w _ e d k)
      | inr k ↦ rw (r, k) (ready_counted-Change w _ e)
    ]
  ]

  -- The states after a finish message of the round.
  abbrev finish_quorum : Follower
  finish_quorum = record s {
    finish = record (counted s.finish m.root) { returned = true };
    output2signal = s.output2signal ++ (m.root ∷ []);
  }

  finish_quorum-Change :
      (w : Vote)
      → m.msg_type ≡ 4
      → (value_of (count_up s.finish.counts m.root m.root) == q) ≡ true
      → Change c.nid q w (one_vote w m) (follower s) (follower finish_quorum) []
  finish_quorum-Change readies e k = record {
    grows = λ v h. h;
    says = tt;
    tallies = λ v. omega arith;
    puts = λ v h. inl h;
  }
  finish_quorum-Change finishes e k = record {
    grows = λ v h. h;
    says = tt;
    tallies = λ v.
        let a = counted_le s.finish.counts m.root v in
        let b = one_vote_le finishes m v e in omega arith;
    puts = λ v h. elim (Memᴰ-snoc v m.root s.output2signal h) [
      | inl old ↦ inl old
      | inr same ↦ inr (reached s.finish.counts v k same)
    ];
  }

  finish_counted-Change :
      (w : Vote)
      → m.msg_type ≡ 4
      → Change c.nid q w
          (one_vote w m)
          (follower s)
          (follower (record s { finish = counted s.finish m.root }))
          []
  finish_counted-Change readies e = record {
    grows = λ v h. h;
    says = tt;
    tallies = λ v. omega arith;
    puts = λ v h. inl h;
  }
  finish_counted-Change finishes e = record {
    grows = λ v h. h;
    says = tt;
    tallies = λ v.
        let a = counted_le s.finish.counts m.root v in
        let b = one_vote_le finishes m v e in omega arith;
    puts = λ v h. inl h;
  }

  pub handle_finish-Change :
      (w : Vote)
      → m.msg_type ≡ 4
      → Change c.nid q w (one_vote w m) (follower s) (follower (handle_finish c m s)) []
  unfolding handle_finish
  handle_finish-Change w e = elim (Bool-cases (m.round == c.round)) [
    | inr r ↦ rw r (unchanged c.nid q w (one_vote w m) (follower s) [] tt)
    | inl r ↦ elim (Bool-cases (value_of (count_up s.finish.counts m.root m.root) == q)) [
      | inl k ↦ rw (r, k) (finish_quorum-Change w e k)
      | inr k ↦ rw (r, k) (finish_counted-Change w e)
    ]
  ]

  -- Echoes are no votes.
  pub handle_echo-Change :
      (w : Vote) → Change c.nid q w (one_vote w m) (follower s) (follower (handle_echo c m s)) []
  unfolding handle_echo
  handle_echo-Change readies = record {
    grows = λ v h. h;
    says = tt;
    tallies = λ v. omega arith;
    puts = λ v h. inl h;
  }
  handle_echo-Change finishes = record {
    grows = λ v h. h;
    says = tt;
    tallies = λ v. omega arith;
    puts = λ v h. inl h;
  }

  pub handle_ready-Ended : Ended (follower s) → Ended (follower (handle_ready c m s).0)
  unfolding handle_ready
  handle_ready-Ended d = elim (Bool-cases (m.round == c.round)) [
    | inr r ↦ rw r d
    | inl r ↦ elim (Bool-cases (value_of (count_up s.ready.counts m.root m.root) == q)) [
      | inl k ↦ rw (r, k) (λ b. absurd (true_not_false b))
      | inr k ↦ rw (r, k) d
    ]
  ]
    where
      true_not_false : true ≡ false → ⊥
      true_not_false b = cc

  pub handle_finish-Ended : Ended (follower s) → Ended (follower (handle_finish c m s))
  unfolding handle_finish
  handle_finish-Ended d = elim (Bool-cases (m.round == c.round)) [
    | inr r ↦ rw r d
    | inl r ↦ elim (Bool-cases (value_of (count_up s.finish.counts m.root m.root) == q)) [
      | inl k ↦ rw (r, k) d
      | inr k ↦ rw (r, k) d
    ]
  ]
