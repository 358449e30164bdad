-- ===== src/Fin/RbcWithFinish/Agreement.antt =====
-- Agreement of the followers of a broadcast.
use mathlib.Core.List.{Memᴰ}
use mathlib.Core.List.Memᴰ
use mathlib.Core.Option.{some-injective}
use dumbo_ms.Prelude.{
  ℕ, suc, ◌+◌, ◌*◌, ◌≤◌, arith, ◌≡◌, ◌≢◌, refl, sym, ◌∙◌, inl, inr, Bool, true, false, List, [],
  ◌∷◌, ◌==◌, Bool-cases, if◌then◌else◌,
}
use dumbo_ms.Fin.Quorum.{total, quorums_meet}
use dumbo_ms.Fin.Messages.{Bytes, RbcMsg, value_of}
use dumbo_ms.Fin.RbcWithFinish.{send, new_follower}
use dumbo_ms.Fin.RbcWithFinish.Leader.{but_own, new_leader, send_val, send_echo}
use dumbo_ms.Fin.RbcWithFinish.Network.{
  Node, follower, leader, Setting, System, broadcast, first_node, first_sent, init, Step, deliver,
  go_ready, Reach, start, later,
}
use dumbo_ms.Fin.RbcWithFinish.Votes.{
  Vote, readies, finishes, vote_type, tally, outputs, All, votes_of, Ended, send-All,
}
use dumbo_ms.Fin.RbcWithFinish.Counts.{votes_of_le}
use dumbo_ms.Fin.RbcWithFinish.Turns.{All-append, node_receives-Change, node_sends_ready-Change}
use dumbo_ms.Fin.RbcWithFinish.Invariant.{Truly, Inv, deliver-Inv, go_ready-Inv}

but_own-All : (P : RbcMsg → Type 0) (nid : ℕ) (ms : List RbcMsg) → All P ms → All P (but_own nid ms)
but_own-All P nid [] h = tt
but_own-All P nid (m ∷ ms) h = elim (Bool-cases (m.rcv_id == nid)) [
  | inl e ↦ rw e (but_own-All P nid ms h.1)
  | inr e ↦ rw e (h.0, but_own-All P nid ms h.1)
]

no_vote_type : (w : Vote) (t : ℕ) → t ≤ 2 → t ≢ vote_type w
no_vote_type readies t h e = omega arith
no_vote_type finishes t h e = omega arith

-- The nodes before the first step.
abbrev first_of : Bool → Bytes → Node
first_of b input = if b then leader (new_leader input) else follower new_follower

no_tally : (w : Vote) (b : Bool) (input v : Bytes) → value_of (tally w (first_of b input) v) ≤ 0
no_tally readies true input v = omega arith
no_tally readies false input v = omega arith
no_tally finishes true input v = omega arith
no_tally finishes false input v = omega arith

no_output : (w : Vote) (b : Bool) (input v : Bytes) → Memᴰ v (outputs w (first_of b input)) → ⊥
no_output readies true input v d = Memᴰ.not-nil d
no_output readies false input v d = Memᴰ.not-nil d
no_output finishes true input v d = Memᴰ.not-nil d
no_output finishes false input v d = Memᴰ.not-nil d

first-Ended : (b : Bool) (input : Bytes) → Ended (first_of b input)
first-Ended true input = tt
first-Ended false input = λ h. refl

module _ (g : Setting) (w : Vote) where
  -- No val message and no echo is a vote.
  other_type : (t : ℕ) → t ≤ 2 → All (Truly g w (first_node g)) (send (broadcast g g.lid) t g.input)
  other_type t h =
      send-All (Truly g w (first_node g)) (broadcast g g.lid) t g.input
        (λ m a k b honest e. absurd (no_vote_type w t h (sym k ∙ e)))

  first_sent-Truly : All (Truly g w (first_node g)) (first_sent g)
  unfolding first_sent send_val send_echo
  first_sent-Truly = elim (Bool-cases (g.honest g.lid)) [
    | inr e ↦ rw e tt
    | inl e ↦ rw e (
        All-append (Truly g w (first_node g)) (send_val (broadcast g g.lid) (new_leader g.input))
          (send_echo (broadcast g g.lid) (new_leader g.input))
          (but_own-All (Truly g w (first_node g)) (broadcast g g.lid).nid
            (send (broadcast g g.lid) 1 g.input) (other_type 1 (omega arith)))
          (other_type 2 (omega arith)))
  ]

  init-Inv : Inv g w (init g)
  init-Inv = record {
    tallied = λ i v. no_tally w (i == g.lid) g.input v;
    put_out = λ i v d. absurd (no_output w (i == g.lid) g.input v d);
    once = λ i j. omega arith;
    senders = λ i v. omega arith;
    truly = λ i j v h l. absurd (omega arith);
    said = first_sent-Truly;
    ended = λ i. first-Ended (i == g.lid) g.input;
  }

  Step-Inv : {s t : System} → Step g s t → Inv g w s → Inv g w t
  Step-Inv {s} (deliver i m n out h low high to fresh real e) inv =
      deliver-Inv g w s i m n out inv low high fresh real
        (node_receives-Change g w i m (s.node i) (n, out) (inv.ended i) e)
  Step-Inv {s} (go_ready i n out h e) inv =
      go_ready-Inv g w s i n out inv (node_sends_ready-Change g w i (s.node i) (n, out) e)

  pub Reach-Inv : {s : System} → Reach g s → Inv g w s
  Reach-Inv start = init-Inv
  Reach-Inv (later r st) = Step-Inv st (Reach-Inv r)

-- A node that does not run the code.
abbrev pub faulty : Setting → ℕ → ℕ
faulty g j = if g.honest (suc j) then 0 else 1

-- With 3f + 1 nodes of which at most f are faulty, in every reachable state any two values that
-- followers have put out on the first channel, by ready messages, are equal, and so are any two on
-- the second, by finish messages; where no node takes in two messages of one type of one sender.
pub outputs-agree :
    (g : Setting) (f : ℕ) (w : Vote) {s : System}
    → g.num ≡ 3 * f + 1
    → total (faulty g) g.num ≤ f
    → Reach g s
    → (i j : ℕ) (u v : Bytes) → Memᴰ u (outputs w (s.node i))
    → Memᴰ v (outputs w (s.node j))
    → u ≡ v
outputs-agree g f w {s} size few r i j u v pu pv =
    let (k, l, voted_u, voted_v, real) =
      quorums_meet (λ k. votes_of w u (suc k) (s.heard i)) (λ k. votes_of w v (suc k) (s.heard j))
        (faulty g) g.num f (omega arith) few
        (let a = inv.put_out i u pu in let b = inv.senders i u in omega arith)
        (let a = inv.put_out j v pv in let b = inv.senders j v in omega arith) (once_of i u)
        (once_of j v) in
    some-injective u v (
      sym (inv.truly i (suc k) u (not_faulty k real) voted_u)
      ∙ inv.truly j (suc k) v (not_faulty k real) voted_v)
  where
    inv : Inv g w s
    inv = Reach-Inv g w r

    once_of : (i : ℕ) (v : Bytes) (k : ℕ) → votes_of w v (suc k) (s.heard i) ≤ 1
    once_of i v k =
        let a = votes_of_le w v (suc k) (s.heard i) in let b = inv.once i (suc k) in omega arith

    not_faulty : (k : ℕ) → faulty g k ≡ 0 → g.honest (suc k) ≡ true
    not_faulty k e = grind arith
