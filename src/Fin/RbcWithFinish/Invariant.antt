-- ===== src/Fin/RbcWithFinish/Invariant.antt =====
-- What holds of the votes in every reachable state of a broadcast.
use mathlib.Core.List.{Memᴰ}
use dumbo_ms.Prelude.{
  ℕ, suc, ◌+◌, ◌≤◌, ◌<◌, arith, ◌≡◌, refl, sym, ap, subst, ◌∙◌, inl, inr, true, List, ◌∷◌, ◌++◌,
  some, ◌==◌, ==_iff, Bool-cases,
}
use dumbo_ms.Fin.Quorum.{total}
use dumbo_ms.Fin.Messages.{Bytes, RbcMsg, value_of}
use dumbo_ms.Fin.RbcWithFinish.Network.{Node, Setting, System, update, heard_from}
use dumbo_ms.Fin.RbcWithFinish.Votes.{
  Vote, vote_type, claim, tally, outputs, All, votes, votes_of, Ended, Change,
}
use dumbo_ms.Fin.RbcWithFinish.Follows.{one_vote}
use dumbo_ms.Fin.RbcWithFinish.Counts.{votes-cons, senders-cons, once-cons, votes_of-cons}
use dumbo_ms.Fin.RbcWithFinish.Turns.{All-map, All-append, All-mem, quorum, Changes}

module _ (g : Setting) (w : Vote) where
  -- A message of an honest sender that is a vote is for what its sender has voted for.
  abbrev pub Truly : (ℕ → Node) → RbcMsg → Type 0
  Truly node m = g.honest m.id ≡ true → m.msg_type ≡ vote_type w → claim w (node m.id) ≡ some m.root

  -- Tallies are not above the votes heard, outputs had a quorum of these, no sender is heard
  -- twice, and the votes of an honest sender are for what it has voted for.
  pub record Inv (s : System) : Type 0 where
    pub tallied : (i : ℕ) (v : Bytes) → value_of (tally w (s.node i) v) ≤ votes w v (s.heard i)
    pub put_out :
        (i : ℕ) (v : Bytes) → Memᴰ v (outputs w (s.node i)) → quorum g ≤ votes w v (s.heard i)
    pub once : (i j : ℕ) → heard_from (vote_type w) j (s.heard i) ≤ 1
    pub senders :
        (i : ℕ) (v : Bytes)
        → votes w v (s.heard i) ≤ total (λ j. votes_of w v (suc j) (s.heard i)) g.num
    pub truly :
        (i j : ℕ) (v : Bytes)
        → g.honest j ≡ true
        → 0 < votes_of w v j (s.heard i)
        → claim w (s.node j) ≡ some v
    pub said : All (Truly s.node) s.sent
    pub ended : (i : ℕ) → Ended (s.node i)

  -- A change of node i, which has heard `heard` since.
  module _ (s : System) (inv : Inv s) (i : ℕ) (n : Node) (out heard : List RbcMsg)
      (more : Bytes → ℕ) (change : Changes g w i more (s.node i) (n, out)) where
    c : Change i (quorum g) w more (s.node i) n out
    c = change.0

    abbrev node : ℕ → Node
    node = update s.node i n

    grown : (j : ℕ) (v : Bytes) → claim w (s.node j) ≡ some v → claim w (node j) ≡ some v
    grown j v e = elim (Bool-cases (i == j)) [
      | inl k ↦
          let same = (==_iff i j).0 k in
          rw k (c.grows v (subst (λ x. claim w (s.node x) ≡ some v) (sym same) e))
      | inr k ↦ rw k e
    ]

    here : node i ≡ n
    here = rw ((==_iff i i).1 refl) refl

    said_on : All (Truly node) (out ++ s.sent)
    said_on =
        All-append (Truly node) out s.sent
          (All-map (λ m. (m.id ≡ i) × (m.msg_type ≡ vote_type w → claim w n ≡ some m.root))
            (Truly node) out (λ m k h t. ap (claim w) (ap node k.0 ∙ here) ∙ k.1 t) c.says)
          (All-map (Truly s.node) (Truly node) s.sent (λ m k h t. grown m.id m.root (k h t))
            inv.said)

    Ended-on : (j : ℕ) → Ended (node j)
    Ended-on j = elim (Bool-cases (i == j)) [
      | inl k ↦ rw k (change.1 (inv.ended i))
      | inr k ↦ rw k (inv.ended j)
    ]

    counted_on :
        ((v : Bytes) → votes w v heard ≡ more v + votes w v (s.heard i))
        → (v : Bytes) → value_of (tally w n v) ≤ votes w v heard
    counted_on h v = let a = c.tallies v in let b = inv.tallied i v in let e = h v in omega arith

    put_out_on :
        ((v : Bytes) → votes w v heard ≡ more v + votes w v (s.heard i))
        → (v : Bytes) → Memᴰ v (outputs w n)
        → quorum g ≤ votes w v heard
    put_out_on h v d = elim (c.puts v d) [
      | inl old ↦ let a = inv.put_out i v old in let e = h v in omega arith
      | inr new ↦ let a = counted_on h v in omega arith
    ]

  pub deliver-Inv :
      (s : System) (i : ℕ) (m : RbcMsg) (n : Node) (out : List RbcMsg)
      → Inv s
      → 1 ≤ m.id
      → m.id ≤ g.num
      → heard_from m.msg_type m.id (s.heard i) ≡ 0
      → (g.honest m.id ≡ true → Memᴰ m s.sent)
      → Changes g w i (one_vote w m) (s.node i) (n, out)
      → Inv (record {
        node = update s.node i n;
        heard = update s.heard i (m ∷ s.heard i);
        sent = out ++ s.sent;
      })
  deliver-Inv s i m n out inv low high fresh real change = record {
    tallied = λ j v. elim (Bool-cases (i == j)) [
      | inl k ↦ rw k (counted_on s inv i n out heard (one_vote w m) change cons v)
      | inr k ↦ rw k (inv.tallied j v)
    ];
    put_out = λ j v. elim (Bool-cases (i == j)) [
      | inl k ↦ rw k (put_out_on s inv i n out heard (one_vote w m) change cons v)
      | inr k ↦ rw k (inv.put_out j v)
    ];
    once = λ j k. elim (Bool-cases (i == j)) [
      | inl e ↦ rw e (once-cons (vote_type w) k m (s.heard i) fresh (inv.once i k))
      | inr e ↦ rw e (inv.once j k)
    ];
    senders = λ j v. elim (Bool-cases (i == j)) [
      | inl e ↦ rw e (senders-cons w v g.num m (s.heard i) low high (inv.senders i v))
      | inr e ↦ rw e (inv.senders j v)
    ];
    truly = λ j k v h. elim (Bool-cases (i == j)) [
      | inl e ↦ rw e (heard_truly k v h)
      | inr e ↦
          rw e (λ l. grown s inv i n out heard (one_vote w m) change k v (inv.truly j k v h l))
    ];
    said = said_on s inv i n out heard (one_vote w m) change;
    ended = Ended-on s inv i n out heard (one_vote w m) change;
  }
    where
      heard : List RbcMsg
      heard = m ∷ s.heard i

      cons : (v : Bytes) → votes w v heard ≡ one_vote w m v + votes w v (s.heard i)
      cons v = votes-cons w v m (s.heard i)

      heard_truly :
          (k : ℕ) (v : Bytes)
          → g.honest k ≡ true
          → 0 < votes_of w v k heard
          → claim w (update s.node i n k) ≡ some v
      heard_truly k v h l = elim (votes_of-cons w v k m (s.heard i) l) [
        | inr old ↦ grown s inv i n out heard (one_vote w m) change k v (inv.truly i k v h old)
        | inl new ↦
            let honest = ap g.honest new.2 ∙ h in
            let told = All-mem (Truly s.node) m s.sent inv.said (real honest) honest new.0 in
            grown s inv i n out heard (one_vote w m) change k v
              (sym (ap (λ x. claim w (s.node x)) new.2) ∙ told ∙ ap some new.1)
      ]

  pub go_ready-Inv :
      (s : System) (i : ℕ) (n : Node) (out : List RbcMsg)
      → Inv s
      → Changes g w i (λ v. 0) (s.node i) (n, out)
      → Inv (record { node = update s.node i n; heard = s.heard; sent = out ++ s.sent })
  go_ready-Inv s i n out inv change = record {
    tallied = λ j v. elim (Bool-cases (i == j)) [
      | inl k ↦
          let same = (==_iff i j).0 k in
          rw k (
            subst (λ x. value_of (tally w n v) ≤ votes w v (s.heard x)) same
              (counted_on s inv i n out (s.heard i) (λ v. 0) change (λ v. omega arith) v))
      | inr k ↦ rw k (inv.tallied j v)
    ];
    put_out = λ j v. elim (Bool-cases (i == j)) [
      | inl k ↦
          let same = (==_iff i j).0 k in
          rw k (
            subst (λ x. Memᴰ v (outputs w n) → quorum g ≤ votes w v (s.heard x)) same
              (put_out_on s inv i n out (s.heard i) (λ v. 0) change (λ v. omega arith) v))
      | inr k ↦ rw k (inv.put_out j v)
    ];
    once = inv.once;
    senders = inv.senders;
    truly = λ j k v h l. grown s inv i n out (s.heard i) (λ v. 0) change k v (inv.truly j k v h l);
    said = said_on s inv i n out (s.heard i) (λ v. 0) change;
    ended = Ended-on s inv i n out (s.heard i) (λ v. 0) change;
  }
