-- ===== src/Fin/RbcWithFinish/Counts.antt =====
-- Votes heard, by sender.
use dumbo_ms.Prelude.{
  ℕ, suc, ◌+◌, ◌-◌, ◌≤◌, ◌<◌, arith, ◌≡◌, refl, subst, ◌⊎◌, inl, inr, true, ◌&&◌, List, [], ◌∷◌,
  ◌==◌, ==_iff, Bool-cases,
}
use dumbo_ms.Fin.Quorum.{total, total_mono, total_raised}
use dumbo_ms.Fin.Messages.{Bytes, bytes_equal, bytes_equal-true, RbcMsg}
use dumbo_ms.Fin.RbcWithFinish.Network.{heard_from}
use dumbo_ms.Fin.RbcWithFinish.Votes.{Vote, vote_type, votes, votes_of}
use dumbo_ms.Fin.RbcWithFinish.Follows.{one_vote}

pub votes-cons :
    (w : Vote) (v : Bytes) (m : RbcMsg) (ms : List RbcMsg)
    → votes w v (m ∷ ms) ≡ one_vote w m v + votes w v ms
votes-cons w v m ms = grind arith

pub votes_of_le :
    (w : Vote) (v : Bytes) (j : ℕ) (ms : List RbcMsg)
    → votes_of w v j ms ≤ heard_from (vote_type w) j ms
votes_of_le w v j [] = omega arith
votes_of_le w v j (m ∷ ms) = let rest = votes_of_le w v j ms in grind arith

-- A message in range raises the sum over the senders.
pub senders-cons :
    (w : Vote) (v : Bytes) (num : ℕ) (m : RbcMsg) (ms : List RbcMsg)
    → 1 ≤ m.id
    → m.id ≤ num
    → votes w v ms ≤ total (λ j. votes_of w v (suc j) ms) num
    → votes w v (m ∷ ms) ≤ total (λ j. votes_of w v (suc j) (m ∷ ms)) num
senders-cons w v num m ms low high h =
    elim (Bool-cases ((m.msg_type == vote_type w) && bytes_equal m.root v)) [
      | inl e ↦
          let raised =
            total_raised (λ j. votes_of w v (suc j) ms) (λ j. votes_of w v (suc j) (m ∷ ms)) num
              (m.id - 1) (omega arith) more (own e) in
          let here : votes w v (m ∷ ms) ≡ votes w v ms + 1 = rw e refl in omega arith
      | inr e ↦
          let kept =
            total_mono (λ j. votes_of w v (suc j) ms) (λ j. votes_of w v (suc j) (m ∷ ms)) num
              more in
          let here : votes w v (m ∷ ms) ≡ votes w v ms = rw e refl in omega arith
    ]
  where
    more : (j : ℕ) → votes_of w v (suc j) ms ≤ votes_of w v (suc j) (m ∷ ms)
    more j = grind arith

    own :
        ((m.msg_type == vote_type w) && bytes_equal m.root v) ≡ true
        → suc (votes_of w v (suc (m.id - 1)) ms) ≤ votes_of w v (suc (m.id - 1)) (m ∷ ms)
    own e =
        let same : m.id ≡ suc (m.id - 1) = omega arith in
        let k = (==_iff m.id (suc (m.id - 1))).1 same in grind arith

-- No sender is heard twice.
pub once-cons :
    (t j : ℕ) (m : RbcMsg) (ms : List RbcMsg)
    → heard_from m.msg_type m.id ms ≡ 0
    → heard_from t j ms ≤ 1
    → heard_from t j (m ∷ ms) ≤ 1
once-cons t j m ms fresh h = elim (Bool-cases (m.msg_type == t)) [
  | inl e ↦ elim (Bool-cases (m.id == j)) [
    | inl k ↦
        let a = (==_iff m.msg_type t).0 e in
        let b = (==_iff m.id j).0 k in
        let none_yet : heard_from t j ms ≡ 0 =
          subst (λ u. heard_from u j ms ≡ 0) a
            (subst (λ u. heard_from m.msg_type u ms ≡ 0) b fresh) in
        rw (e, k) (omega arith)
    | inr k ↦ rw (e, k) h
  ]
  | inr e ↦ rw e h
]

-- A vote of j for v among the messages is the first, or among the others.
pub votes_of-cons :
    (w : Vote) (v : Bytes) (j : ℕ) (m : RbcMsg) (ms : List RbcMsg)
    → 0 < votes_of w v j (m ∷ ms)
    → ((m.msg_type ≡ vote_type w) × (m.root ≡ v) × (m.id ≡ j)) ⊎ (0 < votes_of w v j ms)
votes_of-cons w v j m ms h = elim (Bool-cases (m.msg_type == vote_type w)) [
  | inr e ↦ inr (let k = e in grind arith)
  | inl e ↦ elim (Bool-cases (bytes_equal m.root v)) [
    | inr k ↦ inr (grind arith)
    | inl k ↦ elim (Bool-cases (m.id == j)) [
      | inr l ↦ inr (grind arith)
      | inl l ↦
          inl (
            (==_iff m.msg_type (vote_type w)).0 e,
            bytes_equal-true m.root v k,
            (==_iff m.id j).0 l,
          )
    ]
  ]
]
