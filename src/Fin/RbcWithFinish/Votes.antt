-- ===== src/Fin/RbcWithFinish/Votes.antt =====
-- Ready and finish messages as votes: what a node has counted, what it has voted for, and what it
-- puts out; and what one handler changes of these.
use mathlib.Core.List.{Memᴰ}
use dumbo_ms.Prelude.{
  ℕ, zero, suc, ◌+◌, ◌≤◌, arith, ◌≡◌, refl, sym, ap, ◌∙◌, ◌⊎◌, inl, false, ◌&&◌, List, [], ◌∷◌,
  Option, none, some, ◌==◌, if◌then◌else◌,
}
use dumbo_ms.Fin.Messages.{
  Bytes, bytes_equal, RbcMsg, to_all, Tally, empty, value_of, count_up, value_of-count_up,
}
use dumbo_ms.Fin.RbcWithFinish.{Broadcast, send}
use dumbo_ms.Fin.RbcWithFinish.Network.{Node, follower, leader}

pub data Vote : Type 0 where
  readies finishes : Vote

abbrev pub vote_type : Vote → ℕ
vote_type readies = 3
vote_type finishes = 4

abbrev pub head : List Bytes → Option Bytes
head [] = none
head (x ∷ xs) = some x

-- What a node has voted for.
abbrev pub claim : Vote → Node → Option Bytes
claim readies (follower s) = s.ready_sent
claim finishes (follower s) = head s.output1signal
claim readies (leader s) = if s.ready_sent then some s.input else none
claim finishes (leader s) = if s.ready_returned then some s.input else none

abbrev pub tally : Vote → Node → Tally
tally readies (follower s) = s.ready.counts
tally finishes (follower s) = s.finish.counts
tally w (leader s) = empty

-- What a follower puts out by counting votes.
abbrev pub outputs : Vote → Node → List Bytes
outputs readies (follower s) = s.output1signal
outputs finishes (follower s) = s.output2signal
outputs w (leader s) = []

abbrev pub All {ℓ κ} : {A : Type ℓ} → (A → Type κ) → List A → Type κ
All P [] = Unit
All P (x ∷ xs) = P x × All P xs

-- The votes for a value, and those of one sender.
abbrev pub votes : Vote → Bytes → List RbcMsg → ℕ
votes w v [] = 0
votes w v (m ∷ ms) =
    let rest = votes w v ms in
    if (m.msg_type == vote_type w) && bytes_equal m.root v then rest + 1 else rest

abbrev pub votes_of : Vote → Bytes → ℕ → List RbcMsg → ℕ
votes_of w v j [] = 0
votes_of w v j (m ∷ ms) =
    let rest = votes_of w v j ms in
    if (m.msg_type == vote_type w) && bytes_equal m.root v && (m.id == j) then rest + 1 else rest

-- Of followers: nothing is put out on the first channel before the ready handler returns.
abbrev pub Ended : Node → Type 0
Ended (follower s) = s.ready.returned ≡ false → s.output1signal ≡ []
Ended (leader s) = Unit {0}

-- One change of node i, with `more` new votes and the messages `out`.
pub record Change (i quorum : ℕ) (w : Vote) (more : Bytes → ℕ) (n n' : Node) (out : List RbcMsg)
    : Type 0 where
  pub grows : (v : Bytes) → claim w n ≡ some v → claim w n' ≡ some v
  pub says : All (λ m. (m.id ≡ i) × (m.msg_type ≡ vote_type w → claim w n' ≡ some m.root)) out
  pub tallies : (v : Bytes) → value_of (tally w n' v) ≤ more v + value_of (tally w n v)
  pub puts :
      (v : Bytes)
      → Memᴰ v (outputs w n')
      → Memᴰ v (outputs w n) ⊎ (quorum ≤ value_of (tally w n' v))

-- No change of the state, and no vote sent.
pub unchanged :
    (i q : ℕ) (w : Vote) (more : Bytes → ℕ) (n : Node) (out : List RbcMsg)
    → All (λ m. (m.id ≡ i) × (m.msg_type ≡ vote_type w → claim w n ≡ some m.root)) out
    → Change i q w more n n out
unchanged i q w more n out h = record {
  grows = λ v e. e;
  says = h;
  tallies = λ v. omega arith;
  puts = λ v m. inl m;
}

-- The messages to all nodes have the sender, the type and the value they are sent with.
to_all-All :
    (P : RbcMsg → Type 0) (n i : ℕ) (m : RbcMsg)
    → ((j : ℕ) → P (record m { rcv_id = j }))
    → All P (to_all n i m)
to_all-All P zero i m h = tt
to_all-All P (suc n) i m h = (h (i + 1), to_all-All P n (i + 1) m h)

pub send-All :
    (P : RbcMsg → Type 0) (c : Broadcast) (t : ℕ) (value : Bytes)
    → ((m : RbcMsg) → m.id ≡ c.nid → m.msg_type ≡ t → m.root ≡ value → P m)
    → All P (send c t value)
unfolding send
send-All P c t value h = to_all-All P c.num 0 _ (λ j. h _ refl refl refl)

-- Messages of another type are no votes.
pub send-says :
    (c : Broadcast) (t : ℕ) (value : Bytes) (w : Vote) (n : Node)
    → (t ≡ vote_type w → claim w n ≡ some value)
    → All
        (λ m. (m.id ≡ c.nid) × (m.msg_type ≡ vote_type w → claim w n ≡ some m.root))
        (send c t value)
send-says c t value w n h =
    send-All (λ m. (m.id ≡ c.nid) × (m.msg_type ≡ vote_type w → claim w n ≡ some m.root)) c t value
      (λ m e k r. (e, λ l. h (sym k ∙ l) ∙ ap some (sym r)))

-- Counting a value adds its vote to the tally.
pub counted_le :
    (m : Tally) (key v : Bytes)
    → value_of (count_up m key v) ≤ (if bytes_equal key v then 1 else 0) + value_of (m v)
counted_le m key v = grind (arith, value_of-count_up m key v)
