-- ===== src/Fin/RbcWithFinish/Network.antt =====
-- One broadcast among `num` nodes: every honest node but the leader runs a follower, the leader,
-- if honest, runs the leader's code, and the others send what they like. A message names its
-- sender truly (`finmsg.ID != int32(msg.SendID)` in consensus/fin/conseneus.go); the network
-- chooses which message arrives next.
use mathlib.Core.List.{Memᴰ}
use dumbo_ms.Prelude.{
  ℕ, ◌+◌, ◌≤◌, ◌≡◌, Bool, true, ◌&&◌, List, [], ◌∷◌, ◌++◌, Option, none, some, ◌==◌, if◌then◌else◌,
}
use dumbo_ms.Fin.Messages.{Bytes, RbcMsg}
use dumbo_ms.Fin.RbcWithFinish.{
  Broadcast, new_broadcast, Follower, new_follower, receive, send_ready,
}
use dumbo_ms.Fin.RbcWithFinish.Leader.{Leader, new_leader, send_val, send_echo}
use dumbo_ms.Fin.RbcWithFinish.Leader as Leading

pub data Node : Type 0 where
  follower : Follower → Node
  leader : Leader → Node

pub record Setting : Type 0 where
  pub num : ℕ
  pub lid : ℕ
  pub round : ℕ
  pub input : Bytes
  pub honest : ℕ → Bool
  pub check_input_rbc : ℕ → Bytes → Bool

pub record System : Type 0 where
  pub node : ℕ → Node
  pub heard : ℕ → List RbcMsg
  pub sent : List RbcMsg

abbrev pub update {ℓ} : {A : Type ℓ} → (ℕ → A) → ℕ → A → ℕ → A
update f i a j = if i == j then a else f j

-- The messages of one type that one sender has sent to a node.
abbrev pub heard_from : ℕ → ℕ → List RbcMsg → ℕ
heard_from t j [] = 0
heard_from t j (m ∷ ms) =
    let rest = heard_from t j ms in if (m.msg_type == t) && (m.id == j) then rest + 1 else rest

abbrev pub as_follower : Option (Follower × List RbcMsg) → Option (Node × List RbcMsg)
as_follower none = none
as_follower (some p) = some (follower p.0, p.1)

abbrev pub as_leader : Option (Leader × List RbcMsg) → Option (Node × List RbcMsg)
as_leader none = none
as_leader (some p) = some (leader p.0, p.1)

module _ (g : Setting) where
  unfoldable pub broadcast : ℕ → Broadcast
  unfolding new_broadcast
  broadcast i = new_broadcast i g.lid g.round g.num

  unfoldable pub node_receives : ℕ → RbcMsg → Node → Option (Node × List RbcMsg)
  unfolding receive Leading.receive broadcast
  node_receives i msg (follower s) = as_follower (receive (broadcast i) (g.check_input_rbc i) msg s)
  node_receives i msg (leader s) = as_leader (Leading.receive (broadcast i) msg s)

  unfoldable pub node_sends_ready : ℕ → Node → Option (Node × List RbcMsg)
  unfolding send_ready Leading.send_ready broadcast
  node_sends_ready i (follower s) = as_follower (send_ready (broadcast i) s)
  node_sends_ready i (leader s) = as_leader (Leading.send_ready (broadcast i) s)

  abbrev pub first_node : ℕ → Node
  first_node i = if i == g.lid then leader (new_leader g.input) else follower new_follower

  unfoldable pub first_sent : List RbcMsg
  unfolding send_val send_echo broadcast
  first_sent =
      if g.honest g.lid
      then send_val (broadcast g.lid) (new_leader g.input)
        ++ send_echo (broadcast g.lid) (new_leader g.input)
      else []

  abbrev pub init : System
  init = record { node = first_node; heard = λ i. []; sent = first_sent }

  -- A node takes a message in, or its `send_ready` goes on. Of one sender no node takes in two
  -- messages of one type: the code does not see to that, so it is an assumption on the senders.
  pub data Step (s : System) : System → Type 0 where
    deliver :
        (i : ℕ) (m : RbcMsg) (n : Node) (out : List RbcMsg)
        → g.honest i ≡ true
        → 1 ≤ m.id
        → m.id ≤ g.num
        → m.rcv_id ≡ i
        → heard_from m.msg_type m.id (s.heard i) ≡ 0
        → (g.honest m.id ≡ true → Memᴰ m s.sent)
        → node_receives i m (s.node i) ≡ some (n, out)
        → Step s (record {
          node = update s.node i n;
          heard = update s.heard i (m ∷ s.heard i);
          sent = out ++ s.sent;
        })
    go_ready :
        (i : ℕ) (n : Node) (out : List RbcMsg)
        → g.honest i ≡ true
        → node_sends_ready i (s.node i) ≡ some (n, out)
        → Step s (record { node = update s.node i n; heard = s.heard; sent = out ++ s.sent })

  pub data Reach : System → Type 0 where
    start : Reach init
    later : {s t : System} → Reach s → Step s t → Reach t
