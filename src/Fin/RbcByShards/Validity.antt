-- ===== src/Fin/RbcByShards/Validity.antt =====
-- A broadcast by shards of an honest leader: what the echoes of followers that got its val messages
-- come to at a follower.
use mathlib.Core.List.{Memᴰ}
use dumbo_ms.Prelude.{suc, ◌+◌, ◌*◌, ◌≤◌, ◌≡◌, sym, ◌∙◌, arith, List, [], ◌∷◌, some, length}
use dumbo_ms.Fin.Messages.{Bytes, RbcMsg}
use dumbo_ms.Fin.ReedSolomon.{Coding}
use dumbo_ms.Fin.RbcByShards.{
  Instance, Follower, new_follower, handle_val, echo_loop, start_output, puts_out,
}
use dumbo_ms.Fin.RbcByShards.Leader.{Sent, send_val}
use dumbo_ms.Fin.RbcByShards.Truthful.{Distinct, Truthful, AllTruthful}
use dumbo_ms.Fin.RbcByShards.Stages.{Promises}
use dumbo_ms.Fin.RbcByShards.Echoes.{echo_loop-quorum}
use dumbo_ms.Fin.RbcByShards.Vals.{send_val-Truthful}

-- An echo with which a follower of the broadcast answers its val message.
pub record Echoed (coding : Coding) (c : Instance) (t : Sent) (m : RbcMsg) : Type 0 where
  pub follower : Instance
  pub val : RbcMsg
  pub echoes : List RbcMsg
  pub sent : Memᴰ val t.messages
  pub here : follower.nid ≡ val.rcv_id
  pub height : follower.height ≡ c.height
  pub num : follower.num ≡ c.num
  pub answers : handle_val coding follower val ≡ some echoes
  pub one : Memᴰ m echoes

abbrev pub AllEchoed : Coding → Instance → Sent → List RbcMsg → Type 0
AllEchoed coding c t [] = Unit
AllEchoed coding c t (m ∷ ms) = Echoed coding c t m × AllEchoed coding c t ms

-- Which echoes are true depends on the height and the number of nodes only.
Truthful-same :
    (f g : Instance) (input root : Bytes) (shards : List Bytes) (m : RbcMsg)
    → f.height ≡ g.height
    → f.num ≡ g.num
    → Truthful f input root shards m
    → Truthful g input root shards m
Truthful-same f g input root shards m height num t = record {
  now = t.now ∙ height;
  above = t.above;
  below = omega (arith, t.below, num);
  len = t.len;
  path = t.path;
  values = t.values;
  ends = t.ends;
}

module _ (coding : Coding) (c g : Instance) (input root rest : Bytes) (shards : List Bytes)
    (t : Sent) (encoded : coding.encode (c.threshold + 1) c.num input ≡ some shards)
    (p : Promises coding g input root rest shards) (sent : send_val coding c input ≡ some t)
    (height : g.height ≡ c.height) (num : g.num ≡ c.num) where
  AllEchoed-Truthful :
      (ms : List RbcMsg) → AllEchoed coding c t ms → AllTruthful g input root shards ms
  AllEchoed-Truthful [] es = tt
  AllEchoed-Truthful (m ∷ ms) (e, es) = (
    Truthful-same e.follower g input root shards m (e.height ∙ sym height) (e.num ∙ sym num) (
        send_val-Truthful coding c e.follower input root shards t e.val m e.echoes encoded p.roots
          sent e.sent e.here e.height e.num e.answers e.one),
    AllEchoed-Truthful ms es,
  )

  -- When a leader has sent the val messages of its input and a quorum of different followers answer
  -- theirs, the echoes make a follower, whatever their order, rebuild the input and signal that it
  -- is ready for the root of the leader's shards; where that root is the first one to be put out,
  -- Start puts out the input. The libraries keep their promises, and all nodes are of one height and
  -- number.
  pub broadcast-output :
      (m : RbcMsg) (ms : List RbcMsg) (roots : List Bytes)
      → AllEchoed coding c t (m ∷ ms)
      → Distinct (m ∷ ms)
      → suc (length ms) ≡ g.threshold * 2 + 1
      → g.threshold * 2 + 1 ≤ g.num
      → (s : Follower) × (echo_loop coding g (m ∷ ms) new_follower ≡ some s)
        × (s.candidates ≡ record { root = root; output = input } ∷ [])
        × (s.readysignal ≡ root ∷ [])
        × (start_output (record s { outputsignal = root ∷ roots }) ≡ puts_out input)
  broadcast-output m ms roots es distinct quorum few =
      echo_loop-quorum coding g input root rest shards p m ms roots (AllEchoed-Truthful (m ∷ ms) es)
        distinct quorum few
