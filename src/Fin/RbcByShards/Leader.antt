-- ===== src/Fin/RbcByShards/Leader.antt =====
-- The leader of a broadcast by shards, consensus/fin/RBC/leader.go. A channel of `bool` is the number
-- of signals on it; `input` in send_ready is a variable of the package that nothing sets, so the
-- length there is 0.
use dumbo_ms.Prelude.{
  ℕ, zero, suc, ◌+◌, ◌*◌, Bool, false, ◌&&◌, List, [], ◌∷◌, ◌++◌, Option, none, some, ◌==◌,
  if◌then◌else◌, length, get_elem?,
}
use dumbo_ms.Fin.Messages.{Bytes, bytes_equal, RbcMsg}
use dumbo_ms.Fin.Merkle.{get_merkle_path, root_of}
use dumbo_ms.Fin.ReedSolomon.{Coding}
use dumbo_ms.Fin.RbcByShards.{Instance, send}

-- What `send_val` leaves: the own path, and the messages to the others.
pub record Sent : Type 0 where
  pub mypath : List Bytes
  pub messages : List RbcMsg

-- `BC_l` with the locals of its handlers.
pub record Leader : Type 0 where
  pub echocount : ℕ
  pub echo_returned : Bool
  pub readycount : ℕ
  pub ready_returned : Bool
  pub readysignal : ℕ
  pub outputsignal : ℕ

abbrev pub new_leader : Leader
new_leader = record {
  echocount = 0;
  echo_returned = false;
  readycount = 0;
  ready_returned = false;
  readysignal = 0;
  outputsignal = 0;
}

abbrev pub one_if : Bool → ℕ → ℕ
one_if b n = if b then n + 1 else n

module _ (coding : Coding) (c : Instance) where
  -- The message to the node `i + 1`.
  abbrev pub val_msg : ℕ → ℕ → List Bytes → RbcMsg
  val_msg len i path = record {
    id = c.nid;
    rcv_id = i + 1;
    leader = c.lid;
    round = c.height;
    msg_type = 3;
    msglen = len;
    root = [];
    values = path;
  }

  abbrev pub sent_path : ℕ → ℕ → List Bytes → Sent → Sent
  sent_path len i path s =
      if i + 1 == c.nid
      then record s { mypath = path }
      else record s { messages = s.messages ++ (val_msg len i path ∷ []) }

  abbrev pub with_hashes : Bytes → Bytes → Option (List Bytes) → Option (List Bytes)
  with_hashes root shard none = none
  with_hashes root shard (some hashes) = some (get_merkle_path hashes root shard)

  abbrev pub path_of : List Bytes → Bytes → Option Bytes → Option (List Bytes)
  path_of shards root none = none
  path_of shards root (some shard) = with_hashes root shard (coding.merkle_hashes shards shard)

  -- The rounds of the loop of `send_val` that are left, from `i` on.
  unfoldable pub val_loop : ℕ → List Bytes → Bytes → ℕ → ℕ → Sent → Option Sent
  val_loop len shards root zero i s = some s
  val_loop len shards root (suc rounds) i s = elim (path_of shards root (get_elem? shards i)) [
    | none ↦ none
    | some path ↦ val_loop len shards root rounds (i + 1) (sent_path len i path s)
  ]

  abbrev pub with_root : ℕ → List Bytes → Option Bytes → Option Sent
  with_root len shards none = none
  with_root len shards (some root) =
      val_loop len shards root c.num 0 (record { mypath = []; messages = [] })

  abbrev pub with_shards : ℕ → Option (List Bytes) → Option Sent
  with_shards len none = none
  with_shards len (some shards) = with_root len shards (coding.merkle_root shards)

  unfoldable pub send_val : Bytes → Option Sent
  unfolding val_loop
  send_val input = with_shards (length input) (coding.encode (c.threshold + 1) c.num input)

  unfoldable pub send_echo : ℕ → List Bytes → List RbcMsg
  send_echo len path = send coding c 2 len [] path

  -- The message to the own channel has no receiver.
  abbrev pub own_unaddressed : List RbcMsg → List RbcMsg
  own_unaddressed [] = []
  own_unaddressed (m ∷ ms) =
      (if m.rcv_id == c.nid then record m { rcv_id = 0 } else m) ∷ own_unaddressed ms

  unfoldable pub send_ready : Bytes → List RbcMsg
  send_ready root = own_unaddressed (send coding c 1 0 root [])

  abbrev pub count_echo : Bytes → Leader → List Bytes → Option Leader
  count_echo myroot s [] = none
  count_echo myroot s (shard ∷ path) =
      let same = bytes_equal (root_of (shard ∷ path)) myroot in
      let n = one_if same s.echocount in
      let quorum = same && (n == c.threshold * 2) in
      some (record s {
        echocount = n;
        readysignal = one_if quorum s.readysignal;
        echo_returned = quorum;
      })

  unfoldable pub handle_echo : Bytes → RbcMsg → Leader → Option Leader
  unfolding bytes_equal
  handle_echo myroot msg s =
      if msg.round == c.height then count_echo myroot s msg.values else some s

  unfoldable pub handle_ready : Bytes → RbcMsg → Leader → Leader
  unfolding bytes_equal
  handle_ready myroot msg s =
      let n = s.readycount + 1 in
      if (msg.round == c.height) && bytes_equal msg.root myroot
      then record s {
        readycount = n;
        readysignal = one_if (n == c.threshold + 1) s.readysignal;
        outputsignal = one_if (n == c.threshold * 2) s.outputsignal;
        ready_returned = n == c.threshold * 2;
      }
      else s

  -- The loop of the goroutine over the messages of its channel.
  unfoldable pub ready_loop : Bytes → List RbcMsg → Leader → Leader
  unfolding handle_ready
  ready_loop myroot [] s = s
  ready_loop myroot (m ∷ ms) s =
      let rest = ready_loop myroot ms (handle_ready myroot m s) in
      if s.ready_returned then s else rest
