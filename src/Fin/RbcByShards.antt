-- ===== src/Fin/RbcByShards.antt =====
-- Reliable broadcast by shards, consensus/fin/RBC: the messages and the follower. A goroutine that
-- loops over a channel is the handler that it runs on a message; a send on a channel is an entry of
-- a list; a panic is `none`. `handle_val` and `handle_echo` call VerifyPath and do not use what it
-- returns, so it is not called here. The router lets only messages of this height through.
pub mod Leader
pub mod Truthful
pub mod Stages
pub mod Echoes
pub mod Forged
pub mod Vals
pub mod Validity
use dumbo_ms.Prelude.{
  ℕ, ◌+◌, ◌-◌, ◌*◌, ◌/◌, Bool, true, false, ◌&&◌, List, [], ◌∷◌, ◌++◌, Option, none, some, ◌==◌,
  leb, if◌then◌else◌, set, replicate,
}
use dumbo_ms.Fin.Messages.{Bytes, bytes_equal, RbcMsg, to_all, Tally, empty, value_of, count_up}
use dumbo_ms.Fin.Merkle.{root_of}
use dumbo_ms.Fin.ReedSolomon.{Coding, reconstruct}

-- The fields of `BC_f` and `BC_l` that stay as they are.
pub record Instance : Type 0 where
  pub nid : ℕ
  pub lid : ℕ
  pub num : ℕ
  pub threshold : ℕ
  pub height : ℕ

abbrev pub new_instance : ℕ → ℕ → ℕ → ℕ → Instance
new_instance nid lid num height = record {
  nid = nid;
  lid = lid;
  num = num;
  threshold = (num - 1) / 3;
  height = height;
}

-- `type echobuf`; a shard that is nil is empty.
pub record EchoBuf : Type 0 where
  pub count : ℕ
  pub shards : List Bytes
  pub rootvalid : Bool

abbrev pub EchoMap : Type 0
EchoMap = Bytes → Option EchoBuf

unfoldable pub put_buf : EchoMap → Bytes → EchoBuf → EchoMap
unfolding bytes_equal
put_buf m root e other = if bytes_equal root other then some e else m other

pub record Candidate : Type 0 where
  pub root : Bytes
  pub output : Bytes

pub record Follower : Type 0 where
  pub echomap : EchoMap
  pub echocount : ℕ
  pub echo_returned : Bool
  pub readymap : Tally
  pub ready_returned : Bool
  pub candidates : List Candidate
  pub readysignal : List Bytes
  pub outputsignal : List Bytes

abbrev pub new_follower : Follower
new_follower = record {
  echomap = λ root. none;
  echocount = 0;
  echo_returned = false;
  readymap = empty;
  ready_returned = false;
  candidates = [];
  readysignal = [];
  outputsignal = [];
}

-- `echobuf` of a root with one more shard, at an index that is in range.
abbrev pub stored : ℕ → Option EchoBuf → ℕ → Bytes → EchoBuf
stored num none id shard = record {
  count = 1;
  shards = set (replicate num []) (id - 1) shard;
  rootvalid = false;
}
stored num (some e) id shard = record e {
  shards = set e.shards (id - 1) shard;
  count = e.count + 1;
}

module _ (coding : Coding) (c : Instance) where
  abbrev pub send : ℕ → ℕ → Bytes → List Bytes → List RbcMsg
  send t len root path = to_all c.num 0 (record {
    id = c.nid;
    rcv_id = 0;
    leader = c.lid;
    round = c.height;
    msg_type = t;
    msglen = len;
    root = root;
    values = path;
  })

  unfoldable pub send_echo : ℕ → List Bytes → List RbcMsg
  send_echo len path = send 2 len [] path

  unfoldable pub send_ready : Bytes → List RbcMsg
  send_ready root = send 1 0 root []

  abbrev pub echo_of : ℕ → List Bytes → Option (List RbcMsg)
  echo_of len [] = none
  echo_of len (shard ∷ path) = some (send_echo len (shard ∷ path))

  unfoldable pub handle_val : RbcMsg → Option (List RbcMsg)
  unfolding send_echo
  handle_val msg = if msg.round == c.height then echo_of msg.msglen msg.values else some []

  -- The root of the shards that were filled in, against the root of the message.
  abbrev pub checked :
      Bytes → EchoBuf → Bytes → List Bytes → Follower → Option Bytes → Option Follower
  checked root e cand full s none = none
  checked root e cand full s (some computed) =
      if bytes_equal computed root
      then some (record s {
        echomap = put_buf s.echomap root (record e { shards = full; rootvalid = true });
        candidates = s.candidates ++ (record { root = root; output = cand } ∷ []);
      })
      else none

  abbrev pub rebuilt : Bytes → EchoBuf → Follower → Option (Bytes × List Bytes) → Option Follower
  rebuilt root e s none = none
  rebuilt root e s (some (cand, full)) = checked root e cand full s (coding.merkle_root full)

  -- `if count == threshold+1`
  unfoldable pub at_low : Bytes → ℕ → EchoBuf → Follower → Option Follower
  unfolding bytes_equal put_buf reconstruct
  at_low root msglen e s =
      if e.count == c.threshold + 1
      then rebuilt root e s (reconstruct coding (c.threshold + 1) c.num e.shards msglen)
      else some s

  abbrev pub valid_at : Bytes → Follower → Option EchoBuf → Option Follower
  valid_at root s none = some s
  valid_at root s (some e) =
      if e.count == c.threshold * 2 + 1
      then (if e.rootvalid
          then some (record s { readysignal = s.readysignal ++ (root ∷ []); echo_returned = true })
          else none)
      else some s

  -- `if echocount == num`
  abbrev pub ended : Option Follower → Option Follower
  ended none = none
  ended (some t) = some (if t.echocount == c.num then record t { echo_returned = true } else t)

  -- `if count == threshold*2+1`
  unfoldable pub at_high : Bytes → Option Follower → Option Follower
  at_high root none = none
  at_high root (some s) = ended (valid_at root s (s.echomap root))

  abbrev pub heard : Bytes → Bytes → RbcMsg → Follower → Option Follower
  heard root shard msg s =
      let e = stored c.num (s.echomap root) msg.id shard in
      if leb 1 msg.id && leb msg.id c.num
      then at_high root (
          at_low root msg.msglen e
            (record s { echomap = put_buf s.echomap root e; echocount = s.echocount + 1 }))
      else none

  abbrev pub on_path : RbcMsg → Follower → List Bytes → Option Follower
  on_path msg s [] = none
  on_path msg s (shard ∷ path) = heard (root_of (shard ∷ path)) shard msg s

  unfoldable pub handle_echo : RbcMsg → Follower → Option Follower
  unfolding at_low at_high put_buf
  handle_echo msg s = if msg.round == c.height then on_path msg s msg.values else some s

  -- The loop of the goroutine over the messages of its channel.
  unfoldable pub echo_loop : List RbcMsg → Follower → Option Follower
  unfolding handle_echo
  echo_loop [] s = some s
  echo_loop (m ∷ ms) s =
      if s.echo_returned
      then some s
      else elim (handle_echo m s) [ none ↦ none | some t ↦ echo_loop ms t ]

  abbrev pub signal_at : ℕ → ℕ → Bytes → List Bytes → List Bytes
  signal_at quorum n root signals = if n == quorum then signals ++ (root ∷ []) else signals

  unfoldable pub handle_ready : RbcMsg → Follower → Follower
  unfolding count_up
  handle_ready msg s =
      let m = count_up s.readymap msg.root in
      let n = value_of (m msg.root) in
      if msg.round == c.height
      then record s {
        readymap = m;
        readysignal = signal_at (c.threshold + 1) n msg.root s.readysignal;
        outputsignal = signal_at (c.threshold * 2 + 1) n msg.root s.outputsignal;
        ready_returned = n == c.threshold * 2 + 1;
      }
      else s

-- What `Start` comes to once there is a root to put out: it compares the first candidate.
pub data Outcome : Type 0 where
  waits : Outcome
  puts_out : (output : Bytes) → Outcome
  ends : Outcome

unfoldable pub start_output : Follower → Outcome
unfolding bytes_equal
start_output s = elim s.outputsignal [
  | [] ↦ waits
  | outroot ∷ roots ↦ elim s.candidates [
    | [] ↦ waits
    | cand ∷ cands ↦ if bytes_equal outroot cand.root then puts_out cand.output else ends
  ]
]
