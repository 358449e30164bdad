-- ===== src/Fin/RbcByShards/Vals.antt =====
-- From the val messages of an honest leader to the echoes of the followers.
use mathlib.Core.List.{Memᴰ}
use mathlib.Core.List.Memᴰ
use mathlib.Core.Option.{some-injective, none-ne-some}
use dumbo_ms.Prelude.{
  ℕ, zero, suc, ◌+◌, ◌-◌, ◌≤◌, ◌<◌, ◌≡◌, refl, sym, ap, ◌∙◌, subst, arith, inl, inr, Bool-cases,
  Bool, true, List, [], ◌∷◌, ◌++◌, Option, none, some, Option-cases, ◌==◌, if◌then◌else◌, length,
  get_or, get_elem?,
}
use dumbo_ms.Fin.Messages.{Bytes, RbcMsg, to_all}
use dumbo_ms.Fin.Merkle.{get_merkle_path}
use dumbo_ms.Fin.Merkle.Levels.{last_root}
use dumbo_ms.Fin.ReedSolomon.{Coding}
use dumbo_ms.Fin.RbcByShards.{Instance, send_echo, echo_of, handle_val}
use dumbo_ms.Fin.RbcByShards.Leader.{
  Sent, val_msg, sent_path, with_hashes, path_of, val_loop, with_root, with_shards, send_val,
}
use dumbo_ms.Fin.RbcByShards.Truthful.{Truthful}

to_all-entry :
    (n i : ℕ) (msg e : RbcMsg) → Memᴰ e (to_all n i msg) → e ≡ record msg { rcv_id = e.rcv_id }
to_all-entry zero i msg e m = elim m [ ]
to_all-entry (suc n) i msg e (Memᴰ.head h) =
    h ∙ ap (λ k. record msg { rcv_id = k }) (sym (ap (λ (x : RbcMsg). x.rcv_id) h))
to_all-entry (suc n) i msg e (Memᴰ.tail m) = to_all-entry n (i + 1) msg e m

module _ (coding : Coding) (c : Instance) (input root : Bytes) (shards : List Bytes) where
  -- A val message with the path of the shard of its receiver.
  record Proper (m : RbcMsg) : Type 0 where
    place : ℕ
    hashes : List Bytes
    inside : place < c.num
    receiver : m.rcv_id ≡ place + 1
    now : m.round ≡ c.height
    len : m.msglen ≡ length input
    values : m.values ≡ get_merkle_path hashes root (get_or shards place [])

  abbrev AllProper : Sent → Type 0
  AllProper s = (m : RbcMsg) → Memᴰ m s.messages → Proper m

  -- What a path is that the loop has found.
  abbrev Found : ℕ → Option (List Bytes) → Type 0
  Found i none = Unit
  Found i (some path) =
      (hashes : List Bytes) × (path ≡ get_merkle_path hashes root (get_or shards i []))

  with_hashes-Found :
      (i : ℕ) (shard : Bytes) (o : Option (List Bytes))
      → shard ≡ get_or shards i []
      → Found i (with_hashes coding c root shard o)
  with_hashes-Found i shard none e = tt
  with_hashes-Found i shard (some hashes) e = (hashes, ap (get_merkle_path hashes root) e)

  entry_at :
      (ss : List Bytes) (i : ℕ) (shard : Bytes)
      → get_elem? ss i ≡ some shard
      → shard ≡ get_or ss i []
  entry_at [] i shard e = absurd (none-ne-some shard e)
  entry_at (s ∷ ss) zero shard e = sym (some-injective s shard e)
  entry_at (s ∷ ss) (suc i) shard e = entry_at ss i shard e

  path_of-Found :
      (i : ℕ) (o : Option Bytes) → get_elem? shards i ≡ o → Found i (path_of coding c shards root o)
  path_of-Found i none e = tt
  path_of-Found i (some shard) e =
      with_hashes-Found i shard (coding.merkle_hashes shards shard) (entry_at shards i shard e)

  sent_path-AllProper :
      (i : ℕ) (path : List Bytes) (s : Sent)
      → i < c.num
      → Found i (some path)
      → AllProper s
      → AllProper (sent_path coding c (length input) i path s)
  sent_path-AllProper i path s small found h m k = elim (Bool-cases (i + 1 == c.nid)) [
    | inl own ↦ h m (
        subst
          (λ (b : Bool).
            Memᴰ m
              (if b then record s { mypath = path } else record s {
                messages = s.messages ++ (val_msg coding c (length input) i path ∷ []);
              }).messages)
          own k)
    | inr other ↦ added (
        subst
          (λ (b : Bool).
            Memᴰ m
              (if b then record s { mypath = path } else record s {
                messages = s.messages ++ (val_msg coding c (length input) i path ∷ []);
              }).messages)
          other k)
  ]
    where
      fresh : Proper (val_msg coding c (length input) i path)
      fresh = record {
        place = i;
        hashes = found.0;
        inside = small;
        receiver = refl;
        now = refl;
        len = refl;
        values = found.1;
      }

      added : Memᴰ m (s.messages ++ (val_msg coding c (length input) i path ∷ [])) → Proper m
      added k = elim (Memᴰ.append_cases s.messages k) [
        | inl old ↦ h m old
        | inr (Memᴰ.head e) ↦ subst Proper (sym e) fresh
        | inr (Memᴰ.tail none_left) ↦ elim none_left [ ]
      ]

  abbrev val_rest : ℕ → ℕ → Sent → Option (List Bytes) → Option Sent
  val_rest rounds i s o = elim o [
    | none ↦ none
    | some path ↦
        val_loop coding c (length input) shards root rounds (i + 1)
          (sent_path coding c (length input) i path s)
  ]

  val_loop-AllProper :
      (rounds i : ℕ) (s t : Sent)
      → i + rounds ≤ c.num
      → AllProper s
      → val_loop coding c (length input) shards root rounds i s ≡ some t
      → AllProper t
  unfolding val_loop
  val_loop-AllProper zero i s t few h e = subst AllProper (some-injective s t e) h
  val_loop-AllProper (suc rounds) i s t few h e =
      elim (Option-cases (path_of coding c shards root (get_elem? shards i))) [
        | inl ends ↦ absurd (none-ne-some t (sym (ap (val_rest rounds i s) ends) ∙ e))
        | inr (path, goes) ↦
            val_loop-AllProper rounds (i + 1) (sent_path coding c (length input) i path s) t
              (omega arith)
              (sent_path-AllProper i path s (omega arith)
                (subst (Found i) goes (path_of-Found i (get_elem? shards i) refl)) h)
              (sym (ap (val_rest rounds i s) goes) ∙ e)
      ]

  send_val-AllProper :
      (t : Sent)
      → coding.encode (c.threshold + 1) c.num input ≡ some shards
      → coding.merkle_root shards ≡ some root
      → send_val coding c input ≡ some t
      → AllProper t
  unfolding send_val
  send_val-AllProper t encoded rooted e =
      val_loop-AllProper c.num 0 (record { mypath = []; messages = [] }) t (omega arith)
        (λ m none_yet. elim none_yet [ ])
        (sym (
            ap (with_shards coding c (length input)) encoded
            ∙ ap (with_root coding c (length input) shards) rooted)
          ∙ e)

-- What a follower answers to a val message.
echoes-Truthful :
    (coding : Coding) (c f : Instance) (input root : Bytes) (shards : List Bytes) (m e : RbcMsg)
    → Proper coding c input root shards m
    → f.nid ≡ m.rcv_id
    → f.height ≡ c.height
    → f.num ≡ c.num
    → Memᴰ e (send_echo coding f m.msglen m.values)
    → Truthful f input root shards e
unfolding send_echo
echoes-Truthful coding c f input root shards m e p here height num k =
    let same =
      to_all-entry f.num 0
        (record {
          id = f.nid;
          rcv_id = 0;
          leader = f.lid;
          round = f.height;
          msg_type = 2;
          msglen = m.msglen;
          root = [];
          values = m.values;
        })
        e k in
    let id : e.id ≡ p.place + 1 = ap (λ (x : RbcMsg). x.id) same ∙ here ∙ p.receiver in
    let place : p.place ≡ e.id - 1 = omega arith in
    record {
      now = ap (λ (x : RbcMsg). x.round) same;
      above = omega arith;
      below = omega (arith, p.inside, num);
      len = ap (λ (x : RbcMsg). x.msglen) same ∙ p.len;
      path = p.hashes ++ (root ∷ []);
      values =
          ap (λ (x : RbcMsg). x.values) same
          ∙ p.values
          ∙ ap (λ i. get_merkle_path p.hashes root (get_or shards i [])) place;
      ends = last_root (λ x. x) p.hashes (get_or shards (e.id - 1) []) root;
    }

-- When a leader, whose input is encoded to shards with a root, has sent its val messages, every echo
-- with which a follower of the same height and number of nodes answers the one for it is the echo of
-- the shard that belongs to the follower, under that root.
pub send_val-Truthful :
    (coding : Coding) (c f : Instance) (input root : Bytes) (shards : List Bytes) (t : Sent)
    (m e : RbcMsg) (es : List RbcMsg)
    → coding.encode (c.threshold + 1) c.num input ≡ some shards
    → coding.merkle_root shards ≡ some root
    → send_val coding c input ≡ some t
    → Memᴰ m t.messages
    → f.nid ≡ m.rcv_id
    → f.height ≡ c.height
    → f.num ≡ c.num
    → handle_val coding f m ≡ some es
    → Memᴰ e es
    → Truthful f input root shards e
unfolding handle_val
send_val-Truthful coding c f input root shards t m e es encoded rooted sent k here height num
      answers l =
    let p = send_val-AllProper coding c input root shards t encoded rooted sent m k in
    let same : (m.round == f.height) ≡ true = ground (arith, p.now, height) in
    let echoed : handle_val coding f m ≡ some (send_echo coding f m.msglen m.values) = rw same (
      ap (echo_of coding f m.msglen) p.values
      ∙ sym (ap (λ v. some (send_echo coding f m.msglen v)) p.values)) in
    echoes-Truthful coding c f input root shards m e p here height num (
      subst (Memᴰ e)
        (sym (some-injective (send_echo coding f m.msglen m.values) es (sym echoed ∙ answers))) l)
