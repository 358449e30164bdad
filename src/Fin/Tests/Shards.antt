-- ===== src/Fin/Tests/Shards.antt =====
-- A broadcast by shards among four nodes with a code that repeats the message, and Merkle paths.
use mathlib.Core.List.{Memᴰ}
use mathlib.Core.Option.{some-injective}
use dumbo_ms.Prelude.{
  ℕ, zero, suc, ◌-◌, ◌≤◌, ◌≡◌, refl, sym, ap, ap₂, ◌∙◌, arith, inl, inr, ◌⊎◌, true, List, [], ◌∷◌,
  ◌++◌, map, some, none, length, get_or, replicate, take, length-take, length-append,
}
use dumbo_ms.Fin.Messages.{Bytes, bytes_equal, RbcMsg}
use dumbo_ms.Fin.Merkle.{get_merkle_path, verify_path}
use dumbo_ms.Fin.Merkle.Levels.{top, neighbours, verify_path-top}
use dumbo_ms.Fin.Merkle.Binding.{Collision, verify_path-binds}
use dumbo_ms.Fin.ReedSolomon.{Coding, collect}
use dumbo_ms.Fin.ReedSolomon.Prefix.{collect-message}
use dumbo_ms.Fin.RbcByShards.{
  Instance, Follower, new_follower, handle_val, echo_loop, send_echo, start_output, puts_out,
}
use dumbo_ms.Fin.RbcByShards.Leader.{Sent, send_val}
use dumbo_ms.Fin.RbcByShards.Truthful.{Partial, Truthful}
use dumbo_ms.Fin.RbcByShards.Stages.{Promises}
use dumbo_ms.Fin.RbcByShards.Echoes.{echo_loop-quorum}
use dumbo_ms.Fin.RbcByShards.Forged.{Forgery, Detected, echo_loop-forged}
use dumbo_ms.Fin.RbcByShards.Validity.{Echoed, broadcast-output}

collect-message_example : collect ((1 ∷ 2 ∷ []) ∷ (3 ∷ 0 ∷ []) ∷ []) 3 3 [] ≡ some (1 ∷ 2 ∷ 3 ∷ [])
collect-message_example =
    collect-message ((1 ∷ 2 ∷ []) ∷ (3 ∷ 0 ∷ []) ∷ []) (1 ∷ 2 ∷ 3 ∷ []) (0 ∷ [])
      (omega arith, (omega arith, tt)) refl

-- The first 32 bytes, with zeros where there are fewer.
digest : Bytes → Bytes
digest x = take 32 (x ++ replicate 32 0)

length-digest : (x : Bytes) → length (digest x) ≡ 32
unfolding digest
length-digest x =
    omega (arith, length-take 32 (x ++ replicate 32 0), length-append x (replicate 32 0))

abbrev three_shards : List Bytes
three_shards = (1 ∷ []) ∷ (2 ∷ []) ∷ (3 ∷ []) ∷ []

verify_path-top_example :
    verify_path digest
      (top digest 2 (map digest three_shards))
      (get_merkle_path
        (neighbours digest 2 (map digest three_shards) 2)
        (top digest 2 (map digest three_shards))
        (3 ∷ []))
      2
    ≡ true
verify_path-top_example = verify_path-top digest 1 three_shards 2 (omega arith) (omega arith)

abbrev short_path : Bytes → List Bytes
short_path x = digest x ∷ digest (digest x ++ digest x) ∷ []

short_accepted :
    verify_path digest
      (digest (digest (5 ∷ []) ++ digest (5 ∷ [])))
      ((5 ∷ []) ∷ short_path (5 ∷ []))
      0
    ≡ true
unfolding verify_path digest bytes_equal
short_accepted = refl

abbrev five : Bytes
five = 5 ∷ []

verify_path-binds_example : (five ≡ five) ⊎ Collision digest
verify_path-binds_example =
    verify_path-binds digest length-digest (digest (digest (5 ∷ []) ++ digest (5 ∷ []))) (5 ∷ [])
      (5 ∷ []) (short_path (5 ∷ [])) (short_path (5 ∷ [])) 0 refl short_accepted short_accepted

-- Every shard is the message 7; what is missing is filled in, and the root is the first shard.
abbrev filled_in : Bytes → Bytes
filled_in [] = 7 ∷ []
filled_in (x ∷ s) = x ∷ s

abbrev repeats : Coding
repeats = record {
  encode = λ k n msg. some (replicate n msg);
  rebuild = λ k n given. some (map filled_in given);
  merkle_root = λ ss. some (get_or ss 0 []);
  merkle_hashes = λ ss s. some ((1 ∷ []) ∷ []);
}

abbrev four : ℕ → Instance
four nid = record { nid = nid; lid = 1; num = 4; threshold = 1; height = 5 }

abbrev sevens : ℕ → List Bytes
sevens n = replicate n (7 ∷ [])

fill_one : (g : Bytes) → (g ≡ []) ⊎ (g ≡ 7 ∷ []) → filled_in g ≡ 7 ∷ []
fill_one g (inl e) = ap filled_in e
fill_one g (inr e) = ap filled_in e

fill_all : (n : ℕ) (given : List Bytes) → Partial given (sevens n) → map filled_in given ≡ sevens n
fill_all zero [] p = refl
fill_all zero (g ∷ gs) p = absurd (let h = p.0 in omega arith)
fill_all (suc n) [] p = absurd (let h = p.0 in omega arith)
fill_all (suc n) (g ∷ gs) p =
    ap₂ (λ x xs. x ∷ xs) (fill_one g (p.1 0))
      (fill_all n gs (let h = p.0 in omega arith, λ j. p.1 (suc j)))

repeats_promises :
    (c : Instance) → c.num ≡ 4 → Promises repeats c (7 ∷ []) (7 ∷ []) (7 ∷ 7 ∷ 7 ∷ []) (sevens 4)
repeats_promises c e = record {
  sizes = sym e;
  filled = (omega arith, (omega arith, (omega arith, (omega arith, tt))));
  begins = refl;
  roots = refl;
  rebuilds = λ given p enough. ap some (fill_all 4 given p);
}

abbrev echo_from : ℕ → Bytes → RbcMsg
echo_from id shard = record {
  id = id;
  rcv_id = 2;
  leader = 1;
  round = 5;
  msg_type = 2;
  msglen = 1;
  root = [];
  values = shard ∷ (1 ∷ []) ∷ (7 ∷ []) ∷ [];
}

true_echo :
    (id : ℕ)
    → 1 ≤ id
    → id ≤ 4
    → get_or (sevens 4) (id - 1) [] ≡ 7 ∷ []
    → Truthful (four 2) (7 ∷ []) (7 ∷ []) (sevens 4) (echo_from id (7 ∷ []))
true_echo id low high same = record {
  now = refl;
  above = low;
  below = high;
  len = refl;
  path = (1 ∷ []) ∷ (7 ∷ []) ∷ [];
  values = ap (λ s. s ∷ (1 ∷ []) ∷ (7 ∷ []) ∷ []) (sym same);
  ends = refl;
}

echo_loop-quorum_example :
    (t : Follower) × (echo_loop repeats
        (four 2)
        (echo_from 3 (7 ∷ []) ∷ echo_from 1 (7 ∷ []) ∷ echo_from 4 (7 ∷ []) ∷ [])
        new_follower
      ≡ some t)
    × (t.candidates ≡ record { root = 7 ∷ []; output = 7 ∷ [] } ∷ [])
    × (t.readysignal ≡ (7 ∷ []) ∷ [])
    × (start_output (record t { outputsignal = (7 ∷ []) ∷ [] }) ≡ puts_out (7 ∷ []))
echo_loop-quorum_example =
    echo_loop-quorum repeats (four 2) (7 ∷ []) (7 ∷ []) (7 ∷ 7 ∷ 7 ∷ []) (sevens 4)
      (repeats_promises (four 2) refl) (echo_from 3 (7 ∷ []))
      (echo_from 1 (7 ∷ []) ∷ echo_from 4 (7 ∷ []) ∷ []) []
      (
        true_echo 3 (omega arith) (omega arith) refl,
        (
          true_echo 1 (omega arith) (omega arith) refl,
          (true_echo 4 (omega arith) (omega arith) refl, tt),
        ),
      )
      (((λ e. omega arith), ((λ e. omega arith), tt)), (((λ e. omega arith), tt), (tt, tt))) refl
      (omega arith)

forged : Forgery (four 2) (7 ∷ []) (9 ∷ []) (echo_from 1 (9 ∷ []))
forged = record {
  now = refl;
  above = omega arith;
  below = omega arith;
  path = (1 ∷ []) ∷ (7 ∷ []) ∷ [];
  values = refl;
  ends = refl;
}

first_filled :
    (given full : List Bytes)
    → get_or given 0 [] ≡ 9 ∷ []
    → map filled_in given ≡ full
    → get_or full 0 [] ≡ 9 ∷ []
first_filled [] full e h = absurd (ground arith)
first_filled (g ∷ gs) full e h = ap (λ ss. get_or ss 0 []) (sym h) ∙ ap filled_in e

forged-Detected :
    Detected repeats
      (four 2)
      (7 ∷ [])
      (7 ∷ [])
      (7 ∷ 7 ∷ 7 ∷ [])
      (sevens 4)
      (repeats_promises (four 2) refl)
      1
      (9 ∷ [])
forged-Detected given full e h same =
    let first = first_filled given full e (some-injective (map filled_in given) full h) in
    let root = some-injective (get_or full 0 []) (7 ∷ []) same in
    let nine : ◌≡◌ {A = ℕ} 9 7 = ap (λ b. get_or b 0 0) (sym first ∙ root) in omega arith

echo_loop-forged_example :
    echo_loop repeats (four 2) (echo_from 3 (7 ∷ []) ∷ echo_from 1 (9 ∷ []) ∷ []) new_follower
    ≡ none
echo_loop-forged_example =
    echo_loop-forged repeats (four 2) (7 ∷ []) (7 ∷ []) (7 ∷ 7 ∷ 7 ∷ []) (sevens 4)
      (repeats_promises (four 2) refl) (echo_from 3 (7 ∷ []) ∷ []) [] (echo_from 1 (9 ∷ []))
      (9 ∷ []) (true_echo 3 (omega arith) (omega arith) refl, tt) (tt, tt) refl (omega arith) forged
      forged-Detected

abbrev val_for : ℕ → RbcMsg
val_for i = record {
  id = 1;
  rcv_id = i;
  leader = 1;
  round = 5;
  msg_type = 3;
  msglen = 1;
  root = [];
  values = (7 ∷ []) ∷ (1 ∷ []) ∷ (7 ∷ []) ∷ [];
}

abbrev all_sent : Sent
all_sent = record {
  mypath = (7 ∷ []) ∷ (1 ∷ []) ∷ (7 ∷ []) ∷ [];
  messages = val_for 2 ∷ val_for 3 ∷ val_for 4 ∷ [];
}

sent_run : send_val repeats (four 1) (7 ∷ []) ≡ some all_sent
unfolding send_val
sent_run = refl

abbrev path_7 : List Bytes
path_7 = (7 ∷ []) ∷ (1 ∷ []) ∷ (7 ∷ []) ∷ []

answer_run :
    (id : ℕ)
    → handle_val repeats (four id) (val_for id) ≡ some (send_echo repeats (four id) 1 path_7)
unfolding handle_val
answer_run id = refl

-- The echo for the node 2.
second_echo : (id : ℕ) → Memᴰ (echo_from id (7 ∷ [])) (send_echo repeats (four id) 1 path_7)
unfolding send_echo
second_echo id = Memᴰ.tail (Memᴰ.head refl)

echoed :
    (id : ℕ)
    → Memᴰ (val_for id) all_sent.messages
    → Echoed repeats (four 1) all_sent (echo_from id (7 ∷ []))
echoed id sent = record {
  follower = four id;
  val = val_for id;
  echoes = send_echo repeats (four id) 1 path_7;
  sent = sent;
  here = refl;
  height = refl;
  num = refl;
  answers = answer_run id;
  one = second_echo id;
}

broadcast-output_example :
    (s : Follower) × (echo_loop repeats
        (four 2)
        (echo_from 3 (7 ∷ []) ∷ echo_from 2 (7 ∷ []) ∷ echo_from 4 (7 ∷ []) ∷ [])
        new_follower
      ≡ some s)
    × (s.candidates ≡ record { root = 7 ∷ []; output = 7 ∷ [] } ∷ [])
    × (s.readysignal ≡ (7 ∷ []) ∷ [])
    × (start_output (record s { outputsignal = (7 ∷ []) ∷ [] }) ≡ puts_out (7 ∷ []))
broadcast-output_example =
    broadcast-output repeats (four 1) (four 2) (7 ∷ []) (7 ∷ []) (7 ∷ 7 ∷ 7 ∷ []) (sevens 4)
      all_sent refl (repeats_promises (four 2) refl) sent_run refl refl (echo_from 3 (7 ∷ []))
      (echo_from 2 (7 ∷ []) ∷ echo_from 4 (7 ∷ []) ∷ []) []
      (
        echoed 3 (Memᴰ.tail (Memᴰ.head refl)),
        (echoed 2 (Memᴰ.head refl), (echoed 4 (Memᴰ.tail (Memᴰ.tail (Memᴰ.head refl))), tt)),
      )
      (((λ e. omega arith), ((λ e. omega arith), tt)), (((λ e. omega arith), tt), (tt, tt))) refl
      (omega arith)
