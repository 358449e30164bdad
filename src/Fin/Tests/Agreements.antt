-- ===== src/Fin/Tests/Agreements.antt =====
-- Binary agreement and the choice of a leader.
use mathlib.Core.List.{Memᴰ}
use dumbo_ms.Prelude.{ℕ, ◌≤◌, ◌<◌, arith, ◌≡◌, refl, Bool, true, false, List, [], ◌∷◌, ltb}
use dumbo_ms.Fin.Messages.{BaMsg}
use dumbo_ms.Fin.Senders.{passing_of}
use dumbo_ms.Fin.BinaryAgreement.{
  Signal, value1ready, aux0ready, auxmixready, value0ready, no_flags, wait, new_ba, new_finishes,
  finish_loop, handle_finish,
}
use dumbo_ms.Fin.BinaryAgreement.Waits.{after, enough, wait-enough}
use dumbo_ms.Fin.BinaryAgreement.Finish.{
  sender, any, for_value, finish_loop-silent, finish_loop-agree,
}
use dumbo_ms.Fin.BinaryAgreement.Handlers.{Quorums, handle_conf, conf_case, conf_loop}
use dumbo_ms.Fin.BinaryAgreement.Exclusion.{for_single, conf_loop-agree}
use dumbo_ms.Fin.Mvba.{common_coin, common_coin-bounds}

abbrev mixed : List Signal
mixed = auxmixready ∷ value1ready ∷ aux0ready ∷ value0ready ∷ []

wait-enough_example : wait mixed no_flags ≡ enough (after mixed no_flags)
wait-enough_example = wait-enough mixed

abbrev finish_of : ℕ → Bool → BaMsg
finish_of i b = record {
  id = i;
  rcv_id = 1;
  mvbaround = 5;
  baround = 0;
  loop = 0;
  msg_type = 4;
  value = b;
  conf_value = [];
}

finish_loop-silent_example :
    (finish_loop
      (new_ba 3 1 5 0)
      (finish_of 1 true ∷ finish_of 2 true ∷ finish_of 3 true ∷ [])
      new_finishes).output
    ≡ []
finish_loop-silent_example =
    finish_loop-silent 3 1 5 0 (finish_of 1 true ∷ finish_of 2 true ∷ finish_of 3 true ∷ [])
      (omega arith)

-- Node 4 is faulty and says the opposite to one node.
abbrev heard_by_one : List BaMsg
heard_by_one = finish_of 1 true ∷ finish_of 4 true ∷ finish_of 2 true ∷ []

abbrev heard_by_two : List BaMsg
heard_by_two = finish_of 4 false ∷ finish_of 3 true ∷ finish_of 2 true ∷ finish_of 1 true ∷ []

one_each : (j : ℕ) → passing_of sender any j heard_by_one ≤ 1
one_each j = grind arith

two_each : (j : ℕ) → passing_of sender any j heard_by_two ≤ 1
two_each j = grind arith

told_truly :
    (j : ℕ) (u v : Bool)
    → ltb j 4 ≡ true
    → 0 < passing_of sender (for_value u) j heard_by_one
    → 0 < passing_of sender (for_value v) j heard_by_two
    → u ≡ v
told_truly j u v h k l = ground arith

finish_loop-agree_example : ◌≡◌ {A = Bool} true true
unfolding finish_loop handle_finish new_ba
finish_loop-agree_example =
    finish_loop-agree 1 1 2 5 0 (λ j. ltb j 4) heard_by_one heard_by_two true true (omega arith)
      (omega arith, omega arith, (omega arith, omega arith, (omega arith, omega arith, tt)))
      (
        omega arith,
        omega arith,
        (omega arith, omega arith, (omega arith, omega arith, (omega arith, omega arith, tt))),
      )
      one_each two_each told_truly (Memᴰ.head refl) (Memᴰ.head refl)

abbrev conf_of : ℕ → Bool → Bool → BaMsg
conf_of i zero_in one_in = record (finish_of i one_in) {
  msg_type = 3;
  conf_value = zero_in ∷ one_in ∷ [];
}

-- Node 4 is faulty; node 3 has both values.
abbrev confs_of_one : List BaMsg
confs_of_one = conf_of 1 false true ∷ conf_of 4 false true ∷ conf_of 2 false true ∷ []

abbrev confs_of_two : List BaMsg
confs_of_two =
    conf_of 4 false true ∷ conf_of 3 true true ∷ conf_of 2 false true ∷ conf_of 1 false true ∷ []

confs_one_each : (j : ℕ) → passing_of sender any j confs_of_one ≤ 1
confs_one_each j = grind arith

confs_two_each : (j : ℕ) → passing_of sender any j confs_of_two ≤ 1
confs_two_each j = grind arith

confs_truly :
    (j : ℕ) (u v : Bool)
    → ltb j 4 ≡ true
    → 0 < passing_of sender (for_single 0 u) j confs_of_one
    → 0 < passing_of sender (for_single 0 v) j confs_of_two
    → u ≡ v
confs_truly j u v h k l = ground arith

abbrev three_confs : Quorums
three_confs = record { count0 = 0; count1 = 3; countmix = 3; ready0 = 0; ready1 = 1; readymix = 1 }

abbrev four_confs : Quorums
four_confs = record { count0 = 0; count1 = 3; countmix = 4; ready0 = 0; ready1 = 1; readymix = 1 }

conf_loop-agree_example : ◌≡◌ {A = Bool} true true
unfolding conf_loop handle_conf conf_case new_ba
conf_loop-agree_example =
    conf_loop-agree 1 1 2 5 0 0 (λ j. ltb j 4) confs_of_one confs_of_two true true three_confs
      four_confs (omega arith)
      (omega arith, omega arith, (omega arith, omega arith, (omega arith, omega arith, tt)))
      (
        omega arith,
        omega arith,
        (omega arith, omega arith, (omega arith, omega arith, (omega arith, omega arith, tt))),
      )
      confs_one_each confs_two_each confs_truly refl refl (omega arith) (omega arith)

common_coin-bounds_example :
    (1
      ≤ common_coin
          (λ xs. 200 ∷ xs)
          (record { node_num = 4; roundmvba = 5; roundba = 1; loop = 0 }))
    × (common_coin (λ xs. 200 ∷ xs) (record { node_num = 4; roundmvba = 5; roundba = 1; loop = 0 })
        ≤ 4)
    × (common_coin (λ xs. 200 ∷ xs) (record { node_num = 4; roundmvba = 5; roundba = 1; loop = 0 })
        ≤ 256)
common_coin-bounds_example =
    common_coin-bounds (λ xs. 200 ∷ xs)
      (record { node_num = 4; roundmvba = 5; roundba = 1; loop = 0 }) (λ xs. omega arith)
      (omega arith)
