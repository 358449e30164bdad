-- ===== src/Fin/Tests/Repetitions.antt =====
-- Ready messages that one sender repeats, and a leader among three nodes.
use dumbo_ms.Prelude.{ℕ, List, arith, ◌≤◌, ◌≡◌, true, refl, [], ◌∷◌, replicate}
use dumbo_ms.Fin.Messages.{RbcMsg, bytes_equal}
use dumbo_ms.Fin.RbcWithFinish.{Broadcast, new_broadcast, new_follower, ready_loop}
use dumbo_ms.Fin.RbcWithFinish.Leader.{new_leader, receive_all}
use dumbo_ms.Fin.RbcWithFinish.Repeats.{ready_loop-repeated, receive_all-silent}
use dumbo_ms.Fin.RbcWithFinish.Quorums.{votes_in, ready_loop-quorum}

abbrev among_four : Broadcast
among_four = record { nid = 2; lid = 1; num = 4; threshold = 1; round = 5 }

-- A ready message of node 4.
abbrev ready_of_four : RbcMsg
ready_of_four = record {
  id = 4;
  rcv_id = 2;
  leader = 1;
  round = 5;
  msg_type = 3;
  msglen = 0;
  root = 9 ∷ [];
  values = [];
}

ready_loop-repeated_example :
    (ready_loop among_four (replicate 3 ready_of_four) new_follower).output1signal ≡ (9 ∷ []) ∷ []
ready_loop-repeated_example = ready_loop-repeated among_four ready_of_four refl

-- Three ready messages for one value among others.
abbrev ready_for : ℕ → List ℕ → RbcMsg
ready_for i value = record ready_of_four { id = i; root = value }

abbrev queue : List RbcMsg
queue =
    ready_for 1 (9 ∷ []) ∷ ready_for 4 (8 ∷ []) ∷ ready_for 2 (9 ∷ []) ∷ ready_for 3 (9 ∷ []) ∷ []

three_votes : 3 ≤ votes_in among_four (9 ∷ []) queue
unfolding bytes_equal
three_votes = omega arith

ready_loop-quorum_example :
    (u : List ℕ) × ((ready_loop among_four queue new_follower).output1signal ≡ u ∷ [])
    × ((ready_loop among_four queue new_follower).ready.returned ≡ true)
ready_loop-quorum_example = ready_loop-quorum among_four (9 ∷ []) queue three_votes

receive_all-silent_example :
    ((receive_all
        (new_broadcast 1 1 5 3)
        (ready_of_four ∷ ready_of_four ∷ [])
        (new_leader (9 ∷ []))).output1signal
      ≡ 0)
    × ((receive_all
          (new_broadcast 1 1 5 3)
          (ready_of_four ∷ ready_of_four ∷ [])
          (new_leader (9 ∷ []))).output2signal
        ≡ 0)
receive_all-silent_example =
    receive_all-silent 1 1 5 3 (9 ∷ []) (ready_of_four ∷ ready_of_four ∷ []) (omega arith)
