-- ===== src/Fin/Tests/Broadcasts.antt =====
-- A broadcast with a finish message among four nodes, of which the fourth is faulty.
use mathlib.Core.List.{Memᴰ}
use dumbo_ms.Prelude.{ℕ, Bool, true, arith, ◌≡◌, refl, sym, subst, List, [], ◌∷◌, ◌++◌}
use dumbo_ms.Fin.Messages.{Bytes, count_up}
use dumbo_ms.Fin.RbcWithFinish.Network.{System, Reach, node_receives, node_sends_ready, first_sent}
use dumbo_ms.Fin.RbcWithFinish.Votes.{readies, outputs}
use dumbo_ms.Fin.RbcWithFinish.Agreement.{outputs-agree}
use dumbo_ms.Fin.RbcWithFinish.Validity.{four, run-another}
use dumbo_ms.Fin.RbcWithFinish.Schedule.{Action, take_in, ready_on, Run, run}

-- The three honest nodes' messages of one type, taken in by node i.
abbrev three : ℕ → ℕ → List Action
three t i = take_in 1 t i ∷ take_in 2 t i ∷ take_in 3 t i ∷ []

abbrev echoes : List Action
echoes = take_in 1 1 2 ∷ take_in 1 1 3 ∷ (three 2 1 ++ three 2 2 ++ three 2 3)

abbrev accepts_all : ℕ → Bytes → Bool
accepts_all i value = true

abbrev another : Bytes
another = 9 ∷ []

abbrev all_ready : Run (four accepts_all (7 ∷ []))
all_ready =
    run (four accepts_all (7 ∷ []))
      (echoes ++ (ready_on 1 ∷ ready_on 2 ∷ ready_on 3 ∷ []) ++ three 3 2 ++ three 3 3)

-- Followers 2 and 3 put the value out.
all_ready_run :
    (outputs readies (all_ready.last.node 2) ≡ (7 ∷ []) ∷ [])
    × (outputs readies (all_ready.last.node 3) ≡ (7 ∷ []) ∷ [])
unfolding run node_sends_ready first_sent node_receives count_up
all_ready_run = (refl, refl)

outputs-agree_example : ◌≡◌ {A = Bytes} (7 ∷ []) (7 ∷ [])
outputs-agree_example =
    outputs-agree (four accepts_all (7 ∷ [])) 1 readies refl (omega arith) all_ready.reach 2 3
      (7 ∷ []) (7 ∷ []) (subst (Memᴰ (7 ∷ [])) (sym all_ready_run.0) (Memᴰ.head refl))
      (subst (Memᴰ (7 ∷ [])) (sym all_ready_run.1) (Memᴰ.head refl))

run-another_example :
    (s : System) × Reach (four accepts_all (7 ∷ [])) s
    × (outputs readies (s.node 2) ≡ another ∷ [])
    × (outputs readies (s.node 3) ≡ another ∷ [])
run-another_example = run-another accepts_all (7 ∷ []) another refl refl
