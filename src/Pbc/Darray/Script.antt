-- ===== src/Pbc/Darray/Script.antt =====
-- A client's calls of misc/darray.c in sequence, against the same calls on a list.
use dumbo_ms.Prelude.{ℕ, Bool, List, [], ◌∷◌, ◌++◌, Eq, ◌≡◌, ◌<◌, length, get_elem?}
use dumbo_ms.Pbc.Darray.{Darray, init, append, remove, remove_with_test, remove_all, copy, at}
use dumbo_ms.Pbc.Darray.Blocks.{erase_first}
use dumbo_ms.Pbc.Darray.Refine.{Holds, append-Holds, remove_all-Holds, copy-Holds, at-Holds}
use dumbo_ms.Pbc.Darray.Search.{remove-Holds, remove_with_test-Holds}

-- `duplicate` goes on with a fresh array into which the old one is copied.
pub data Op {ℓ} (A : Type ℓ) : Type ℓ where
  push : A → Op A
  delete : A → Op A
  delete_if : (A → Bool) → Op A
  wipe : Op A
  duplicate : Op A

module _ {ℓ} {A : Type ℓ} ⦃e : Eq A⦄ where
  unfoldable pub run : List (Op A) → Darray A → Darray A
  run [] a = a
  run (push p ∷ ops) a = run ops (append a p)
  run (delete p ∷ ops) a = run ops (remove a p)
  run (delete_if test ∷ ops) a = run ops (remove_with_test a test)
  run (wipe ∷ ops) a = run ops (remove_all a)
  run (duplicate ∷ ops) a = run ops (copy init a)

  abbrev pub run_list : List (Op A) → List A → List A
  run_list [] xs = xs
  run_list (push p ∷ ops) xs = run_list ops (xs ++ (p ∷ []))
  run_list (delete p ∷ ops) xs = run_list ops (erase_first (λ x. e.beq x p) xs)
  run_list (delete_if test ∷ ops) xs = run_list ops (erase_first test xs)
  run_list (wipe ∷ ops) xs = run_list ops []
  run_list (duplicate ∷ ops) xs = run_list ops xs

  run-Holds :
      (ops : List (Op A)) {a : Darray A} {xs : List A}
      → Holds a xs
      → Holds (run ops a) (run_list ops xs)
  unfolding run
  run-Holds [] h = h
  run-Holds (push p ∷ ops) h = run-Holds ops (append-Holds p h)
  run-Holds (delete p ∷ ops) h = run-Holds ops (remove-Holds p h)
  run-Holds (delete_if test ∷ ops) h = run-Holds ops (remove_with_test-Holds test h)
  run-Holds (wipe ∷ ops) {a} h = run-Holds ops (remove_all-Holds a)
  run-Holds (duplicate ∷ ops) h = run-Holds ops (copy-Holds init h)

  -- Whatever calls of append, remove, remove_with_test, remove_all and copy are made on an array
  -- that holds a list, each index in range then reads as in the list on which the same is done.
  pub run_refines :
      (ops : List (Op A)) {a : Darray A} {xs : List A}
      → Holds a xs
      → (i : ℕ) → i < length (run_list ops xs)
      → at (run ops a) i ≡ get_elem? (run_list ops xs) i
  run_refines ops h i lt = at-Holds i (run-Holds ops h) lt
