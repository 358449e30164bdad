-- ===== src/Net/Messages/Model.antt =====
-- A sort that meets the interface: insertion.
use mathlib.Core.List.{Permᴰ}
use mathlib.Core.List.Permᴰ
use dumbo_ms.Prelude.{refl, arith, tests, Bool-cases, inl, inr, List, [], ◌∷◌, if◌then◌else◌}
use dumbo_ms.Prelude.Int.{ltb_ℤ, ◌≤ℤ◌}
use dumbo_ms.Net.Messages.{ConsMsg, Least, IsSorted, Sort}

insert : ConsMsg → List ConsMsg → List ConsMsg
insert m [] = m ∷ []
insert m (x ∷ xs) =
    let rest = insert m xs in if ltb_ℤ x.priority m.priority then x ∷ rest else m ∷ x ∷ xs

unfoldable pub insertion_sort : List ConsMsg → List ConsMsg
unfolding insert
insertion_sort [] = []
insertion_sort (m ∷ ms) = insert m (insertion_sort ms)

Least-trans :
    (a b : ConsMsg) (ms : List ConsMsg) → a.priority ≤ℤ b.priority → Least b ms → Least a ms
Least-trans a b [] h l = l
Least-trans a b (x ∷ xs) h l = (omega arith, Least-trans a b xs h l.1)

insert-Least :
    (a m : ConsMsg) (ms : List ConsMsg)
    → a.priority ≤ℤ m.priority
    → Least a ms
    → Least a (insert m ms)
unfolding insert
insert-Least a m [] h l = (h, l)
insert-Least a m (x ∷ xs) h l = elim (Bool-cases (ltb_ℤ x.priority m.priority)) [
  | inl e ↦ rw e (l.0, insert-Least a m xs h l.1)
  | inr e ↦ rw e (h, l)
]

insert-IsSorted : (m : ConsMsg) (ms : List ConsMsg) → IsSorted ms → IsSorted (insert m ms)
unfolding insert
insert-IsSorted m [] s = (s, s)
insert-IsSorted m (x ∷ xs) s = elim (Bool-cases (ltb_ℤ x.priority m.priority)) [
  | inl e ↦ rw e (insert-Least x m xs (omega tests) s.0, insert-IsSorted m xs s.1)
  | inr e ↦
      let low : m.priority ≤ℤ x.priority = ground arith in
      rw e ((low, Least-trans m x xs low s.0), s)
]

insert-perm : (m : ConsMsg) (ms : List ConsMsg) → Permᴰ (insert m ms) (m ∷ ms)
unfolding insert
insert-perm m [] = Permᴰ.refl (m ∷ [])
insert-perm m (x ∷ xs) = elim (Bool-cases (ltb_ℤ x.priority m.priority)) [
  | inl e ↦ rw e (Permᴰ.trans (Permᴰ.cons refl (insert-perm m xs)) (Permᴰ.swap refl refl))
  | inr e ↦ rw e (Permᴰ.refl (m ∷ x ∷ xs))
]

pub sort-IsSorted : (ms : List ConsMsg) → IsSorted (insertion_sort ms)
unfolding insertion_sort
sort-IsSorted [] = tt
sort-IsSorted (m ∷ ms) = insert-IsSorted m (insertion_sort ms) (sort-IsSorted ms)

pub sort-perm : (ms : List ConsMsg) → Permᴰ (insertion_sort ms) ms
unfolding insertion_sort
sort-perm [] = Permᴰ.nil
sort-perm (m ∷ ms) =
    Permᴰ.trans (insert-perm m (insertion_sort ms)) (Permᴰ.cons refl (sort-perm ms))

abbrev pub by_insertion : Sort
by_insertion = record {
  slice = insertion_sort;
  slice-IsSorted = sort-IsSorted;
  slice-perm = sort-perm;
}
