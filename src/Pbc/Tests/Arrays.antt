-- ===== src/Pbc/Tests/Arrays.antt =====
-- The arrays of misc/darray.c and the tables of misc/symtab.c on small inputs.
use dumbo_ms.Prelude.{
  ℕ, ◌≡◌, refl, arith, true, some, List, [], ◌∷◌, get_elem?, ◌==◌, if◌then◌else◌, leb, nat_eq,
}
use dumbo_ms.Pbc.Darray
use dumbo_ms.Pbc.Darray.{Darray, find_from, forall_from}
use dumbo_ms.Pbc.Darray.Blocks.{erase_first}
use dumbo_ms.Pbc.Darray.Refine.{Holds, init-Holds, append-Holds, at-Holds, copy-Holds}
use dumbo_ms.Pbc.Darray.Search.{remove-Holds}
use dumbo_ms.Pbc.Darray.Script.{Op, push, delete, delete_if, duplicate, run, run_list, run_refines}
use dumbo_ms.Pbc.Symtab
use dumbo_ms.Pbc.Symtab.{Symtab, Entry}
use dumbo_ms.Pbc.Symtab.Laws.{insert, lookup, is_some, at-put, at-lookup, put-Holds}

abbrev three : Darray ℕ
three = Darray.append (Darray.append (Darray.append Darray.init 5) 6) 7

abbrev values : List ℕ
values = 5 ∷ 6 ∷ 7 ∷ []

three-Holds : Holds three values
three-Holds = append-Holds 7 (append-Holds 6 (append-Holds 5 init-Holds))

abbrev script : List (Op ℕ)
script = push 8 ∷ delete 6 ∷ duplicate ∷ delete_if (λ x. leb 8 x) ∷ []

script_runs : run_list script values ≡ 5 ∷ 7 ∷ []
script_runs = refl

script_reads : Darray.at (run script three) 1 ≡ some 7
unfolding run Darray.at Darray.append Darray.remove Darray.remove_with_test Darray.copy Darray.init
script_reads = refl

run_refines_example : Darray.at (run script three) 1 ≡ get_elem? (run_list script values) 1
run_refines_example = run_refines script three-Holds 1 (omega arith)

at-Holds_example : Darray.at three 2 ≡ get_elem? values 2
at-Holds_example = at-Holds 2 three-Holds (omega arith)

remove-Holds_example : Holds (Darray.remove three 6) (erase_first (λ x. x == 6) values)
remove-Holds_example = remove-Holds 6 three-Holds

copy-Holds_example : Holds (Darray.copy Darray.init three) values
copy-Holds_example = copy-Holds Darray.init three-Holds

abbrev table : Symtab ℕ ℕ
table = Symtab.put (Symtab.put Symtab.init 10 1) 20 2

abbrev entries : List (Entry ℕ ℕ)
entries = insert 20 2 (insert 10 1 [])

fresh-Holds : Holds (Symtab.init {K = ℕ} {D = ℕ}).list []
unfolding Symtab.init
fresh-Holds = init-Holds

table-Holds : Holds (table).list entries
table-Holds =
    put-Holds {t = Symtab.put Symtab.init 10 1} 20 2 (put-Holds {t = Symtab.init} 10 1 fresh-Holds)

at-put_example :
    (Symtab.at (Symtab.put table 30 1) 2 ≡ (if 1 == 2 then some 30 else Symtab.at table 2))
    × (Symtab.has (Symtab.put table 30 1) 2 ≡ (if 1 == 2 then true else Symtab.has table 2))
at-put_example = at-put {t = table} 30 1 2 table-Holds

at-lookup_example :
    (Symtab.at table 2 ≡ lookup 2 entries) × (Symtab.has table 2 ≡ is_some (lookup 2 entries))
at-lookup_example = at-lookup {t = table} 2 table-Holds
