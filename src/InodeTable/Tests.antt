-- ===== src/InodeTable/Tests.antt =====
-- A table of numbers, each its own key, with two chains.
use dpfs.InodeTable.Refinement.{
  TableOp, get, getsert, remove, AreProper, run_ops, spec_ops, table-refines,
}
use dpfs.Prelude.{List, ◌∷◌, ℕ, ◌≡◌, refl, none, some, [], arith, sym}
use mathlib.Core.Option.{some-injective}
use dpfs.InodeTable.{Table, table_init, table_get, table_insert}
use dpfs.InodeTable.Laws.{IsTable, table_get-init}
use dpfs.InodeTable.Invariant.{init-IsTable, insert-IsTable}

abbrev itself : ℕ → ℕ
itself k = k

abbrev two_chains : Table ℕ
two_chains = table_init 2

two_chains-IsTable : IsTable itself two_chains
two_chains-IsTable = init-IsTable itself 2 (omega arith)

-- 4 and 6 are in one chain.
abbrev one_entry : Table ℕ
one_entry = table_insert itself two_chains 4 []

one_entry-IsTable : IsTable itself one_entry
one_entry-IsTable =
    insert-IsTable itself two_chains 4 (table_get-init itself 2 4) two_chains-IsTable

abbrev two_entries : Table ℕ
two_entries = table_insert itself one_entry 6 []

six-fresh : table_get itself one_entry 6 ≡ none
unfolding table_get table_insert table_init
six-fresh = refl

two_entries-IsTable : IsTable itself two_entries
two_entries-IsTable = insert-IsTable itself one_entry 6 six-fresh one_entry-IsTable

-- 4 is put in twice and taken out.
abbrev in_and_out : List (TableOp ℕ)
in_and_out = getsert 4 (some 4) ∷ getsert 4 (some 4) ∷ remove 4 ∷ get 4 ∷ []

in_and_out-AreProper : AreProper itself in_and_out
in_and_out-AreProper =
    (λ i e. sym (some-injective 4 i e), ((λ i e. sym (some-injective 4 i e)), (tt, (tt, tt))))

table-refines_example :
    ((run_ops itself two_chains in_and_out).0 ≡ some 4 ∷ some 4 ∷ some 4 ∷ none ∷ [])
    × ((k : ℕ)
        → table_get itself (run_ops itself two_chains in_and_out).1 k
          ≡ (spec_ops itself (λ j. none) in_and_out).1 k)
table-refines_example = table-refines itself 2 in_and_out (omega arith) in_and_out-AreProper
