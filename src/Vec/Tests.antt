-- ===== src/Vec/Tests.antt =====
-- Runs of the vector, and the theorems about it at concrete inputs.
use qbt.Prelude.{ℕ, ◌≡◌, refl, [], ◌∷◌, none, some, ok}
use qbt.Vec.{vec_create}
use qbt.Vec.Ops.{Op, append, insert, put, at, pop, run, run_list, Agrees, run-Agrees}
use qbt.Prelude.{List}

abbrev script : List (Op ℕ)
script = append 7 ∷ append 9 ∷ insert 8 1 ∷ put 0 6 ∷ at 2 ∷ pop ∷ insert 5 2 ∷ at 3 ∷ []

run-Agrees_example : Agrees (run script vec_create) (run_list script [])
run-Agrees_example = run-Agrees script

list_reads :
    run_list {A = ℕ} (append 7 ∷ append 9 ∷ insert 8 1 ∷ at 2 ∷ []) []
    ≡ ok (7 ∷ 8 ∷ 9 ∷ [], none ∷ none ∷ none ∷ some 9 ∷ [])
unfolding run_list
list_reads = refl
