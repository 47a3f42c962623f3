-- ===== src/Tests/Summaries.antt =====
-- The theorems on function summaries at a block with accesses, a lock and a parallel region.
use open_race.Prelude.{◌+◌, ℕ, true, false, none, some, List, [], ◌∷◌, ◌++◌, ◌≡◌, refl}
use open_race.Ir.{
  Ir, load, store, pthread_mutex_lock, openmp_fork, openmp_join, openmp_fork_teams,
  openmp_join_teams, call,
}
use open_race.Summary.{
  Inst, load_inst, store_inst, call_inst, other_inst, other_operand, only, forked,
  generate_function_summary,
}
use open_race.Summary.Accesses.{
  mem_accesses, accesses_of_blocks, generate_function_summary-accesses,
}
use open_race.Summary.Teams.{count_ir, generate_function_summary-joined}
use Prim.Native.String.{String}

abbrev pub call_of : ℕ → String → Inst
call_of i name = call_inst (record {
  inst = i;
  is_indirect = false;
  called = some (record {
    address = i + 100;
    name = some name;
    is_intrinsic = false;
    is_debug_info_for_profiling = false;
  });
  operand = other_operand;
})

abbrev block : List Inst
block =
    load_inst (record { inst = 1; is_atomic = false; is_volatile = false; global = none })
    ∷ call_of 2 "pthread_mutex_lock"
    ∷ store_inst (record { inst = 3; is_atomic = true; is_volatile = false; global = none })
    ∷ call_of 4 "__kmpc_fork_call"
    ∷ call_of 5 "__kmpc_fork_call"
    ∷ other_inst
    ∷ store_inst (record { inst = 7; is_atomic = false; is_volatile = false; global = some false })
    ∷ call_of 8 "printf"
    ∷ call_of 9 "work"
    ∷ []

abbrev summary : List Ir
summary =
    only load 1
    ++ only pthread_mutex_lock 2
    ++ forked true openmp_fork 4
    ++ only openmp_fork 5
    ++ only openmp_join 4
    ++ only openmp_join 5
    ++ only store 7
    ++ only call 9

block-summary : generate_function_summary (block ∷ []) ≡ some summary
unfolding generate_function_summary
block-summary = refl

generate_function_summary-accesses_example : mem_accesses summary ≡ accesses_of_blocks (block ∷ [])
generate_function_summary-accesses_example =
    generate_function_summary-accesses (block ∷ []) summary block-summary

generate_function_summary-joined_example :
    (count_ir openmp_fork 4 summary ≡ count_ir openmp_join 4 summary)
    × (count_ir openmp_fork_teams 4 summary ≡ count_ir openmp_join_teams 4 summary)
generate_function_summary-joined_example =
    generate_function_summary-joined (block ∷ []) summary 4 block-summary
