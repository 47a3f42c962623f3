-- ===== src/Trace/Program/Ends.antt =====
-- The fuel for the building of all threads of a program, which src/Trace/ThreadTrace.cpp begins.
use open_race.Prelude.{ℕ, suc, ◌+◌, ◌*◌, ◌<◌, true, List, [], ◌≡◌, ◌≢◌, length, arith}
use native.Mathlib.Nat.{mul-le-mul_right}
use open_race.Trace.Build.States.{contains}
use open_race.Trace.Build.{Answers, build_trace}
use open_race.Trace.Build.States.{out_of_fuel}
use open_race.Trace.Build.Budget.{unseen_le, budget}
use open_race.Trace.Build.Halts.{bind-halts, done-halts, build_trace-halts}
use open_race.Trace.Program.{main_state, main_thread}

-- Where each function of a call graph node is one of finitely many functions, f of them, the building
-- of all threads of the program ends: a fuel above f * (f + 1) + f is enough for its nested calls and
-- threads.
pub main_thread-halts :
    (a : Answers) (funcs : List ℕ)
    → ((node : ℕ) → contains (a.function_of node) funcs ≡ true)
    → (fuel entry : ℕ) → length funcs * suc (length funcs) + length funcs < fuel
    → main_thread a fuel entry ≢ out_of_fuel
unfolding main_thread budget
main_thread-halts a funcs every fuel entry enough =
    bind-halts (build_trace a fuel entry main_state) _
      (build_trace-halts a funcs every fuel entry main_state (
        omega (
          arith,
          enough,
          unseen_le funcs [],
          mul-le-mul_right (suc (length funcs)) (unseen_le funcs []),
        )))
      (λ t e. done-halts _)
