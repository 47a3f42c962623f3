-- ===== src/Trace/Program.antt =====
-- The threads of a program: the constructor of the main thread in src/Trace/ThreadTrace.cpp, and the
-- flat list of src/Trace/ProgramTrace.cpp.
pub mod Order
pub mod Lookup
pub mod Ends
use open_race.Prelude.{ℕ, zero, suc, ◌+◌, false, Option, none, some, List, [], ◌∷◌, ◌++◌, get_elem?}
use open_race.Trace.Event.{Event, Thread}
use open_race.Trace.Build.States.{
  Built, done, ◌>>=◌, Forest, no_threads, thread_with, OpenmpRuntime, State, finished,
}
use open_race.Trace.Build.{Answers, build_trace}

abbrev pub new_runtime : OpenmpRuntime
new_runtime = record {
  in_teams_region = false;
  in_single_region = false;
  master_regions = [];
  current_master_start = none;
  unjoined_tasks = [];
}

abbrev pub main_state : State
main_state = record {
  tid = 0;
  spawns = [];
  events = [];
  children = no_threads;
  skip_until = none;
  context = 0;
  callstack = [];
  program = record { summaries = []; current_tid = 0; in_parallel = false; runtime = new_runtime };
}

-- The main thread with the threads below it, from the entry node of the program.
unfoldable pub main_thread : Answers → ℕ → ℕ → Built (Thread × Forest)
main_thread a fuel entry = do t ← build_trace a fuel entry main_state; done (finished t, t.children)

-- The loop that pushes the child threads on the worklist, the last one first. The back of the
-- worklist is its head.
unfoldable pub push_children : Forest → List (Thread × Forest) → List (Thread × Forest)
push_children no_threads worklist = worklist
push_children (thread_with t below rest) worklist = (t, below) ∷ push_children rest worklist

-- The worklist loop; `none` means that the fuel ran out.
unfoldable pub flat_threads : ℕ → List (Thread × Forest) → List Thread → Option (List Thread)
unfolding push_children
flat_threads zero [] threads = some threads
flat_threads zero (_ ∷ _) threads = none
flat_threads (suc fuel) [] threads = some threads
flat_threads (suc fuel) ((t, below) ∷ worklist) threads =
    flat_threads fuel (push_children below worklist) (threads ++ t ∷ [])

unfoldable pub thread_count : Forest → ℕ
thread_count no_threads = 0
thread_count (thread_with t below rest) = suc (thread_count below + thread_count rest)

-- `ProgramTrace::threads`
unfoldable pub threads_of : Thread → Forest → Option (List Thread)
unfolding flat_threads thread_count
threads_of main below = flat_threads (suc (thread_count below)) ((main, below) ∷ []) []

-- `ProgramTrace::getEvent`, where both `at` find an element.
unfoldable pub get_event : List Thread → ℕ → ℕ → Option Event
get_event threads tid eid = elim (get_elem? threads tid) [
  | none ↦ none
  | some thread ↦ get_elem? thread.events eid
]
