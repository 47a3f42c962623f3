-- ===== src/Tests/Traces.antt =====
-- The theorems on traces at a program whose main function forks a thread, calls a function that reads
-- and joins the thread, which writes.
use open_race.Prelude.{
  ℕ, ◌==◌, if◌then◌else◌, true, false, none, some, List, [], ◌∷◌, ◌≡◌, ◌≢◌, ◌↔◌, refl, get_elem?,
  arith,
}
use open_race.Summary.{Inst, load_inst, store_inst, other_operand}
use open_race.Tests.Summaries.{call_of}
use open_race.Ir.{load, store, pthread_create, pthread_join}
use open_race.Trace.Event.{Thread, Event, read, write, fork, join, call, call_end}
use open_race.Trace.Build.States.{
  done, out_of_fuel, Forest, thread_with, no_threads, contains, State, push, pop, finished,
}
use open_race.Trace.Build.Runtime.{pre_visit, pre_fork, post_fork}
use open_race.Ir.{
  same_tag, is_read, is_write, is_fork, is_join, is_lock, is_unlock, is_barrier, is_call,
}
use open_race.Ir.Operands.{get_accessed_value, get_thread_entry, get_thread_handle, get_lock_value}
use open_race.Summary.{resolve_target_function, get_function_summary, find_summary}
use open_race.Prelude.{ℕ_discrete}
use open_race.Trace.Build.{Answers, entry_node, build_trace}
use open_race.Trace.Build.Grows.{ids, IsRange, IsBuilt, AllBuilt}
use open_race.Trace.Program.{main_state, main_thread, threads_of, get_event}
use open_race.Trace.Program.Order.{preorder, threads_of-preorder}
use open_race.Trace.Program.Lookup.{main_thread-IsBuilt, get_event-pid}
use open_race.Trace.Program.Ends.{main_thread-halts}

abbrev blocks : ℕ → List (List Inst)
blocks func =
    if func == 0
    then (call_of 1 "pthread_create" ∷ call_of 3 "work" ∷ call_of 4 "pthread_join" ∷ []) ∷ []
    else if func == 1
    then (store_inst (record { inst = 5; is_atomic = false; is_volatile = false; global = none })
        ∷ [])
      ∷ []
    else (load_inst (record { inst = 6; is_atomic = false; is_volatile = false; global = none })
        ∷ [])
      ∷ []

-- Instruction 1 forks a thread in function 1, and instruction 3 calls function 2.
abbrev answers : Answers
answers = record {
  operands = record {
    pointer_operand = λ i. 9;
    arg_operand = λ i k. if k == 2 then 101 else 7;
    as_call = λ v. none;
  };
  call_of = λ i. record {
    inst = i;
    is_indirect = false;
    called = some (record {
      address = 102;
      name = some "work";
      is_intrinsic = false;
      is_debug_info_for_profiling = false;
    });
    operand = other_operand;
  };
  as_function = λ v. some v;
  blocks_of = blocks;
  function_of = λ n. if n == 0 then 0 else if n == 101 then 1 else 2;
  context_of = λ n. 0;
  is_ext_function = λ n. false;
  context_evolve = λ c i. 0;
  direct_node = λ c f. some f;
  resolved_nodes = λ c i. [];
  points_to = λ c v. v ∷ [];
}

abbrev main : Thread
main = record {
  id = 0;
  spawn_site = none;
  events =
      record { kind = fork 7; pid = record { tid = 0; eid = 0 }; inst = 1; tag = pthread_create }
      ∷ record { kind = call; pid = record { tid = 0; eid = 1 }; inst = 3; tag = open_race.Ir.call }
      ∷ record { kind = read (9 ∷ []); pid = record { tid = 0; eid = 2 }; inst = 6; tag = load }
      ∷ record {
        kind = call_end;
        pid = record { tid = 0; eid = 3 };
        inst = 3;
        tag = open_race.Ir.call;
      }
      ∷ record {
        kind = join none 7;
        pid = record { tid = 0; eid = 4 };
        inst = 4;
        tag = pthread_join;
      }
      ∷ [];
}

abbrev writing : Event
writing = record { kind = write (9 ∷ []); pid = record { tid = 1; eid = 0 }; inst = 5; tag = store }

abbrev forked_thread : Thread
forked_thread = record {
  id = 1;
  spawn_site = some (record { tid = 0; eid = 0 });
  events = writing ∷ [];
}

abbrev below : Forest
below = thread_with forked_thread no_threads no_threads

built : main_thread answers 16 0 ≡ done (main, below)
unfolding main_thread build_trace contains pop push finished get_function_summary pre_visit pre_fork
    post_fork get_accessed_value get_thread_entry get_thread_handle get_lock_value is_read is_write
    is_fork is_join is_lock is_unlock is_barrier is_call resolve_target_function find_summary
    same_tag entry_node ℕ_discrete
built = refl

listed : threads_of main below ≡ some (main ∷ forked_thread ∷ [])
unfolding threads_of
listed = refl

main_thread-IsBuilt_example : IsRange 0 (main.id ∷ ids below) × (IsBuilt main × AllBuilt below)
main_thread-IsBuilt_example = main_thread-IsBuilt answers 16 0 main below built

threads_of-preorder_example : threads_of main below ≡ some (main ∷ preorder below)
threads_of-preorder_example = threads_of-preorder main below

get_event-pid_example : (get_event (main ∷ forked_thread ∷ []) 1 0 ≡ some writing) ↔ (
    (n : ℕ) × (i : ℕ) × (t : Thread) × (get_elem? (main ∷ forked_thread ∷ []) n ≡ some t)
    × (get_elem? t.events i ≡ some writing)
    × (writing.pid ≡ record { tid = 1; eid = 0 }))
get_event-pid_example =
    get_event-pid answers 16 0 main below (main ∷ forked_thread ∷ []) 1 0 writing built listed

-- Every function of a node is 0, 1 or 2.
known : (node : ℕ) → contains (answers.function_of node) (0 ∷ 1 ∷ 2 ∷ []) ≡ true
unfolding contains
known node = ground arith

main_thread-halts_example : main_thread answers 16 0 ≢ out_of_fuel
main_thread-halts_example = main_thread-halts answers (0 ∷ 1 ∷ 2 ∷ []) known 16 0 (omega arith)

-- The state in the thread that instruction 1 forks.
abbrev in_thread : State
in_thread = record main_state {
  tid = 1;
  spawns =
      record {
        fork = record { tid = 0; eid = 0 };
        ir = record { tag = pthread_create; inst = 1; is_forking_master = false };
        entry = 101;
      }
      ∷ [];
}
