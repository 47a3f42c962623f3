-- ===== src/Trace/Build/States.antt =====
-- ProgramBuildState and ThreadBuildState of src/Trace/Build/TraceBuilder.h, src/Trace/Build/CallStack.h
-- and the state of OpenMPRuntime in src/Trace/Build/OpenMPRuntime.h.
use open_race.Prelude.{
  ℕ, ◌+◌, ◌==◌, Bool, false, ◌||◌, Option, none, some, List, [], ◌∷◌, ◌++◌, length,
}
use open_race.Ir.{Ir}
use open_race.Trace.Event.{Pid, Kind, Event, Thread}

-- `fails`: an assertion fails, a null pointer is read or an exception is thrown.
pub data Built {ℓ} (Value : Type ℓ) : Type ℓ where
  fails out_of_fuel : Built Value
  done : Value → Built Value

module _ {ℓ ℓ'} {First : Type ℓ} {Last : Type ℓ'} where
  infixl 5 ◌>>=◌
  abbrev pub ◌>>=◌ : Built First → (First → Built Last) → Built Last
  fails >>= next = fails
  out_of_fuel >>= next = out_of_fuel
  done first >>= next = next first

abbrev pub or_fails {ℓ} : {Value : Type ℓ} → Option Value → Built Value
or_fails none = fails
or_fails (some value) = done value

-- The threads that a thread has forked, in order, each with those that it has forked.
pub data Forest : Type 0 where
  no_threads : Forest
  thread_with : Thread → Forest → Forest → Forest

-- `push_back` of a thread with the threads below it.
unfoldable pub add_thread : Forest → Thread → Forest → Forest
add_thread no_threads t below = thread_with t below no_threads
add_thread (thread_with u below' rest) t below = thread_with u below' (add_thread rest t below)

-- A fork event, with its IR and the node that its `getThreadEntry` returns.
pub record Spawn : Type 0 where
  pub fork : Pid
  pub ir : Ir
  pub entry : ℕ

-- OpenMPRuntime; an unjoined task is its fork event with the IR.
pub record OpenmpRuntime : Type 0 where
  pub in_teams_region : Bool
  pub in_single_region : Bool
  pub master_regions : List (ℕ × ℕ)
  pub current_master_start : Option ℕ
  pub unjoined_tasks : List (Pid × Ir)

-- ProgramBuildState, with the one runtime model that it has.
pub record Program : Type 0 where
  pub summaries : List (ℕ × List Ir)
  pub current_tid : ℕ
  pub in_parallel : Bool
  pub runtime : OpenmpRuntime

-- ThreadBuildState: the thread's id and the spawn sites from it up to the main thread, its events
-- and forked threads, and what the building keeps. The top of the call stack is its head.
pub record State : Type 0 where
  pub tid : ℕ
  pub spawns : List Spawn
  pub events : List Event
  pub children : Forest
  pub skip_until : Option ℕ
  pub context : ℕ
  pub callstack : List ℕ
  pub program : Program

-- CallStack::contains and CallStack::pop
unfoldable pub contains : ℕ → List ℕ → Bool
contains func [] = false
contains func (f ∷ stack) = f == func || contains func stack

unfoldable pub pop : List ℕ → List ℕ
pop [] = []
pop (f ∷ stack) = stack

-- `events.push_back`, of an event with the size as its id.
unfoldable pub push : Kind → Ir → State → State
push kind ir s = record s {
  events =
      s.events
      ++ record {
        kind = kind;
        pid = record { tid = s.tid; eid = length s.events };
        inst = ir.inst;
        tag = ir.tag;
      }
        ∷ [];
}

-- The state in which a new thread is built: the next thread id, and a new thread state.
unfoldable pub child_state : Spawn → State → State
child_state spawn s = record {
  tid = s.program.current_tid + 1;
  spawns = spawn ∷ s.spawns;
  events = [];
  children = no_threads;
  skip_until = none;
  context = 0;
  callstack = [];
  program = record s.program { current_tid = s.program.current_tid + 1 };
}

-- The thread of a finished state.
unfoldable pub finished : State → Thread
finished t = record {
  id = t.tid;
  spawn_site = elim t.spawns [ [] ↦ none | spawn ∷ _ ↦ some spawn.fork ];
  events = t.events;
}

-- The forking thread takes the new thread, and goes on with the program's state.
unfoldable pub back_in : State → State → State
unfolding add_thread finished
back_in s t = record s {
  children = add_thread s.children (finished t) t.children;
  program = t.program;
}
