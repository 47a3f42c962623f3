-- ===== src/Tests/Sample.antt =====
-- A program of two threads: the main thread writes object 10, forks, writes under lock 5 and without
-- it, joins and reads; the other thread writes without the lock and under it.
use open_race.Prelude.{ℕ, false, none, some, List, [], ◌∷◌, ◌≡◌, refl}
use open_race.Prelude.OrderedMap.{find, assign, at_or}
use open_race.Ir.{
  Tag, load, store, pthread_create, pthread_join, pthread_mutex_lock, pthread_mutex_unlock,
  openmp_barrier,
}
use open_race.Trace.Event.{
  Pid, pid_eq, pid_lt, pid_le, Kind, read, write, fork, join, lock, unlock, barrier, call, call_end,
  extern_call, Event, Thread,
}
use open_race.HappensBefore.Syncs.{contains, insert, lower_bound, upper_bound, last_le}
use open_race.HappensBefore.Graph.{
  targets, add_target, thread_syncs, add_sync, add_sync_edge, find_next_sync_after, find_next_sync,
  find_prev_sync, successors,
}
use open_race.HappensBefore.Search.{add_to_worklist, add_all, search, rounds}
use open_race.HappensBefore.Query.{
  HappensBefore, insert_all, all_sources, edge_count, enough, reach_all, close,
}
use open_race.HappensBefore.Build.{
  Values, Run, ok, Building, first_event, last_event, add_barrier_edge, add_fork_edge,
  add_join_edge, get_forked_thread, fork_with_handle, fork_in_program, fork_by_store, nearest_fork,
  fork_by_phi, fork_by_handle, get_corresponding_fork, get_joined_thread, process_kind,
  process_event, process_events, process_threads, blank, finish, happens_before,
}

-- The type of an IR that gives an event of the kind.
abbrev ir_type : Kind → Tag
ir_type (read objs) = load
ir_type (write objs) = store
ir_type (fork handle) = pthread_create
ir_type (join task handle) = pthread_join
ir_type (lock value) = pthread_mutex_lock
ir_type (unlock value) = pthread_mutex_unlock
ir_type barrier = openmp_barrier
ir_type call = open_race.Ir.call
ir_type call_end = open_race.Ir.call
ir_type extern_call = open_race.Ir.call

abbrev pub event : ℕ → ℕ → Kind → Event
event tid eid kind = record {
  kind = kind;
  pid = record { tid = tid; eid = eid };
  inst = 0;
  tag = ir_type kind;
}

abbrev pub values : Values
values = record {
  load_pointer = λ v. none;
  users = λ v. [];
  store_pointer = λ v. none;
  phi_incoming = λ v. none;
  is_call = λ v. false;
}

abbrev pub main_thread : Thread
main_thread = record {
  id = 0;
  spawn_site = none;
  events =
      event 0 0 (write (10 ∷ []))
      ∷ event 0 1 (fork 100)
      ∷ event 0 2 (lock 5)
      ∷ event 0 3 (write (10 ∷ []))
      ∷ event 0 4 (unlock 5)
      ∷ event 0 5 (write (10 ∷ []))
      ∷ event 0 6 (join none 100)
      ∷ event 0 7 (read (10 ∷ []))
      ∷ [];
}

abbrev pub worker : Thread
worker = record {
  id = 1;
  spawn_site = some (record { tid = 0; eid = 1 });
  events =
      event 1 0 (write (10 ∷ []))
      ∷ event 1 1 (lock 5)
      ∷ event 1 2 (write (10 ∷ []))
      ∷ event 1 3 (unlock 5)
      ∷ [];
}

abbrev pub program : List Thread
program = main_thread ∷ worker ∷ []

abbrev pub at : ℕ → ℕ → Pid
at tid eid = record { tid = tid; eid = eid }

abbrev pub building : Building
building = record {
  graph = record {
    edges = (at 0 1, at 1 0 ∷ []) ∷ (at 1 3, at 0 6 ∷ []) ∷ [];
    syncs = (0, at 0 1 ∷ at 0 6 ∷ []) ∷ (1, at 1 0 ∷ at 1 3 ∷ []) ∷ [];
  };
  last_barrier = [];
}

abbrev pub detector : HappensBefore
detector = record {
  graph = building.graph;
  reachable =
      (at 0 1, at 0 1 ∷ at 0 6 ∷ at 1 0 ∷ at 1 3 ∷ [])
      ∷ (at 0 6, at 0 6 ∷ [])
      ∷ (at 1 0, at 0 6 ∷ at 1 0 ∷ at 1 3 ∷ [])
      ∷ (at 1 3, at 0 6 ∷ at 1 3 ∷ [])
      ∷ [];
}

-- The constructor with all that it calls open.
unfoldable pub constructed : Run HappensBefore
unfolding happens_before finish process_threads process_events process_event process_kind
    add_barrier_edge add_fork_edge add_join_edge first_event last_event get_joined_thread
    get_corresponding_fork fork_by_handle fork_by_store fork_by_phi nearest_fork fork_in_program
    fork_with_handle get_forked_thread close reach_all enough edge_count all_sources insert_all
    rounds search add_all add_to_worklist successors find_next_sync_after find_next_sync
    find_prev_sync add_sync_edge add_sync thread_syncs targets add_target contains insert
    lower_bound upper_bound last_le pid_eq pid_lt pid_le find assign at_or
constructed = happens_before values program

pub detector-built : happens_before values program ≡ ok detector
unfolding constructed
detector-built = refl

pub building-built : process_threads values program blank program ≡ ok building
unfolding constructed
building-built = refl

pub building-closed : close building.graph ≡ some detector
unfolding constructed
building-closed = refl
