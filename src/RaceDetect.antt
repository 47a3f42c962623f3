-- ===== src/RaceDetect.antt =====
-- src/RaceDetect.cpp: the pairs of accesses that are checked, and the check. The alias analysis is
-- src/Analysis/SimpleAlias.cpp; the answers of OpenMPAnalysis are parameters.
pub mod Reported
pub mod Complete
pub mod Sound
use open_race.Prelude.{
  ℕ, ◌==◌, if◌then◌else◌, Bool, true, false, not, ◌&&◌, ◌||◌, Option, none, some, List, [], ◌∷◌,
  ◌++◌,
}
use open_race.Trace.Event.{
  Pid, Kind, read, write, fork, join, lock, unlock, barrier, call, call_end, extern_call, Event,
  Thread,
}
use open_race.HappensBefore.Query.{HappensBefore, are_parallel}
use open_race.LockSet.{Cache, shares_lock}
use open_race.SharedMemory.{
  ByThread, SharedMemory, shared_memory, get_shared_objects, get_threaded_reads,
  get_threaded_writes,
}
use open_race.ThreadLocal.{is_thread_local_access}

-- What LLVM and OpenMPAnalysis answer about instructions, locations and events.
pub record Analyses : Type 0 where
  pub is_thread_local : ℕ → Bool
  -- getFunction, MemoryLocation::getOrNone and the no-alias analysis of a function
  pub function_of : ℕ → ℕ
  pub location_of : ℕ → Option ℕ
  pub no_alias : ℕ → ℕ → ℕ → Bool
  pub from_same_parallel_region : Event → Event → Bool
  pub is_non_overlapping_loop_access : Event → Event → Bool
  pub in_same_single_block : Event → Event → Bool
  pub in_same_reduce : Event → Event → Bool
  pub inside_compatible_sections : Event → Event → Bool
  pub guarded_by_same_tid : Event → Event → Bool
  pub is_in_lastprivate : Event → Bool

-- `getAccessedMemory` of a memory access.
abbrev pub accessed : Kind → List ℕ
accessed (read objs) = objs
accessed (write objs) = objs
accessed _ = []

-- SimpleAlias::mustNotAlias
unfoldable pub must_not_alias : Analyses → Event → Event → Bool
must_not_alias a w o =
    if a.function_of w.inst == a.function_of o.inst then false else elim (a.location_of w.inst) [
      | none ↦ false
      | some l ↦ elim (a.location_of o.inst) [
        | none ↦ false
        | some k ↦ a.no_alias (a.function_of w.inst) l k
      ]
    ]

-- The tests within the branch for two events of one parallel region.
unfoldable pub is_excluded_by_openmp : Analyses → Event → Event → Bool
is_excluded_by_openmp a w o =
    if a.from_same_parallel_region w o
    then if a.is_non_overlapping_loop_access w o
      then true
      else if a.in_same_single_block w o || a.in_same_reduce w o || a.inside_compatible_sections w o
      then true
      else if a.guarded_by_same_tid w o
      then true
      else a.is_in_lastprivate w && a.is_in_lastprivate o
    else false

-- The tests of `checkRace` behind the lock sets.
unfoldable pub is_excluded : Analyses → Event → Event → Bool
unfolding must_not_alias is_excluded_by_openmp
is_excluded a w o =
    if is_thread_local_access a.is_thread_local (accessed w.kind) (accessed o.kind)
    then true
    else if must_not_alias a w o
    then true
    else is_excluded_by_openmp a w o

-- The cache of the lock sets, and the pairs that the reporter has collected.
pub record Detecting : Type 0 where
  pub cache : Cache
  pub pairs : List (Event × Event)

module _ (a : Analyses) (program : List Thread) (hb : HappensBefore) where
  -- The lambda `checkRace`. The lock sets are asked only for parallel events.
  unfoldable pub check_race : Detecting → Event → Event → Detecting
  check_race d w o =
      let locked = shares_lock program d.cache w.pid o.pid in
      let checked : Detecting =
        if locked.0 || is_excluded a w o
        then record d { cache = locked.1 }
        else record { cache = locked.1; pairs = d.pairs ++ (w, o) ∷ [] } in
      if are_parallel hb w.pid o.pid then checked else d

  -- The two inner loops.
  unfoldable pub check_others : Detecting → Event → List Event → Detecting
  check_others d w [] = d
  check_others d w (o ∷ os) = check_others (check_race d w o) w os

  unfoldable pub check_each : Detecting → List Event → List Event → Detecting
  unfolding check_others
  check_each d [] os = d
  check_each d (w ∷ ws) os = check_each (check_others d w os) ws os

  -- The loop over the threads that read, and the loop over the later threads that write.
  unfoldable pub check_reads : Detecting → ℕ → List Event → ByThread → Detecting
  unfolding check_each
  check_reads d wtid ws [] = d
  check_reads d wtid ws ((rtid, rs) ∷ m) =
      check_reads (if wtid == rtid then d else check_each d ws rs) wtid ws m

  unfoldable pub check_writes : Detecting → List Event → ByThread → Detecting
  unfolding check_each
  check_writes d ws [] = d
  check_writes d ws ((t, os) ∷ m) = check_writes (check_each d ws os) ws m

  -- The loop over the threads that write.
  unfoldable pub check_object : Detecting → ByThread → ByThread → Detecting
  unfolding check_reads check_writes
  check_object d [] reads = d
  check_object d ((wtid, ws) ∷ m) reads =
      check_object (check_writes (check_reads d wtid ws reads) ws m) m reads

  unfoldable pub check_objects : Detecting → SharedMemory → List ℕ → Detecting
  unfolding check_object
  check_objects d m [] = d
  check_objects d m (o ∷ os) =
      check_objects (check_object d (get_threaded_writes m o) (get_threaded_reads m o)) m os

  -- `detectRaces`, from the program trace to the collected pairs.
  unfoldable pub detect_races : List (Event × Event)
  unfolding check_objects
  detect_races =
      let m = shared_memory program in
      (check_objects (record { cache = []; pairs = [] }) m (get_shared_objects m)).pairs
