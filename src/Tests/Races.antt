-- ===== src/Tests/Races.antt =====
-- Theorems on lock sets, shared memory and the detector at the sample.
use mathlib.Core.List.{Memᴰ}
use open_race.Prelude.{
  inr, ℕ, ◌≤◌, ◌==◌, true, false, none, [], ◌∷◌, ◌≡◌, ◌≢◌, refl, ◌↔◌, ◌⊎◌, arith,
}
use open_race.Prelude.OrderedMap.{at_or}
use open_race.Trace.Event.{write, events_of}
use open_race.HappensBefore.Before.{Before}
use open_race.HappensBefore.Build.{Building, ok, process_threads, blank}
use open_race.HappensBefore.Query.{can_reach, are_parallel, has_edge, is_reachable, find_reachable}
use open_race.LockSet.{
  insert_lock, erase_one, after_event, locks_before, find_cached, held_locks, common, shares_lock,
}
use open_race.LockSet.Correct.{count, depth, IsCached, count-locks_before, shares_lock-depth}
use open_race.SharedMemory.{
  shared_memory, get_shared_objects, get_threaded_reads, get_threaded_writes, add_threads,
  add_events, add_kind, add_reads, add_writes, add_read, add_write, get_obj_id, push_back,
  is_shared, shared_of, get_threaded,
}
use open_race.SharedMemory.Accesses.{objects_read, objects_written, accesses_of}
use open_race.SharedMemory.Returns.{get_threaded-accesses_of}
use open_race.SharedMemory.Shared.{listed, get_shared_objects-accesses_of}
use open_race.ThreadLocal.{is_thread_local_access, is_thread_local_access-count}
use open_race.RaceDetect.{
  Analyses, is_excluded, detect_races, check_objects, check_object, check_writes, check_reads,
  check_each, check_others, check_race,
}
use open_race.RaceDetect.Reported.{Pairs, keep, pairs_objects, is_race, detect_races-keep}
use open_race.RaceDetect.Complete.{detect_races_complete}
use open_race.RaceDetect.Sound.{detect_races_sound}
use open_race.Tests.Sample.{at, event, values, program, detector, constructed, detector-built}

-- No other analysis excludes a pair.
abbrev analyses : Analyses
analyses = record {
  is_thread_local = λ x. false;
  function_of = λ i. 0;
  location_of = λ i. none;
  no_alias = λ f l k. false;
  from_same_parallel_region = λ w o. false;
  is_non_overlapping_loop_access = λ w o. false;
  in_same_single_block = λ w o. false;
  in_same_reduce = λ w o. false;
  inside_compatible_sections = λ w o. false;
  guarded_by_same_tid = λ w o. false;
  is_in_lastprivate = λ w. false;
}

-- The detector with all that it calls open.
unfoldable detected : Pairs
unfolding constructed detect_races check_objects check_object check_writes check_reads check_each
    check_others check_race shared_memory get_shared_objects get_threaded_reads get_threaded_writes
    add_threads add_events add_kind add_reads add_writes add_read add_write get_obj_id push_back
    is_shared shared_of get_threaded shares_lock held_locks find_cached locks_before after_event
    insert_lock erase_one common events_of is_thread_local_access are_parallel can_reach has_edge
    is_reachable find_reachable is_excluded
detected = detect_races analyses program detector

-- The write behind the unlock races with both writes of the worker, and the write under the lock
-- with the worker's write without it.
abbrev races : Pairs
races =
    (event 0 3 (write (10 ∷ [])), event 1 0 (write (10 ∷ [])))
    ∷ (event 0 5 (write (10 ∷ [])), event 1 0 (write (10 ∷ [])))
    ∷ (event 0 5 (write (10 ∷ [])), event 1 2 (write (10 ∷ [])))
    ∷ []

detected-races : detect_races analyses program detector ≡ races
unfolding detected
detected-races = refl

detect_races_sound_example :
    (s : Building) × (process_threads values program blank program ≡ ok s)
    × (¬ Before s.graph (at 0 5) (at 1 2))
    × (¬ Before s.graph (at 1 2) (at 0 5))
    × ((l : ℕ)
        → ¬ ((1 ≤ depth l 5 (events_of program 0) 0) × (1 ≤ depth l 2 (events_of program 1) 0)))
    × (is_excluded analyses (event 0 5 (write (10 ∷ []))) (event 1 2 (write (10 ∷ []))) ≡ false)
unfolding detected
detect_races_sound_example =
    detect_races_sound values analyses program detector (event 0 5 (write (10 ∷ [])))
      (event 1 2 (write (10 ∷ []))) detector-built (Memᴰ.tail (Memᴰ.tail (Memᴰ.head refl)))
      (omega arith)

detect_races_complete_example :
    Memᴰ
      (event 0 5 (write (10 ∷ [])), event 1 2 (write (10 ∷ [])))
      (detect_races analyses program detector)
unfolding detected
detect_races_complete_example =
    detect_races_complete analyses program detector 10 0 1 (event 0 5 (write (10 ∷ [])))
      (event 1 2 (write (10 ∷ []))) refl (Memᴰ.tail (Memᴰ.tail (Memᴰ.head refl)))
      (inr (omega arith, Memᴰ.tail (Memᴰ.head refl)))

detect_races-keep_example :
    detect_races analyses program detector
    ≡ keep
        (is_race analyses program detector)
        (pairs_objects (shared_memory program) (get_shared_objects (shared_memory program)))
detect_races-keep_example = detect_races-keep analyses program detector

shares_lock-depth_example :
    (((shares_lock program [] (at 0 3) (at 1 2)).0 ≡ true) ↔ (
      (l : ℕ) × (1 ≤ depth l 3 (events_of program 0) 0) × (1 ≤ depth l 2 (events_of program 1) 0)))
    × IsCached program (shares_lock program [] (at 0 3) (at 1 2)).1
shares_lock-depth_example = shares_lock-depth program [] (at 0 3) (at 1 2) tt

count-locks_before_example :
    count 5 (locks_before 3 (events_of program 0) []) ≡ depth 5 3 (events_of program 0) (count 5 [])
count-locks_before_example = count-locks_before 5 3 (events_of program 0) []

get_shared_objects-accesses_of_example :
    (listed 10 (get_shared_objects (shared_memory program)) ≡ true) ↔ (
      (t : ℕ) × (u : ℕ) × (accesses_of objects_written 10 t program ≢ [])
      × ((accesses_of objects_written 10 u program ≢ [])
          ⊎ (accesses_of objects_read 10 u program ≢ []))
      × (t ≢ u))
get_shared_objects-accesses_of_example = get_shared_objects-accesses_of program 10

get_threaded-accesses_of_example :
    (at_or 0 [] (get_threaded_reads (shared_memory program) 10)
      ≡ accesses_of objects_read 10 0 program)
    × (at_or 0 [] (get_threaded_writes (shared_memory program) 10)
        ≡ accesses_of objects_written 10 0 program)
get_threaded-accesses_of_example = get_threaded-accesses_of program 10 0

is_thread_local_access-count_example :
    (is_thread_local_access (λ x. x == 1) (1 ∷ 2 ∷ []) (1 ∷ 3 ∷ []) ≡ true)
    ↔ ((x : ℕ) → 1 ≤ count x (1 ∷ 2 ∷ []) → 1 ≤ count x (1 ∷ 3 ∷ []) → (x == 1) ≡ true)
is_thread_local_access-count_example =
    is_thread_local_access-count (λ x. x == 1) (1 ∷ 2 ∷ []) (1 ∷ 3 ∷ []) (omega arith) (omega arith)
