-- ===== src/OpenmpAnalysis.antt =====
-- Teams and regions in src/Analysis/OpenMPAnalysis.h and OpenMPAnalysis.cpp.
pub mod Guards
pub mod ForLoops
pub mod Counts
pub mod Regions
pub mod Teams
pub mod Reduce
pub mod Sections
use open_race.Prelude.{
  ℕ, suc, ◌+◌, ◌-◌, ◌==◌, ltb, leb, if◌then◌else◌, Bool, true, false, not, ◌&&◌, ◌||◌, Option, none,
  some, List, [], ◌∷◌, ◌++◌, get_elem?,
}
use open_race.Ir.{
  Tag, same_tag, openmp_fork, openmp_task_fork, openmp_single_start, openmp_single_end,
  openmp_for_init, openmp_for_fini, openmp_get_thread_num_guard_start,
  openmp_get_thread_num_guard_end,
}
use open_race.Trace.Event.{Pid, Event, Thread}

-- A thread with what its spawn site leads to: the fork event and the thread of that event.
pub data Team : Type 0 where
  main_thread : Thread → Team
  forked_by : Thread → Event → Team → Team

abbrev pub thread : Team → Thread
thread (main_thread t) = t
thread (forked_by t site parent) = t

-- The loop of `getRootSpawnSite`, at a spawn site in the thread of a team.
unfoldable pub nearest_fork : Event → Team → Option (Event × Team)
nearest_fork site (main_thread t) =
    if same_tag site.tag openmp_fork then some (site, main_thread t) else none
nearest_fork site (forked_by t site' parent) =
    let above = nearest_fork site' parent in
    if same_tag site.tag openmp_fork then some (site, forked_by t site' parent) else above

unfoldable pub get_root_spawn_site : Team → Option (Event × Team)
unfolding nearest_fork
get_root_spawn_site (main_thread t) = none
get_root_spawn_site (forked_by t site parent) =
    if same_tag site.tag openmp_task_fork then nearest_fork site parent else some (site, parent)

-- The test that the spawn sites are adjacent events of one thread.
unfoldable pub are_adjacent : Event × Team → Event × Team → Bool
are_adjacent (e1, t1) (e2, t2) =
    (thread t1).id == (thread t2).id
    && (if ltb e2.pid.eid e1.pid.eid then e1.pid.eid - e2.pid.eid else e2.pid.eid - e1.pid.eid) == 1

unfoldable pub from_same_parallel_region : Team → Team → Bool
unfolding get_root_spawn_site are_adjacent
from_same_parallel_region t1 t2 = elim (get_root_spawn_site t1) [
  | none ↦ false
  | some s1 ↦ elim (get_root_spawn_site t2) [ none ↦ false | some s2 ↦ are_adjacent s1 s2 ]
]

-- A region of the events of a thread.
pub record Region : Type 0 where
  pub start : ℕ
  pub end : ℕ

unfoldable pub contains : Region → ℕ → Bool
contains r e = leb e r.end && leb r.start e

module _ (start_tag end_tag : Tag) where
  -- The loop of `getRegions`; `none` where an assertion fails.
  unfoldable pub regions_from : Option ℕ → List Event → Option (List Region)
  regions_from start [] = some []
  regions_from none (e ∷ es) =
      let opened = regions_from (some e.pid.eid) es in
      let rest = regions_from none es in
      if same_tag e.tag start_tag then opened else if same_tag e.tag end_tag then none else rest
  regions_from (some start) (e ∷ es) =
      let closed = regions_from none es in
      let rest = regions_from (some start) es in
      if same_tag e.tag start_tag
      then none
      else if same_tag e.tag end_tag
      then elim closed [
        | none ↦ none
        | some regions ↦ some (record { start = start; end = e.pid.eid } ∷ regions)
      ]
      else rest

  unfoldable pub get_regions : Thread → Option (List Region)
  unfolding regions_from
  get_regions t = regions_from none t.events

-- The first region that contains an event, with its place.
unfoldable pub find_region : ℕ → ℕ → List Region → Option (ℕ × Region)
unfolding contains
find_region i e [] = none
find_region i e (r ∷ rs) =
    let rest = find_region (i + 1) e rs in if contains r e then some (i, r) else rest

module _ (start_tag end_tag : Tag) where
  -- `getContainingRegion`: the region with the thread that it is in; the outer `none` where an
  -- assertion fails or the spawn site of the main thread is read.
  unfoldable pub get_containing_region : ℕ → Team → Option (Option (Region × Thread))
  unfolding get_regions find_region
  get_containing_region e (main_thread t) = elim (get_regions start_tag end_tag t) [
    | none ↦ none
    | some [] ↦ none
    | some (r ∷ rs) ↦ elim (find_region 0 e (r ∷ rs)) [
      | none ↦ some none
      | some (i, found) ↦ some (some (found, t))
    ]
  ]
  get_containing_region e (forked_by t site parent) =
      let above = get_containing_region site.pid.eid parent in
      elim (get_regions start_tag end_tag t) [
        | none ↦ none
        | some [] ↦ if same_tag site.tag openmp_task_fork then above else some none
        | some (r ∷ rs) ↦ elim (find_region 0 e (r ∷ rs)) [
          | none ↦ some none
          | some (i, found) ↦ some (some (found, t))
        ]
      ]

  -- The lambda `getRegionID`.
  unfoldable pub get_region_id : ℕ → Thread → Option (Option ℕ)
  unfolding get_regions find_region
  get_region_id e t = elim (get_regions start_tag end_tag t) [
    | none ↦ none
    | some regions ↦ elim (find_region 0 e regions) [
      | none ↦ some none
      | some (i, r) ↦ some (some i)
    ]
  ]

  -- `inSame` for the events with the ids in their threads; `none` where an assertion fails.
  unfoldable pub in_same : ℕ → Team → ℕ → Team → Option Bool
  unfolding from_same_parallel_region get_region_id
  in_same e1 t1 e2 t2 =
      if from_same_parallel_region t1 t2
      then elim (get_region_id e1 (thread t1)) [
        | none ↦ none
        | some id1 ↦ elim (get_region_id e2 (thread t2)) [
          | none ↦ none
          | some id2 ↦ elim id1 [
            | none ↦ some false
            | some i ↦ elim id2 [ none ↦ some false | some j ↦ some (i == j) ]
          ]
        ]
      ]
      else none

unfoldable pub in_same_single_block : ℕ → Team → ℕ → Team → Option Bool
unfolding in_same
in_same_single_block = in_same openmp_single_start openmp_single_end
