-- ===== src/OpenmpAnalysis/Guards.antt =====
-- guardedBySameTID in src/Analysis/OpenMPAnalysis.cpp.
use open_race.Prelude.{ℕ, ◌==◌, if◌then◌else◌, Bool, false, Option, none, some, get_elem?}
use open_race.Ir.{openmp_get_thread_num_guard_start, openmp_get_thread_num_guard_end}
use open_race.Trace.Event.{Thread}
use open_race.OpenmpAnalysis.{Team, Region, from_same_parallel_region, get_containing_region}

-- `getGuardedTID`, with what LLVM answers about the argument of a call; `none` where a cast fails or
-- no event has the id.
unfoldable pub get_guarded_tid : (ℕ → Option ℕ) → Thread → ℕ → Option ℕ
get_guarded_tid guarded_tid t e = elim (get_elem? t.events e) [
  | none ↦ none
  | some event ↦ guarded_tid event.inst
]

-- The id that guards a region; `none` where also the assertion on its two ends fails.
unfoldable pub region_tid : (ℕ → Option ℕ) → Region × Thread → Option ℕ
unfolding get_guarded_tid
region_tid guarded_tid (r, t) = elim (get_guarded_tid guarded_tid t r.start) [
  | none ↦ none
  | some first ↦ elim (get_guarded_tid guarded_tid t r.end) [
    | none ↦ none
    | some last ↦ if first == last then some first else none
  ]
]

-- `haveSameTID` for the regions that a guard of the thread number marks.
unfoldable pub guarded_by_same_tid : (ℕ → Option ℕ) → ℕ → Team → ℕ → Team → Option Bool
unfolding from_same_parallel_region get_containing_region region_tid
guarded_by_same_tid guarded_tid e1 t1 e2 t2 =
    let region =
      get_containing_region openmp_get_thread_num_guard_start openmp_get_thread_num_guard_end in
    if from_same_parallel_region t1 t2
    then elim (region e1 t1) [
      | none ↦ none
      | some r1 ↦ elim (region e2 t2) [
        | none ↦ none
        | some r2 ↦ elim r1 [
          | none ↦ some false
          | some in1 ↦ elim r2 [
            | none ↦ some false
            | some in2 ↦ elim (region_tid guarded_tid in1) [
              | none ↦ none
              | some tid1 ↦ elim (region_tid guarded_tid in2) [
                | none ↦ none
                | some tid2 ↦ some (tid1 == tid2)
              ]
            ]
          ]
        ]
      ]
    ]
    else none
