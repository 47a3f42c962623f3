-- ===== src/OpenmpAnalysis/ForLoops.antt =====
-- getOmpForLoops and inParallelFor in src/Analysis/OpenMPAnalysis.cpp.
use open_race.Prelude.{ℕ, ◌==◌, ltb, if◌then◌else◌, Bool, false, Option, none, some, List, [], ◌∷◌}
use open_race.Ir.{openmp_for_init, openmp_for_fini}
use open_race.Trace.Event.{Thread}
use open_race.OpenmpAnalysis.{Region, contains, get_regions}

-- `ompForLoops`, by thread id.
abbrev pub Loops : Type 0
Loops = List (ℕ × List Region)

unfoldable pub find_loops : ℕ → Loops → Option (List Region)
find_loops tid [] = none
find_loops tid ((id, regions) ∷ loops) =
    let rest = find_loops tid loops in if id == tid then some regions else rest

-- `getOmpForLoops`, with the cache after it.
unfoldable pub get_omp_for_loops : Thread → Loops → Option (List Region × Loops)
unfolding find_loops get_regions
get_omp_for_loops t loops = elim (find_loops t.id loops) [
  | some regions ↦ some (regions, loops)
  | none ↦ elim (get_regions openmp_for_init openmp_for_fini t) [
    | none ↦ none
    | some regions ↦ some (regions, (t.id, regions) ∷ loops)
  ]
]

-- `lower_bound` by the ends of the regions, and the test of the region that it finds.
unfoldable pub in_lower_bound : ℕ → List Region → Bool
unfolding contains
in_lower_bound e [] = false
in_lower_bound e (r ∷ rs) =
    let rest = in_lower_bound e rs in if ltb r.end e then rest else contains r e

unfoldable pub in_parallel_for : ℕ → Thread → Loops → Option (Bool × Loops)
unfolding get_omp_for_loops in_lower_bound
in_parallel_for e t loops = elim (get_omp_for_loops t loops) [
  | none ↦ none
  | some (regions, loops') ↦ some (in_lower_bound e regions, loops')
]
