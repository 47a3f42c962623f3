-- ===== src/Tests/Openmp.antt =====
-- The theorems on OpenMPAnalysis at a thread with a single block, two forks and a reduce of two cases.
use open_race.Prelude.{
  ℕ, suc, ◌≤◌, ◌==◌, leb, if◌then◌else◌, true, false, none, some, [], ◌∷◌, All, ◌≡◌, ◌≢◌, ◌↔◌, ◌⊎◌,
  refl, length, arith,
}
use open_race.Ir.{
  Tag, load, store, openmp_fork, openmp_task_fork, openmp_single_start, openmp_single_end, same_tag,
}
use open_race.Trace.Event.{Kind, read, write, fork, extern_call, Event, Thread}
use open_race.Trace.Build.States.{contains, done, out_of_fuel}
use open_race.OpenmpAnalysis.{
  Team, main_thread, forked_by, from_same_parallel_region, get_regions, get_region_id,
}
use open_race.OpenmpAnalysis.Counts.{count_below, count_all, place_by_counts}
use open_race.OpenmpAnalysis.Regions.{get_region_id-counts}
use open_race.OpenmpAnalysis.Teams.{itself, task, from_same_parallel_region-adjacent}
use open_race.OpenmpAnalysis.Reduce.{Blocks, compute_guarded_blocks}
use open_race.OpenmpAnalysis.Reduce.Correct.{Reaches, compute_guarded_blocks-Reaches}
use open_race.OpenmpAnalysis.Reduce.Halts.{compute_guarded_blocks-halts}
use open_race.OpenmpAnalysis.Sections.{
  Cases, collect_sections, is_section, events_at, inside_compatible_sections,
}
use open_race.OpenmpAnalysis.Sections.Beyond.{inside_compatible_sections-beyond}

abbrev event : ℕ → Kind → Tag → Event
event eid kind tag = record {
  kind = kind;
  pid = record { tid = 1; eid = eid };
  inst = eid;
  tag = tag;
}

abbrev single : Thread
single = record {
  id = 1;
  spawn_site = none;
  events =
      event 0 extern_call openmp_single_start
      ∷ event 1 (write (9 ∷ [])) store
      ∷ event 2 extern_call openmp_single_end
      ∷ event 3 (read (9 ∷ [])) load
      ∷ [];
}

single-regions :
    get_regions openmp_single_start openmp_single_end single
    ≡ some (record { start = 0; end = 2 } ∷ [])
unfolding get_regions same_tag
single-regions = refl

get_region_id-counts_example :
    get_region_id openmp_single_start openmp_single_end 1 single
    ≡ some (
        place_by_counts 0
          (count_below openmp_single_start 2 single.events)
          (count_below openmp_single_end 1 single.events)
          (count_all openmp_single_end single.events))
unfolding same_tag
get_region_id-counts_example =
    get_region_id-counts openmp_single_start openmp_single_end single 1
      (record { start = 0; end = 2 } ∷ []) refl (refl, (refl, (refl, (refl, tt)))) single-regions

-- Two threads that adjacent OpenMP forks fork, and a task of the first.
abbrev first_fork : Event
first_fork = event 4 (fork 7) openmp_fork

abbrev second_fork : Event
second_fork = event 5 (fork 8) openmp_fork

abbrev task_fork : Event
task_fork = event 1 (fork 9) openmp_task_fork

abbrev first_team : Team
first_team = forked_by single first_fork (main_thread single)

abbrev second_team : Team
second_team = forked_by single second_fork (main_thread single)

from_same_parallel_region-adjacent_example :
    (from_same_parallel_region (forked_by single task_fork first_team) second_team
      ≡ from_same_parallel_region second_team (forked_by single task_fork first_team))
    × ((from_same_parallel_region (forked_by single task_fork first_team) second_team ≡ true) ↔ (
        (single.id ≡ single.id)
        × ((first_fork.pid.eid ≡ suc second_fork.pid.eid)
            ⊎ (second_fork.pid.eid ≡ suc first_fork.pid.eid))))
unfolding same_tag
from_same_parallel_region-adjacent_example =
    from_same_parallel_region-adjacent single single first_fork second_fork (main_thread single)
      (main_thread single) (forked_by single task_fork first_team) second_team refl refl
      (task itself refl) itself

-- The switch of reduce 1 leads to the blocks 10 and 11, and these to its default block 12.
abbrev reduced : Blocks
reduced = record {
  switch_after = λ r. some (12 ∷ 10 ∷ 11 ∷ [], 12);
  successors = λ b. if b == 12 then [] else 12 ∷ [];
  block_of = λ i. 10;
}

reduced-blocks : compute_guarded_blocks reduced 20 1 ≡ done (11 ∷ 10 ∷ [])
unfolding compute_guarded_blocks contains
reduced-blocks = refl

compute_guarded_blocks-Reaches_example :
    (contains 10 (11 ∷ 10 ∷ []) ≡ true)
    ↔ (Reaches reduced.successors 12 (12 ∷ 10 ∷ 11 ∷ []) 10 × ((10 == 12) ≡ false))
compute_guarded_blocks-Reaches_example =
    compute_guarded_blocks-Reaches reduced 20 1 (12 ∷ 10 ∷ 11 ∷ []) 12 (11 ∷ 10 ∷ []) 10 refl
      reduced-blocks

reduced-narrow : (b : ℕ) → length (reduced.successors b) ≤ 1
reduced-narrow b = ground arith

reduced-inside :
    (b c : ℕ) → contains c (reduced.successors b) ≡ true → contains c (10 ∷ 11 ∷ 12 ∷ []) ≡ true
unfolding contains
reduced-inside b c h = ground arith

reduced-first :
    (c : ℕ) → contains c (12 ∷ 10 ∷ 11 ∷ []) ≡ true → contains c (10 ∷ 11 ∷ 12 ∷ []) ≡ true
unfolding contains
reduced-first c h = ground arith

compute_guarded_blocks-halts_example : compute_guarded_blocks reduced 20 1 ≢ out_of_fuel
compute_guarded_blocks-halts_example =
    compute_guarded_blocks-halts reduced (10 ∷ 11 ∷ 12 ∷ []) 1 20 1 (12 ∷ 10 ∷ 11 ∷ []) 12
      reduced-narrow reduced-inside refl reduced-first (omega arith)

-- The instruction 3 is in a section case, and the others are not.
abbrev cases : Cases
cases = record { block_of = λ i. i; is_case = λ b. b == 3 }

-- The first event comes before the section, and the second one, in another thread, is the event 3.
single-collected : collect_sections cases 3 [] single.events ≡ event 3 (read (9 ∷ [])) load ∷ []
unfolding collect_sections
single-collected = refl

single-early :
    (c : Event) → is_section (event 3 (read (9 ∷ [])) load ∷ []) c ≡ true → leb c.pid.eid 3 ≡ true
unfolding is_section
single-early c h = ground arith

single-away :
    All (λ e. (1 == e.pid.eid) ≡ false) (events_at (event 3 (read (9 ∷ [])) load) single.events)
unfolding events_at
single-away = (refl, tt)

inside_compatible_sections-beyond_example :
    inside_compatible_sections cases single.events 1 3 ≡ none
inside_compatible_sections-beyond_example =
    inside_compatible_sections-beyond cases single.events 1 3 (event 3 (read (9 ∷ [])) load) []
      single-collected single-early single-away
