-- ===== src/OpenmpAnalysis/Teams.antt =====
-- Which threads fromSameParallelRegion of src/Analysis/OpenMPAnalysis.cpp takes for one team.
use open_race.Prelude.{
  Option, none, some, ◌∙◌, suc, true, false, ◌≡◌, ◌↔◌, ◌⊎◌, inl, inr, arith, Option-cases, ==_iff,
}
use open_race.Ir.{Tag, place, same_tag, openmp_fork, openmp_task_fork}
use open_race.Trace.Event.{Event, Thread}
use open_race.OpenmpAnalysis.{
  Team, main_thread, forked_by, thread, nearest_fork, get_root_spawn_site, are_adjacent,
  from_same_parallel_region,
}

are_adjacent-sym : (s1 s2 : Event × Team) → are_adjacent s1 s2 ≡ are_adjacent s2 s1
unfolding are_adjacent
are_adjacent-sym (e1, t1) (e2, t2) =
    ground (arith, ==_iff (thread t1).id (thread t2).id, ==_iff (thread t2).id (thread t1).id)

from_same_parallel_region-sym :
    (t1 t2 : Team) → from_same_parallel_region t1 t2 ≡ from_same_parallel_region t2 t1
unfolding from_same_parallel_region
from_same_parallel_region-sym t1 t2 = elim (Option-cases (get_root_spawn_site t1)) [
  | inl none1 ↦ ground arith
  | inr (s1, some1) ↦ elim (Option-cases (get_root_spawn_site t2)) [
    | inl none2 ↦ ground arith
    | inr (s2, some2) ↦ ground (arith, are_adjacent-sym s1 s2)
  ]
]

-- A thread that is forked, or a task of it: any number of task forks below it.
pub data IsTaskOf (team : Team) : Team → Type 0 where
  itself : IsTaskOf team team
  task :
      {t : Thread} {site : Event} {parent : Team}
      → IsTaskOf team parent
      → same_tag site.tag openmp_task_fork ≡ true
      → IsTaskOf team (forked_by t site parent)

tags_apart : (tag : Tag) → same_tag tag openmp_task_fork ≡ true → same_tag tag openmp_fork ≡ false
unfolding same_tag place
tags_apart tag h = ground arith

nearest_fork-here :
    (site : Event) (team : Team)
    → same_tag site.tag openmp_fork ≡ true
    → nearest_fork site team ≡ some (site, team)
unfolding nearest_fork
nearest_fork-here site (main_thread t) h = ground arith
nearest_fork-here site (forked_by t site' parent) h = ground arith

-- The forks above a thread, from its own on.
abbrev fork_above : Team → Option (Event × Team)
fork_above (main_thread t) = none
fork_above (forked_by t site parent) = nearest_fork site parent

nearest_fork-beyond :
    (site : Event) (team : Team)
    → same_tag site.tag openmp_task_fork ≡ true
    → nearest_fork site team ≡ fork_above team
unfolding nearest_fork
nearest_fork-beyond site (main_thread t) h = ground (arith, tags_apart site.tag)
nearest_fork-beyond site (forked_by t site' parent) h = ground (arith, tags_apart site.tag)

module _ (t : Thread) (s : Event) (p : Team) (is_fork : same_tag s.tag openmp_fork ≡ true) where
  fork_above-task : (team : Team) → IsTaskOf (forked_by t s p) team → fork_above team ≡ some (s, p)
  fork_above-task _ itself = nearest_fork-here s p is_fork
  fork_above-task _ (task {site = site} {parent = parent} below is_task) =
      nearest_fork-beyond site parent is_task ∙ fork_above-task parent below

  get_root_spawn_site-task :
      (team : Team) → IsTaskOf (forked_by t s p) team → get_root_spawn_site team ≡ some (s, p)
  unfolding get_root_spawn_site
  get_root_spawn_site-task _ itself = ground (arith, tags_apart s.tag)
  get_root_spawn_site-task _ (task {site = site} {parent = parent} below is_task) =
      rw is_task (nearest_fork-beyond site parent is_task ∙ fork_above-task parent below)

-- The test is symmetric. Of two threads of OpenMP forks and their tasks, to any depth of task forks, it
-- takes two members for one team exactly where the OpenMP forks are adjacent events of one thread.
pub from_same_parallel_region-adjacent :
    (t1 t2 : Thread) (s1 s2 : Event) (p1 p2 team1 team2 : Team)
    → same_tag s1.tag openmp_fork ≡ true
    → same_tag s2.tag openmp_fork ≡ true
    → IsTaskOf (forked_by t1 s1 p1) team1
    → IsTaskOf (forked_by t2 s2 p2) team2
    → (from_same_parallel_region team1 team2 ≡ from_same_parallel_region team2 team1)
      × ((from_same_parallel_region team1 team2 ≡ true) ↔ (
          ((thread p1).id ≡ (thread p2).id)
          × ((s1.pid.eid ≡ suc s2.pid.eid) ⊎ (s2.pid.eid ≡ suc s1.pid.eid))))
unfolding from_same_parallel_region are_adjacent
from_same_parallel_region-adjacent t1 t2 s1 s2 p1 p2 team1 team2 fork1 fork2 tasks1 tasks2 =
    let root1 = get_root_spawn_site-task t1 s1 p1 fork1 team1 tasks1 in
    let root2 = get_root_spawn_site-task t2 s2 p2 fork2 team2 tasks2 in
    let e : from_same_parallel_region team1 team2 ≡ are_adjacent (s1, p1) (s2, p2) = ground arith in
    (
      from_same_parallel_region-sym team1 team2,
      rw e (ground (arith, ==_iff (thread p1).id (thread p2).id)),
    )
