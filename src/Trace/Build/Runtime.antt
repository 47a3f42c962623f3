-- ===== src/Trace/Build/Runtime.antt =====
-- OpenMPRuntime of src/Trace/Build/OpenMPRuntime.h and OpenMPRuntime.cpp.
use open_race.Prelude.{
  ℕ, ◌==◌, if◌then◌else◌, Bool, true, false, not, ◌&&◌, ◌||◌, Option, none, some, List, [], ◌∷◌,
  ◌++◌,
}
use open_race.Ir.{
  Tag, Ir, same_tag, openmp_barrier, openmp_critical_start, openmp_critical_end, openmp_set_lock,
  openmp_unset_lock, openmp_fork, openmp_task_fork, openmp_fork_teams, openmp_task_wait,
  openmp_join, openmp_task_join, openmp_master_start, openmp_master_end, openmp_single_start,
  openmp_single_end,
}
use open_race.Ir.Operands.{Operands, get_thread_handle}
use open_race.Trace.Event.{Pid, join}
use open_race.Trace.Build.States.{
  Built, done, fails, ◌>>=◌, or_fails, OpenmpRuntime, Spawn, State, push,
}

unfoldable pub is_openmp_team_specific : Tag → Bool
is_openmp_team_specific t =
    same_tag t openmp_barrier
    || same_tag t openmp_critical_start
    || same_tag t openmp_critical_end
    || same_tag t openmp_set_lock
    || same_tag t openmp_unset_lock

unfoldable pub is_openmp_master_thread : List Spawn → Bool
is_openmp_master_thread [] = false
is_openmp_master_thread (s ∷ _) = same_tag s.ir.tag openmp_fork && s.ir.is_forking_master

abbrev pub with_runtime : OpenmpRuntime → State → State
with_runtime r s = record s { program = record s.program { runtime = r } }

-- std::map::insert, which keeps an entry that is there, and std::map::at.
unfoldable pub insert_region : ℕ → ℕ → List (ℕ × ℕ) → List (ℕ × ℕ)
insert_region start end [] = (start, end) ∷ []
insert_region start end ((s, e) ∷ m) =
    if s == start then (s, e) ∷ m else (s, e) ∷ insert_region start end m

unfoldable pub get_master_region_end : ℕ → List (ℕ × ℕ) → Option ℕ
get_master_region_end start [] = none
get_master_region_end start ((s, e) ∷ m) =
    if s == start then some e else get_master_region_end start m

unfoldable pub mark_master_start : ℕ → OpenmpRuntime → Built OpenmpRuntime
mark_master_start start r = elim r.current_master_start [
  | some _ ↦ fails
  | none ↦ done (record r { current_master_start = some start })
]

unfoldable pub mark_master_end : ℕ → OpenmpRuntime → Built OpenmpRuntime
unfolding insert_region
mark_master_end end r = elim r.current_master_start [
  | none ↦ fails
  | some start ↦ done (record r {
    master_regions = insert_region start end r.master_regions;
    current_master_start = none;
  })
]

module _ (o : Operands) where
  -- The loop over the unjoined tasks: a join event for each.
  unfoldable pub join_tasks : List (Pid × Ir) → State → Built State
  join_tasks [] s = done s
  join_tasks ((task, ir) ∷ tasks) s = do
    handle ← or_fails (get_thread_handle o (record ir { tag = openmp_task_join }))
    join_tasks tasks (push (join (some task) handle) (record ir { tag = openmp_task_join }) s)

  unfoldable pub visit_join_point : State → Built (Bool × State)
  unfolding join_tasks
  visit_join_point s = do
    t ← join_tasks s.program.runtime.unjoined_tasks s
    done (false, with_runtime (record t.program.runtime { unjoined_tasks = [] }) t)

  -- The skip to the end of a master region that the master thread has been through.
  unfoldable pub skip_master_region : Ir → State → Built (Bool × State)
  unfolding get_master_region_end
  skip_master_region ir s = do
    end ← or_fails (get_master_region_end ir.inst s.program.runtime.master_regions)
    done (true, record s { skip_until = some end })

  unfoldable pub visit_master_start : Ir → State → Built (Bool × State)
  unfolding is_openmp_master_thread skip_master_region mark_master_start
  visit_master_start ir s =
      if not (is_openmp_master_thread s.spawns)
      then skip_master_region ir s
      else do r ← mark_master_start ir.inst s.program.runtime; done (false, with_runtime r s)

  unfoldable pub visit_master_end : Ir → State → Built (Bool × State)
  unfolding is_openmp_master_thread mark_master_end
  visit_master_end ir s =
      if not (is_openmp_master_thread s.spawns)
      then done (false, s)
      else do r ← mark_master_end ir.inst s.program.runtime; done (false, with_runtime r s)

  -- The last two tests of `preVisit`.
  unfoldable pub visit_single : Ir → State → State
  visit_single ir s =
      let r = s.program.runtime in
      if same_tag ir.tag openmp_single_start
      then with_runtime (record r { in_single_region = true }) s
      else if same_tag ir.tag openmp_single_end
      then with_runtime (record r { in_single_region = false }) s
      else s

  -- `preVisit`: whether the IR is skipped, and the state after it.
  unfoldable pub pre_visit : Ir → State → Built (Bool × State)
  unfolding is_openmp_team_specific visit_join_point visit_master_start visit_master_end
      visit_single
  pre_visit ir s =
      let r = s.program.runtime in
      if r.in_teams_region && is_openmp_team_specific ir.tag
      then done (true, s)
      else if same_tag ir.tag openmp_task_fork
          && r.in_single_region
          && not (is_openmp_master_thread s.spawns)
      then done (true, s)
      else if same_tag ir.tag openmp_fork_teams
      then done (false, with_runtime (record r { in_teams_region = true }) s)
      else if same_tag ir.tag openmp_barrier
          || same_tag ir.tag openmp_task_wait
          || same_tag ir.tag openmp_join
      then visit_join_point s
      else if same_tag ir.tag openmp_master_start
      then visit_master_start ir s
      else if same_tag ir.tag openmp_master_end
      then visit_master_end ir s
      else done (false, visit_single ir s)

-- `preFork` and `postFork`
unfoldable pub pre_fork : Ir → Pid → State → State
pre_fork ir fork s =
    let r = s.program.runtime in
    if same_tag ir.tag openmp_task_fork
    then with_runtime (record r { unjoined_tasks = r.unjoined_tasks ++ (fork, ir) ∷ [] }) s
    else s

unfoldable pub post_fork : Ir → State → State
post_fork ir s =
    if same_tag ir.tag openmp_fork_teams
    then with_runtime (record s.program.runtime { in_teams_region = false }) s
    else s
