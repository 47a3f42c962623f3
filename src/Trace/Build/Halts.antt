-- ===== src/Trace/Build/Halts.antt =====
-- The building of a trace ends: the call stack and the entries of the threads hold no function twice.
use open_race.Prelude.{
  ℕ, zero, suc, ◌<◌, true, not, ◌&&◌, Option, none, some, List, [], ◌∷◌, ◌≡◌, ◌≢◌, inl, inr, refl,
  sym, ◌∙◌, length, arith, Bool-cases,
}
use open_race.Ir.{Ir, is_fork, is_call}
use open_race.Ir.Operands.{Operands, get_thread_handle}
use open_race.Summary.{get_function_summary}
use open_race.Trace.Event.{Pid, fork}
use open_race.Trace.Build.States.{
  Built, done, fails, out_of_fuel, ◌>>=◌, or_fails, Spawn, State, push, contains, child_state,
}
use open_race.Trace.Build.Runtime.{
  join_tasks, visit_join_point, visit_master_start, visit_master_end, mark_master_start,
  mark_master_end, skip_master_region, pre_visit, pre_fork,
}
use open_race.Trace.Build.{
  Answers, is_recursive_thread_spawn, should_skip_ir, entry_node, visit_join, new_thread,
  in_parallel_now, fork_thread, visit_fork, call_node, visit_call, visit_class, visit_live, visit,
  visit_all, build_trace,
}
use open_race.Trace.Build.Budget.{
  is_recursive_thread_spawn-contains, budget, budget-child, budget-call,
}
use open_race.Trace.Build.Grows.{pre_fork-Grows, pre_visit-Grows}
use open_race.Trace.Build.Whole.{visit-Grows, build_trace-Grows}
use open_race.Trace.Build.Threads.{BuildsWell, visit_call-cases}

module _ {ℓ ℓ'} {First : Type ℓ} {Last : Type ℓ'} where
  pub bind-halts :
      (run : Built First) (next : First → Built Last)
      → run ≢ out_of_fuel
      → ((mid : First) → run ≡ done mid → next mid ≢ out_of_fuel)
      → (run >>= next) ≢ out_of_fuel
  bind-halts (done mid) next h g = g mid refl
  bind-halts fails next h g = λ e. cc
  bind-halts out_of_fuel next h g = λ e. h refl

pub done-halts {ℓ} : {A : Type ℓ} (a : A) → done a ≢ out_of_fuel
done-halts a = λ e. cc

or_fails-halts {ℓ} : {A : Type ℓ} (o : Option A) → or_fails o ≢ out_of_fuel
or_fails-halts none = λ e. cc
or_fails-halts (some a) = λ e. cc

module _ (o : Operands) where
  join_tasks-halts : (tasks : List (Pid × Ir)) (s : State) → join_tasks o tasks s ≢ out_of_fuel
  unfolding join_tasks
  join_tasks-halts [] s = λ e. cc
  join_tasks-halts ((task, ir) ∷ tasks) s =
      bind-halts (or_fails (get_thread_handle o _)) _ (or_fails-halts _)
        (λ handle e. join_tasks-halts tasks _)

  pre_visit-halts : (ir : Ir) (s : State) → pre_visit o ir s ≢ out_of_fuel
  unfolding pre_visit visit_join_point visit_master_start visit_master_end mark_master_start
      mark_master_end skip_master_region
  pre_visit-halts ir s e = ground (arith, join_tasks-halts s.program.runtime.unjoined_tasks s)

entry_node-halts : (a : Answers) (context : ℕ) (ir : Ir) → entry_node a context ir ≢ out_of_fuel
unfolding entry_node
entry_node-halts a context ir e = ground arith

visit_join-halts : (a : Answers) (ir : Ir) (s : State) → visit_join a ir s ≢ out_of_fuel
unfolding visit_join
visit_join-halts a ir s e = ground arith

-- What the fuel of a building is enough for.
abbrev EndsWithin : Answers → List ℕ → ℕ → (ℕ → State → Built State) → Type 0
EndsWithin a funcs m build =
    (node : ℕ) (s : State)
    → budget a.function_of funcs s.spawns s.callstack < m
    → build node s ≢ out_of_fuel

module _ (a : Answers) (funcs : List ℕ)
    (every : (node : ℕ) → contains (a.function_of node) funcs ≡ true) where
  module _ (m : ℕ) (build : ℕ → State → Built State) (well : BuildsWell build)
      (ends : EndsWithin a funcs m build) where
    fork_thread-halts :
        (ir : Ir) (handle entry : ℕ) (s : State)
        → budget a.function_of funcs s.spawns s.callstack < m
        → fork_thread a build ir handle entry s ≢ out_of_fuel
    unfolding fork_thread new_thread child_state push
    fork_thread-halts ir handle entry s enough =
        elim (Bool-cases (is_recursive_thread_spawn a s entry 2)) [
          | inl again ↦ rw again (λ e. cc)
          | inr fresh ↦
              let pid : Pid = record { tid = s.tid; eid = length s.events } in
              let spawn : Spawn = record { fork = pid; ir = ir; entry = entry } in
              let s' = in_parallel_now (push (fork handle) ir s) in
              let unseen_entry = sym (is_recursive_thread_spawn-contains a s entry) ∙ fresh in
              let less : budget a.function_of funcs (spawn ∷ s.spawns) [] < m = omega (
                arith,
                enough,
                budget-child a.function_of funcs spawn s.spawns s.callstack (every entry)
                    unseen_entry,
              ) in
              let within : budget a.function_of funcs (spawn ∷ (pre_fork ir pid s').spawns) [] < m =
                rw ((pre_fork-Grows ir pid s').same_spawns) less in
              rw fresh (
                bind-halts (new_thread a build spawn (pre_fork ir pid s')) _
                  (bind-halts (build entry _) _ (ends entry _ within) (λ u e q. cc)) (λ u e q. cc))
        ]

    visit_fork-halts :
        (ir : Ir) (s : State)
        → budget a.function_of funcs s.spawns s.callstack < m
        → visit_fork a build ir s ≢ out_of_fuel
    unfolding visit_fork
    visit_fork-halts ir s enough =
        bind-halts (entry_node a s.context ir) _ (entry_node-halts a s.context ir) (λ found _.
          bind-halts (or_fails found) _ (or_fails-halts found) (λ entry _.
            bind-halts (or_fails (get_thread_handle a.operands ir)) _ (or_fails-halts _)
              (λ handle _. fork_thread-halts ir handle entry s enough)))

    call_node-halts :
        (ir : Ir) (direct : Option ℕ) (s : State)
        → budget a.function_of funcs s.spawns s.callstack < m
        → call_node a build ir direct s ≢ out_of_fuel
    unfolding call_node push
    call_node-halts ir none s enough = λ e. cc
    call_node-halts ir (some direct) s enough = elim (Bool-cases (a.is_ext_function direct)) [
      | inl ext ↦ rw ext (λ e. cc)
      | inr inner ↦ rw inner (bind-halts (build direct _) _ (ends direct _ enough) (λ u e q. cc))
    ]

    visit_call-halts :
        (node : ℕ) (ir : Ir) (s : State)
        → budget a.function_of funcs s.spawns s.callstack < m
        → visit_call a build node ir s ≢ out_of_fuel
    visit_call-halts node ir s enough e = elim (visit_call-cases a build well node ir s) [
      | inl q ↦ ground arith
      | inr (direct, q) ↦ call_node-halts ir direct s enough (sym q ∙ e)
    ]

    visit_class-halts :
        (node : ℕ) (ir : Ir) (s : State)
        → budget a.function_of funcs s.spawns s.callstack < m
        → visit_class a build node ir s ≢ out_of_fuel
    unfolding visit_class
    visit_class-halts node ir s enough e = ground (
      arith,
      visit_fork-halts ir s enough,
      visit_call-halts node ir s enough,
      visit_join-halts a ir s,
    )

    visit_live-halts :
        (node : ℕ) (ir : Ir) (s : State)
        → budget a.function_of funcs s.spawns s.callstack < m
        → visit_live a build node ir s ≢ out_of_fuel
    unfolding visit_live
    visit_live-halts node ir s enough =
        elim (Bool-cases
          (not s.program.in_parallel && not (is_fork ir.tag) && not (is_call ir.tag))) [
            | inl out ↦ rw out (λ e. cc)
            | inr goes ↦ rw goes (
                bind-halts (pre_visit a.operands ir s) _ (pre_visit-halts a.operands ir s)
                  (λ (skipped, u) before. elim (Bool-cases skipped) [
                    | inl skips ↦ rw skips (λ e. cc)
                    | inr visits ↦
                        let g = pre_visit-Grows a.operands ir s u skipped before in
                        rw visits (
                          visit_class-halts node ir u (rw (g.same_spawns, g.same_callstack) enough))
                  ]))
          ]

    visit-halts :
        (node : ℕ) (ir : Ir) (s : State)
        → budget a.function_of funcs s.spawns s.callstack < m
        → visit a build node ir s ≢ out_of_fuel
    unfolding visit should_skip_ir
    visit-halts node ir s enough e = ground (
      arith,
      visit_live-halts node ir s enough,
      visit_live-halts node ir (record s { skip_until = none }) enough,
    )

    visit_all-halts :
        (node : ℕ) (irs : List Ir) (s : State)
        → budget a.function_of funcs s.spawns s.callstack < m
        → visit_all a build node irs s ≢ out_of_fuel
    unfolding visit_all
    visit_all-halts node [] s enough = λ e. cc
    visit_all-halts node (ir ∷ irs) s enough =
        bind-halts (visit a build node ir s) _ (visit-halts node ir s enough) (λ t e.
          let g = visit-Grows a build well node ir s t e in
          visit_all-halts node irs t (rw (g.same_spawns, g.same_callstack) enough))

  pub build_trace-halts :
      (fuel node : ℕ) (s : State)
      → budget a.function_of funcs s.spawns s.callstack < fuel
      → build_trace a fuel node s ≢ out_of_fuel
  unfolding build_trace
  build_trace-halts zero node s enough = absurd (omega (arith, enough))
  build_trace-halts (suc fuel) node s enough =
      elim (Bool-cases (contains (a.function_of node) s.callstack)) [
        | inl recursive ↦ rw recursive (λ e. cc)
        | inr fresh ↦
            let func = a.function_of node in
            let less =
              budget-call a.function_of funcs func s.spawns s.callstack (every node) fresh in
            let within : budget a.function_of funcs s.spawns (func ∷ s.callstack) < fuel =
              omega (arith, less, enough) in
            let summarized = get_function_summary s.program.summaries func (a.blocks_of func) in
            rw fresh (
              bind-halts (or_fails summarized) _ (or_fails-halts summarized) (λ (summary, cache) e.
                let s' : State = record s {
                  callstack = func ∷ s.callstack;
                  context = a.context_of node;
                  program = record s.program { summaries = cache };
                } in
                bind-halts (visit_all a (build_trace a fuel) node summary s') _
                  (visit_all-halts fuel (build_trace a fuel) (build_trace-Grows a fuel)
                    (build_trace-halts fuel) node summary s' within)
                  (λ t e. done-halts _)))
      ]
