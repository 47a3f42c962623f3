-- ===== src/Trace/Build.antt =====
-- The building of a program's threads and events: src/Trace/Build/TraceBuilder.cpp, with the thread's
-- constructor in src/Trace/ThreadTrace.cpp.
pub mod States
pub mod Runtime
pub mod Grows
pub mod Threads
pub mod Whole
pub mod Budget
pub mod Halts
use open_race.Prelude.{
  ℕ, zero, suc, ◌+◌, ◌==◌, leb, if◌then◌else◌, Bool, true, false, not, ◌&&◌, ◌||◌, Option, none,
  some, List, [], ◌∷◌, length,
}
use open_race.Ir.{Ir, is_read, is_write, is_fork, is_join, is_lock, is_unlock, is_barrier, is_call}
use open_race.Ir.Operands.{
  Operands, get_accessed_value, get_thread_entry, get_thread_handle, get_lock_value,
}
use open_race.Summary.{Call, Function, Inst, resolve_target_function, get_function_summary}
use open_race.Trace.Event.{
  Pid, Kind, read, write, fork, join, lock, unlock, barrier, call, call_end, extern_call, Event,
  Thread,
}
use open_race.Trace.Build.States.{
  Built, done, fails, out_of_fuel, ◌>>=◌, Forest, no_threads, thread_with, add_thread, Spawn,
  Program, State, push, contains, pop, or_fails, child_state, back_in,
}
use open_race.Trace.Build.Runtime.{pre_visit, pre_fork, post_fork}

-- What LLVM and the pointer analysis answer. A node of the call graph, a context and a function are
-- numbers.
pub record Answers : Type 0 where
  pub operands : Operands
  -- the called function and operand of a call instruction
  pub call_of : ℕ → Call
  -- dyn_cast<Function> of the entry of a thread
  pub as_function : ℕ → Option ℕ
  -- the instructions of a function, by basic blocks
  pub blocks_of : ℕ → List (List Inst)
  -- getTargetFun()->getFunction(), getContext() and isExtFunction() of a node
  pub function_of : ℕ → ℕ
  pub context_of : ℕ → ℕ
  pub is_ext_function : ℕ → Bool
  -- contextEvolve, getDirectNodeOrNull, getInDirectCallSite with getResolvedNode, and getPointsTo
  pub context_evolve : ℕ → ℕ → ℕ
  pub direct_node : ℕ → ℕ → Option ℕ
  pub resolved_nodes : ℕ → ℕ → List ℕ
  pub points_to : ℕ → ℕ → List ℕ

-- The loop of `isRecursiveThreadSpawn`, over the spawn sites from a thread up to the main thread.
unfoldable pub counts_to : (ℕ → ℕ) → ℕ → ℕ → ℕ → List Spawn → Bool
counts_to function_of entry_func n count [] = false
counts_to function_of entry_func n count (s ∷ spawns) =
    let next = counts_to function_of entry_func n (count + 1) spawns in
    let same = counts_to function_of entry_func n count spawns in
    if function_of s.entry == entry_func then (if leb n (count + 1) then true else next) else same

-- `programState.inParallel = true`
abbrev pub in_parallel_now : State → State
in_parallel_now s = record s { program = record s.program { in_parallel = true } }

module _ (a : Answers) where
  unfoldable pub is_recursive_thread_spawn : State → ℕ → ℕ → Bool
  unfolding counts_to
  is_recursive_thread_spawn s child_entry n =
      counts_to a.function_of (a.function_of child_entry) n 1 s.spawns

  -- `shouldSkipIR`, with the state after it.
  unfoldable pub should_skip_ir : Ir → State → Bool × State
  should_skip_ir ir s = elim s.skip_until [
    | none ↦ (false, s)
    | some target ↦
        if not (ir.inst == target) then (true, s) else (false, record s { skip_until = none })
  ]

  -- ForkEventImpl::getThreadEntry: the node that a forked thread starts in, `none` for a null pointer.
  -- It fails where no node is resolved for an indirect entry.
  unfoldable pub entry_node : ℕ → Ir → Built (Option ℕ)
  entry_node context ir = do
    value ← or_fails (get_thread_entry a.operands ir)
    elim (a.as_function value) [
      | some func ↦ done (a.direct_node (a.context_evolve context ir.inst) func)
      | none ↦ elim (a.resolved_nodes context ir.inst) [ [] ↦ fails | n ∷ _ ↦ done (some n) ]
    ]

  -- The events of an IR that is no fork and no call.
  unfoldable pub visit_access : Ir → State → State
  visit_access ir s =
      let memory = a.points_to s.context (get_accessed_value a.operands ir) in
      push (if is_read ir.tag then read memory else write memory) ir s

  unfoldable pub visit_join : Ir → State → Built State
  visit_join ir s = do
    handle ← or_fails (get_thread_handle a.operands ir)
    done (push (join none handle) ir s)

  -- The constructor of a thread from its fork event, with what the building of the thread calls.
  unfoldable pub new_thread : (ℕ → State → Built State) → Spawn → State → Built State
  unfolding child_state back_in
  new_thread build spawn s = do t ← build spawn.entry (child_state spawn s); done (back_in s t)

  -- The branch for a fork, from the test for a recursive thread on.
  unfoldable pub fork_thread : (ℕ → State → Built State) → Ir → ℕ → ℕ → State → Built State
  unfolding is_recursive_thread_spawn new_thread
  fork_thread build ir handle entry s = if is_recursive_thread_spawn s entry 2 then done s else do
    let pid : Pid = record { tid = s.tid; eid = length s.events }
    let spawn : Spawn = record { fork = pid; ir = ir; entry = entry }
    t ← new_thread build spawn (pre_fork ir pid (in_parallel_now (push (fork handle) ir s)))
    done (post_fork ir t)

  -- The branch for a fork.
  unfoldable pub visit_fork : (ℕ → State → Built State) → Ir → State → Built State
  unfolding fork_thread
  visit_fork build ir s = do
    found ← entry_node s.context ir
    entry ← or_fails found
    handle ← or_fails (get_thread_handle a.operands ir)
    fork_thread build ir handle entry s

  -- The branch for a call, from the direct node of the callee on.
  unfoldable pub call_node : (ℕ → State → Built State) → Ir → Option ℕ → State → Built State
  call_node build ir none s = done s
  call_node build ir (some direct) s =
      if a.is_ext_function direct
      then done (push extern_call ir s)
      else do t ← build direct (push call ir s); done (push call_end ir t)

  -- The branch for a call.
  unfoldable pub visit_call : (ℕ → State → Built State) → ℕ → Ir → State → Built State
  unfolding call_node
  visit_call build node ir s =
      let c = a.call_of ir.inst in
      if c.is_indirect then done s else elim (resolve_target_function c) [
        | none ↦ done s
        | some callee ↦
            if callee.is_intrinsic || callee.is_debug_info_for_profiling
            then done s
            else call_node build ir
                (a.direct_node (a.context_evolve (a.context_of node) ir.inst) callee.address) s
      ]

  -- The chain over the classes of the IR.
  unfoldable pub visit_class : (ℕ → State → Built State) → ℕ → Ir → State → Built State
  unfolding visit_access visit_join visit_fork visit_call
  visit_class build node ir s =
      if is_read ir.tag || is_write ir.tag
      then done (visit_access ir s)
      else if is_fork ir.tag
      then visit_fork build ir s
      else if is_join ir.tag
      then visit_join ir s
      else if is_lock ir.tag
      then done (push (lock (get_lock_value a.operands ir)) ir s)
      else if is_unlock ir.tag
      then done (push (unlock (get_lock_value a.operands ir)) ir s)
      else if is_barrier ir.tag
      then done (push barrier ir s)
      else if is_call ir.tag
      then visit_call build node ir s
      else fails

  -- The body of the loop over the summary, for an IR that is not skipped at once.
  unfoldable pub visit_live : (ℕ → State → Built State) → ℕ → Ir → State → Built State
  unfolding visit_class
  visit_live build node ir s =
      if not s.program.in_parallel && not (is_fork ir.tag) && not (is_call ir.tag)
      then done s
      else do
        (skipped, t) ← pre_visit a.operands ir s
        if skipped then done t else visit_class build node ir t

  -- The body of the loop over the summary.
  unfoldable pub visit : (ℕ → State → Built State) → ℕ → Ir → State → Built State
  unfolding should_skip_ir visit_live
  visit build node ir s =
      let (skip, s') = should_skip_ir ir s in if skip then done s' else visit_live build node ir s'

  unfoldable pub visit_all : (ℕ → State → Built State) → ℕ → List Ir → State → Built State
  unfolding visit
  visit_all build node [] s = done s
  visit_all build node (ir ∷ irs) s = do t ← visit build node ir s; visit_all build node irs t

  -- `buildTrace`, with fuel for its nested calls and threads.
  unfoldable pub build_trace : ℕ → ℕ → State → Built State
  unfolding visit_all
  build_trace zero node s = out_of_fuel
  build_trace (suc fuel) node s =
      let func = a.function_of node in
      if contains func s.callstack then done s else do
        (summary, cache) ←
            or_fails (get_function_summary s.program.summaries func (a.blocks_of func))
        let s' : State = record s {
          callstack = func ∷ s.callstack;
          context = a.context_of node;
          program = record s.program { summaries = cache };
        }
        t ← visit_all (build_trace fuel) node summary s'
        done (record t { callstack = pop t.callstack })
