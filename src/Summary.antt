-- ===== src/Summary.antt =====
-- The summary of a function in src/IR/Builder.cpp: the IR of its instructions. The instructions are
-- given with what LLVM answers about them.
pub mod Names
pub mod Emitted
pub mod Accesses
pub mod Teams
use Prim.Native.String.{String}
use text.Mathlib.Text.{◌==◌}
use open_race.Prelude.{ℕ_discrete}
use open_race.Prelude.{
  ℕ, if◌then◌else◌, Bool, true, false, not, ◌&&◌, ◌||◌, Option, none, some, List, [], ◌∷◌, ◌++◌,
}
use open_race.Ir.{
  Tag, Ir, load, store, call, pthread_create, pthread_join, pthread_mutex_lock,
  pthread_mutex_unlock, pthread_spin_lock, pthread_spin_unlock, openmp_for_init, openmp_for_fini,
  openmp_dispatch_init, openmp_dispatch_next, openmp_dispatch_fini, openmp_single_start,
  openmp_single_end, openmp_master_start, openmp_master_end, openmp_barrier, openmp_reduce,
  openmp_critical_start, openmp_critical_end, openmp_set_lock, openmp_unset_lock, openmp_task_fork,
  openmp_task_wait, openmp_get_thread_num, openmp_get_thread_num_guard_start,
  openmp_get_thread_num_guard_end, openmp_ordered_start, openmp_ordered_end, openmp_fork,
  openmp_join, openmp_fork_teams, openmp_join_teams,
}
use open_race.Summary.Names.{
  has_no_effect, is_pthread_create, is_pthread_join, is_pthread_mutex_lock, is_pthread_mutex_unlock,
  is_pthread_spin_lock, is_pthread_spin_unlock, is_for_static_init, is_for_static_fini,
  is_for_dispatch_init, is_for_dispatch_next, is_for_dispatch_fini, is_single_start, is_single_end,
  is_master_start, is_master_end, is_barrier, is_reduce_start, is_reduce_nowait_start,
  is_critical_start, is_critical_end, is_set_lock, is_unset_lock, is_task, is_task_wait,
  is_set_nest_lock, is_unset_nest_lock, is_get_thread_num, is_get_thread_num_guard_start,
  is_get_thread_num_guard_end, is_ordered_start, is_ordered_end, is_fork, is_fork_teams, is_openmp,
  is_no_effect,
}

-- A load or a store; `global` is whether its pointer operand is thread local, for a global variable.
pub record Access : Type 0 where
  pub inst : ℕ
  pub is_atomic : Bool
  pub is_volatile : Bool
  pub global : Option Bool

pub record Function : Type 0 where
  pub address : ℕ
  pub name : Option String
  pub is_intrinsic : Bool
  pub is_debug_info_for_profiling : Bool

-- The called operand where it is no function: the operand of a bitcast or the symbol of an alias, as
-- far as it is a function.
pub data Operand : Type 0 where
  bitcast alias : Option Function → Operand
  other_operand : Operand

pub record Call : Type 0 where
  pub inst : ℕ
  pub is_indirect : Bool
  pub called : Option Function
  pub operand : Operand

pub data Inst : Type 0 where
  load_inst store_inst : Access → Inst
  call_inst : Call → Inst
  other_inst : Inst

unfoldable pub has_thread_local_operand : Access → Bool
has_thread_local_operand a = elim a.global [ none ↦ false | some is_local ↦ is_local ]

-- CallIR::resolveTargetFunction
unfoldable pub resolve_target_function : Call → Option Function
resolve_target_function c = elim c.called [
  | some f ↦ elim f.name [ none ↦ none | some _ ↦ some f ]
  | none ↦ elim c.operand [ bitcast f ↦ f | alias f ↦ f | other_operand ↦ none ]
]

-- What the `else if` chain does for a name.
pub data Action : Type 0 where
  nothing unknown : Action
  emits : Tag → Action
  twins : Bool → Tag → Tag → (String → Bool) → Action

unfoldable pub is_printf : String → Bool
is_printf name = name == "printf"

-- The tests of the chain with what is done, in the order of the code.
unfoldable pub recognizers : List ((String → Bool) × Action)
unfolding is_printf has_no_effect is_pthread_create is_pthread_join is_pthread_mutex_lock
    is_pthread_mutex_unlock is_pthread_spin_lock is_pthread_spin_unlock is_for_static_init
    is_for_static_fini is_for_dispatch_init is_for_dispatch_next is_for_dispatch_fini
    is_single_start is_single_end is_master_start is_master_end is_barrier is_reduce_start
    is_reduce_nowait_start is_critical_start is_critical_end is_set_lock is_unset_lock is_task
    is_task_wait is_set_nest_lock is_unset_nest_lock is_get_thread_num is_get_thread_num_guard_start
    is_get_thread_num_guard_end is_ordered_start is_ordered_end is_fork is_fork_teams
recognizers =
    (has_no_effect, nothing)
    ∷ (is_pthread_create, emits pthread_create)
    ∷ (is_pthread_join, emits pthread_join)
    ∷ (is_pthread_mutex_lock, emits pthread_mutex_lock)
    ∷ (is_pthread_mutex_unlock, emits pthread_mutex_unlock)
    ∷ (is_pthread_spin_lock, emits pthread_spin_lock)
    ∷ (is_pthread_spin_unlock, emits pthread_spin_unlock)
    ∷ (is_for_static_init, emits openmp_for_init)
    ∷ (is_for_static_fini, emits openmp_for_fini)
    ∷ (is_for_dispatch_init, emits openmp_dispatch_init)
    ∷ (is_for_dispatch_next, emits openmp_dispatch_next)
    ∷ (is_for_dispatch_fini, emits openmp_dispatch_fini)
    ∷ (is_single_start, emits openmp_single_start)
    ∷ (is_single_end, emits openmp_single_end)
    ∷ (is_master_start, emits openmp_master_start)
    ∷ (is_master_end, emits openmp_master_end)
    ∷ (is_barrier, emits openmp_barrier)
    ∷ (λ name. is_reduce_start name || is_reduce_nowait_start name, emits openmp_reduce)
    ∷ (is_critical_start, emits openmp_critical_start)
    ∷ (is_critical_end, emits openmp_critical_end)
    ∷ (is_set_lock, emits openmp_set_lock)
    ∷ (is_unset_lock, emits openmp_unset_lock)
    ∷ (is_task, emits openmp_task_fork)
    ∷ (is_task_wait, emits openmp_task_wait)
    ∷ (is_set_nest_lock, emits openmp_set_lock)
    ∷ (is_unset_nest_lock, emits openmp_unset_lock)
    ∷ (is_get_thread_num, emits openmp_get_thread_num)
    ∷ (is_get_thread_num_guard_start, emits openmp_get_thread_num_guard_start)
    ∷ (is_get_thread_num_guard_end, emits openmp_get_thread_num_guard_end)
    ∷ (is_ordered_start, emits openmp_ordered_start)
    ∷ (is_ordered_end, emits openmp_ordered_end)
    ∷ (is_fork, twins true openmp_fork openmp_join is_fork)
    ∷ (is_fork_teams, twins false openmp_fork_teams openmp_join_teams is_fork_teams)
    ∷ (is_printf, nothing)
    ∷ []

unfoldable pub recognize : String → List ((String → Bool) × Action) → Action
recognize name [] = unknown
recognize name ((test, action) ∷ table) = if test name then action else recognize name table

-- The IR that an instruction adds, and whether the next instruction is skipped.
abbrev pub Step : Type 0
Step = List Ir × Bool

abbrev pub only : Tag → ℕ → List Ir
only tag inst = record { tag = tag; inst = inst; is_forking_master = false } ∷ []

-- The first fork of a team; of OpenMPFork it forks the master thread.
abbrev pub forked : Bool → Tag → ℕ → List Ir
forked master tag inst = record { tag = tag; inst = inst; is_forking_master = master } ∷ []

abbrev pub no_ir : Option Step
no_ir = some ([], false)

unfoldable pub access_step : Tag → Access → Option Step
unfolding has_thread_local_operand
access_step tag a =
    if a.is_atomic || a.is_volatile || has_thread_local_operand a
    then no_ir
    else some (only tag a.inst, false)

unfoldable pub get_next_call : List Inst → Option Call
get_next_call (call_inst d ∷ _) = some d
get_next_call _ = none

-- getTwinOmpFork and getTwinOmpForkTeams, from the instructions behind the fork; `none` where the
-- next call has no called function, of which the name is read.
unfoldable pub get_twin : (String → Bool) → List Inst → Option (Option Call)
unfolding get_next_call
get_twin is_twin next = elim (get_next_call next) [
  | none ↦ some none
  | some d ↦ elim d.called [
    | none ↦ none
    | some f ↦ elim f.name [
      | none ↦ some none
      | some name ↦ some (if is_twin name then some d else none)
    ]
  ]
]

-- The message on a fork without a twin reads the next instruction, a null pointer at the end.
unfoldable pub skip_region : List Inst → Option Step
skip_region [] = none
skip_region (_ ∷ _) = no_ir

-- A fork of OpenMP: two forks and two joins, if the next instruction is its twin.
unfoldable pub twin_step : Bool → Tag → Tag → (String → Bool) → Call → List Inst → Option Step
unfolding get_twin skip_region
twin_step master fork_tag join_tag is_twin c next = elim (get_twin is_twin next) [
  | none ↦ none
  | some none ↦ skip_region next
  | some (some d) ↦ some (
    forked master fork_tag c.inst
        ++ (only fork_tag d.inst ++ (only join_tag c.inst ++ only join_tag d.inst)),
    true,
  )
]

-- `getName`, empty for a function without a name.
unfoldable pub get_name : Function → String
get_name f = elim f.name [ none ↦ "" | some name ↦ name ]

-- The branches of the chain; `none` where the assertion that every call of OpenMP is handled fails.
unfoldable pub act : Action → Call → String → List Inst → Option Step
unfolding twin_step is_openmp is_no_effect
act nothing c name next = no_ir
act (emits tag) c name next = some (only tag c.inst, false)
act (twins master fork_tag join_tag is_twin) c name next =
    twin_step master fork_tag join_tag is_twin c next
act unknown c name next =
    if is_openmp name && not (is_no_effect name) then none else some (only call c.inst, false)

unfoldable pub named_step : Call → String → List Inst → Option Step
unfolding recognize recognizers act
named_step c name next = act (recognize name recognizers) c name next

unfoldable pub call_step : Call → List Inst → Option Step
unfolding resolve_target_function get_name named_step
call_step c next =
    if c.is_indirect then some (only call c.inst, false) else elim (resolve_target_function c) [
      | none ↦ no_ir
      | some f ↦
          if f.is_intrinsic || f.is_debug_info_for_profiling
          then no_ir
          else named_step c (get_name f) next
    ]

-- The body of the loop over the instructions of a basic block.
unfoldable pub step : Inst → List Inst → Option Step
unfolding access_step call_step
step (load_inst a) next = access_step load a
step (store_inst a) next = access_step store a
step (call_inst c) next = call_step c next
step other_inst next = no_ir

-- The loop over the instructions; `skip` is whether the iterator was moved past the first one.
unfoldable pub block_summary : Bool → List Inst → Option (List Ir)
unfolding step
block_summary skip [] = some []
block_summary true (i ∷ is) = block_summary false is
block_summary false (i ∷ is) = elim (step i is) [
  | none ↦ none
  | some (irs, skip) ↦ elim (block_summary skip is) [ none ↦ none | some rest ↦ some (irs ++ rest) ]
]

-- generateFunctionSummary, over the basic blocks.
unfoldable pub generate_function_summary : List (List Inst) → Option (List Ir)
unfolding block_summary
generate_function_summary [] = some []
generate_function_summary (block ∷ blocks) = elim (block_summary false block) [
  | none ↦ none
  | some irs ↦ elim (generate_function_summary blocks) [
    | none ↦ none
    | some rest ↦ some (irs ++ rest)
  ]
]

unfoldable pub find_summary : ℕ → List (ℕ × List Ir) → Option (List Ir)
find_summary func [] = none
find_summary func ((f, summary) ∷ cache) = elim (ℕ_discrete f func) [
  | yes _ ↦ some summary
  | no _ ↦ find_summary func cache
]

-- FunctionSummaryBuilder::getFunctionSummary: the cache of summaries by function. The blocks of the
-- function are given with it.
unfoldable pub get_function_summary :
    List (ℕ × List Ir) → ℕ → List (List Inst) → Option (List Ir × List (ℕ × List Ir))
unfolding generate_function_summary
get_function_summary cache func blocks = elim (find_summary func cache) [
  | some summary ↦ some (summary, cache)
  | none ↦ elim (generate_function_summary blocks) [
    | none ↦ none
    | some summary ↦ some (summary, (func, summary) ∷ cache)
  ]
]
