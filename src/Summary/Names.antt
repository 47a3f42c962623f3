-- ===== src/Summary/Names.antt =====
-- The functions by whose names src/LanguageModel/pthread.h, OpenMP.h and LLVMInstrinsics.h know the
-- calls of the runtimes.
use Prim.Native.String.{String}
use text.Mathlib.Text.{◌==◌, starts_with}
use open_race.Prelude.{Bool, false, ◌||◌, List, [], ◌∷◌}

unfoldable pub matches_any : String → List String → Bool
matches_any name [] = false
matches_any name (n ∷ ns) = name == n || matches_any name ns

unfoldable pub is_pthread_create : String → Bool
is_pthread_create name = name == "pthread_create"

unfoldable pub is_pthread_join : String → Bool
is_pthread_join name = name == "pthread_join"

unfoldable pub is_pthread_mutex_lock : String → Bool
is_pthread_mutex_lock name = name == "pthread_mutex_lock"

unfoldable pub is_pthread_mutex_unlock : String → Bool
is_pthread_mutex_unlock name = name == "pthread_mutex_unlock"

unfoldable pub is_pthread_spin_lock : String → Bool
is_pthread_spin_lock name = name == "pthread_spin_lock"

unfoldable pub is_pthread_spin_unlock : String → Bool
is_pthread_spin_unlock name = name == "pthread_spin_unlock"

unfoldable pub is_fork : String → Bool
is_fork name = name == "__kmpc_fork_call"

unfoldable pub is_fork_teams : String → Bool
is_fork_teams name = name == "__kmpc_fork_teams"

unfoldable pub is_for_static_fini : String → Bool
is_for_static_fini name = name == "__kmpc_for_static_fini"

unfoldable pub is_for_dispatch_init : String → Bool
is_for_dispatch_init name = starts_with name "__kmpc_dispatch_init"

unfoldable pub is_for_dispatch_next : String → Bool
is_for_dispatch_next name = starts_with name "__kmpc_dispatch_next"

unfoldable pub is_for_dispatch_fini : String → Bool
is_for_dispatch_fini name = starts_with name "__kmpc_dispatch_fini"

unfoldable pub is_single_start : String → Bool
is_single_start name = name == "__kmpc_single"

unfoldable pub is_single_end : String → Bool
is_single_end name = name == "__kmpc_end_single"

unfoldable pub is_barrier : String → Bool
is_barrier name = name == "__kmpc_barrier"

unfoldable pub is_reduce_start : String → Bool
is_reduce_start name = name == "__kmpc_reduce"

unfoldable pub is_reduce_end : String → Bool
is_reduce_end name = name == "__kmpc_end_reduce"

unfoldable pub is_reduce_nowait_start : String → Bool
is_reduce_nowait_start name = name == "__kmpc_reduce_nowait"

unfoldable pub is_reduce_nowait_end : String → Bool
is_reduce_nowait_end name = name == "__kmpc_end_reduce_nowait"

unfoldable pub is_critical_start : String → Bool
is_critical_start name = name == "__kmpc_critical"

unfoldable pub is_critical_end : String → Bool
is_critical_end name = name == "__kmpc_end_critical"

unfoldable pub is_master_start : String → Bool
is_master_start name = name == "__kmpc_master"

unfoldable pub is_master_end : String → Bool
is_master_end name = name == "__kmpc_end_master"

unfoldable pub is_set_lock : String → Bool
is_set_lock name = name == "omp_set_lock"

unfoldable pub is_unset_lock : String → Bool
is_unset_lock name = name == "omp_unset_lock"

unfoldable pub is_task_alloc : String → Bool
is_task_alloc name = name == "__kmpc_omp_task_alloc"

unfoldable pub is_task : String → Bool
is_task name = name == "__kmpc_omp_task"

unfoldable pub is_task_wait : String → Bool
is_task_wait name = name == "__kmpc_omp_taskwait"

unfoldable pub is_set_nest_lock : String → Bool
is_set_nest_lock name = name == "omp_set_nest_lock"

unfoldable pub is_unset_nest_lock : String → Bool
is_unset_nest_lock name = name == "omp_unset_nest_lock"

unfoldable pub is_ordered_start : String → Bool
is_ordered_start name = name == "__kmpc_ordered"

unfoldable pub is_ordered_end : String → Bool
is_ordered_end name = name == "__kmpc_end_ordered"

unfoldable pub is_openmp : String → Bool
is_openmp name = starts_with name "__kmpc"

unfoldable pub is_get_thread_num : String → Bool
is_get_thread_num name = name == "omp_get_thread_num"

unfoldable pub is_for_static_init : String → Bool
unfolding matches_any
is_for_static_init name = matches_any name (
    "__kmpc_for_static_init_4" ∷ "__kmpc_for_static_init_4u" ∷ "__kmpc_for_static_init_8"
    ∷ "__kmpc_for_static_init_8u" ∷ [])

unfoldable pub is_get_thread_num_guard_start : String → Bool
is_get_thread_num_guard_start name = name == "omp_get_thread_num_guard_start"

unfoldable pub is_get_thread_num_guard_end : String → Bool
is_get_thread_num_guard_end name = name == "omp_get_thread_num_guard_end"

-- OpenMPModel::isNoEffect
unfoldable pub is_no_effect : String → Bool
unfolding matches_any is_reduce_end is_reduce_nowait_end is_task_alloc
is_no_effect name =
    matches_any name (
      "__kmpc_push_num_threads" ∷ "__kmpc_global_thread_num" ∷ "__kmpc_copyprivate"
      ∷ "__kmpc_push_num_teams" ∷ [])
    || is_reduce_end name
    || is_reduce_nowait_end name
    || is_task_alloc name

-- LLVMModel::isNoEffect
unfoldable pub has_no_effect : String → Bool
has_no_effect name =
    name == "llvm.dbg.declare"
    || name == "llvm.dbg.value"
    || starts_with name "llvm.lifetime"
    || name == "llvm.stacksave"
    || name == "llvm.stackrestore"
    || starts_with name "llvm.memcpy"
