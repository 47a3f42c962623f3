-- ===== src/Ir.antt =====
-- IR::Type of src/IR/IR.h and the classof tests of the IR classes, which compare the places of the
-- types in the enumeration. The end of a range is an enumerator of its own.
pub mod Operands
use open_race.Prelude.{ℕ, ◌==◌, ◌&&◌, Bool, leb, ltb}

pub data Tag : Type 0 where
  read load api_read end_read write store api_write end_write fork pthread_create openmp_fork
        openmp_task_fork openmp_fork_teams end_fork join pthread_join openmp_join openmp_task_join
        openmp_join_teams end_join lock pthread_mutex_lock pthread_spin_lock openmp_critical_start
        openmp_set_lock openmp_ordered_start end_lock unlock pthread_mutex_unlock
        pthread_spin_unlock openmp_critical_end openmp_unset_lock openmp_ordered_end end_unlock
        barrier openmp_barrier end_barrier call openmp_for_init openmp_for_fini openmp_dispatch_init
        openmp_dispatch_next openmp_dispatch_fini openmp_single_start openmp_single_end
        openmp_reduce openmp_master_start openmp_master_end openmp_get_thread_num openmp_task_wait
        openmp_get_thread_num_guard_start openmp_get_thread_num_guard_end end_call :
      Tag

-- The place of a type in the enumeration.
unfoldable pub place : Tag → ℕ
place read = 0
place load = 1
place api_read = 2
place end_read = 3
place write = 4
place store = 5
place api_write = 6
place end_write = 7
place fork = 8
place pthread_create = 9
place openmp_fork = 10
place openmp_task_fork = 11
place openmp_fork_teams = 12
place end_fork = 13
place join = 14
place pthread_join = 15
place openmp_join = 16
place openmp_task_join = 17
place openmp_join_teams = 18
place end_join = 19
place lock = 20
place pthread_mutex_lock = 21
place pthread_spin_lock = 22
place openmp_critical_start = 23
place openmp_set_lock = 24
place openmp_ordered_start = 25
place end_lock = 26
place unlock = 27
place pthread_mutex_unlock = 28
place pthread_spin_unlock = 29
place openmp_critical_end = 30
place openmp_unset_lock = 31
place openmp_ordered_end = 32
place end_unlock = 33
place barrier = 34
place openmp_barrier = 35
place end_barrier = 36
place call = 37
place openmp_for_init = 38
place openmp_for_fini = 39
place openmp_dispatch_init = 40
place openmp_dispatch_next = 41
place openmp_dispatch_fini = 42
place openmp_single_start = 43
place openmp_single_end = 44
place openmp_reduce = 45
place openmp_master_start = 46
place openmp_master_end = 47
place openmp_get_thread_num = 48
place openmp_task_wait = 49
place openmp_get_thread_num_guard_start = 50
place openmp_get_thread_num_guard_end = 51
place end_call = 52

-- The IR of an instruction: its type, and the instruction that `getInst` returns. The IR of a join of
-- OpenMP returns the instruction of its fork. The last field is the member of OpenMPFork, and false
-- for all others.
pub record Ir : Type 0 where
  pub tag : Tag
  pub inst : ℕ
  pub is_forking_master : Bool

unfoldable pub same_tag : Tag → Tag → Bool
unfolding place
same_tag t u = place t == place u

-- `first <= type && type < last`
unfoldable pub is_between : Tag → Tag → Tag → Bool
unfolding place
is_between first last tag = leb (place first) (place tag) && ltb (place tag) (place last)

-- MemAccessIR::classof, which includes the end of its range.
unfoldable pub is_mem_access : Tag → Bool
unfolding place
is_mem_access tag = leb (place read) (place tag) && leb (place tag) (place end_write)

unfoldable pub is_read : Tag → Bool
unfolding is_between
is_read = is_between read end_read

unfoldable pub is_write : Tag → Bool
unfolding is_between
is_write = is_between write end_write

unfoldable pub is_fork : Tag → Bool
unfolding is_between
is_fork = is_between fork end_fork

unfoldable pub is_join : Tag → Bool
unfolding is_between
is_join = is_between join end_join

unfoldable pub is_lock : Tag → Bool
unfolding is_between
is_lock = is_between lock end_lock

unfoldable pub is_unlock : Tag → Bool
unfolding is_between
is_unlock = is_between unlock end_unlock

unfoldable pub is_barrier : Tag → Bool
unfolding is_between
is_barrier = is_between barrier end_barrier

unfoldable pub is_call : Tag → Bool
unfolding is_between
is_call = is_between call end_call
