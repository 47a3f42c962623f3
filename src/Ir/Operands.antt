-- ===== src/Ir/Operands.antt =====
-- The values that the classes of src/IR/IRImpls.h read from their instructions: the accessed value,
-- the handle and the entry of a thread, and the value of a lock.
use Prim.Native.String.{String}
use open_race.Prelude.{ℕ, if◌then◌else◌, Option, none, some}
use open_race.Ir.{
  Tag, Ir, openmp_task_fork, openmp_task_join, openmp_critical_start, openmp_critical_end,
}
use open_race.Summary.Names.{is_task_alloc}

-- What LLVM answers: getPointerOperand, getArgOperand with stripPointerCasts, and for a value that is
-- a call the call and the name of the function it calls.
pub record Operands : Type 0 where
  pub pointer_operand : ℕ → ℕ
  pub arg_operand : ℕ → ℕ → ℕ
  pub as_call : ℕ → Option (ℕ × String)

module _ (o : Operands) where
  unfoldable pub get_accessed_value : Ir → ℕ
  get_accessed_value ir = o.pointer_operand ir.inst

  -- OpenMPTaskFork::getThreadEntry; `none` where one of its assertions fails.
  unfoldable pub get_task_entry : ℕ → Option ℕ
  get_task_entry inst = elim (o.as_call (o.arg_operand inst 2)) [
    | none ↦ none
    | some (alloc, name) ↦ if is_task_alloc name then some (o.arg_operand alloc 5) else none
  ]

  entry_by_tag : Tag → ℕ → Option ℕ
  entry_by_tag openmp_task_fork inst = get_task_entry inst
  entry_by_tag _ inst = some (o.arg_operand inst 2)

  -- ForkIR::getThreadEntry
  unfoldable pub get_thread_entry : Ir → Option ℕ
  unfolding entry_by_tag get_task_entry
  get_thread_entry ir = entry_by_tag ir.tag ir.inst

  handle_by_tag : Tag → ℕ → Option ℕ
  handle_by_tag openmp_task_fork inst = get_task_entry inst
  handle_by_tag openmp_task_join inst = get_task_entry inst
  handle_by_tag _ inst = some (o.arg_operand inst 0)

  -- ForkIR::getThreadHandle and JoinIR::getThreadHandle
  unfoldable pub get_thread_handle : Ir → Option ℕ
  unfolding handle_by_tag get_task_entry
  get_thread_handle ir = handle_by_tag ir.tag ir.inst

  lock_offset : Tag → ℕ
  lock_offset openmp_critical_start = 2
  lock_offset openmp_critical_end = 2
  lock_offset _ = 0

  -- LockIR::getLockValue and UnlockIR::getLockValue
  unfoldable pub get_lock_value : Ir → ℕ
  unfolding lock_offset
  get_lock_value ir = o.arg_operand ir.inst (lock_offset ir.tag)
