-- ===== src/Trace/Program/Order.antt =====
-- The order of the flat list of threads that src/Trace/ProgramTrace.cpp makes with its worklist.
use open_race.Prelude.{
  ℕ, zero, suc, ◌+◌, ◌≤◌, some, List, [], ◌∷◌, ◌++◌, map, ◌≡◌, refl, ◌∙◌, arith,
}
use mathlib.Core.List.{append_assoc, append-nil, map-append}
use open_race.Trace.Event.{Thread}
use open_race.Trace.Build.States.{Forest, no_threads, thread_with}
use open_race.Trace.Build.Grows.{ids}
use open_race.Trace.Program.{push_children, flat_threads, thread_count, threads_of}

-- A thread before those that it has forked, and these in the order of the forks.
abbrev pub preorder : Forest → List Thread
preorder no_threads = []
preorder (thread_with t below rest) = t ∷ (preorder below ++ preorder rest)

pending : List (Thread × Forest) → List Thread
pending [] = []
pending ((t, below) ∷ worklist) = t ∷ (preorder below ++ pending worklist)

pending_count : List (Thread × Forest) → ℕ
pending_count [] = 0
pending_count ((t, below) ∷ worklist) = suc (thread_count below + pending_count worklist)

pending-push_children :
    (f : Forest) (worklist : List (Thread × Forest))
    → pending (push_children f worklist) ≡ preorder f ++ pending worklist
unfolding pending push_children
pending-push_children no_threads worklist = refl
pending-push_children (thread_with t below rest) worklist =
    simp (pending-push_children rest worklist, append_assoc)

pending_count-push_children :
    (f : Forest) (worklist : List (Thread × Forest))
    → pending_count (push_children f worklist) ≡ thread_count f + pending_count worklist
unfolding pending_count push_children thread_count
pending_count-push_children no_threads worklist = omega arith
pending_count-push_children (thread_with t below rest) worklist =
    omega (arith, pending_count-push_children rest worklist)

flat_threads-pending :
    (fuel : ℕ) (worklist : List (Thread × Forest)) (threads : List Thread)
    → pending_count worklist ≤ fuel
    → flat_threads fuel worklist threads ≡ some (threads ++ pending worklist)
unfolding flat_threads pending pending_count
flat_threads-pending zero [] threads h = simp append-nil
flat_threads-pending zero ((t, below) ∷ worklist) threads h = absurd (omega (arith, h))
flat_threads-pending (suc fuel) [] threads h = simp append-nil
flat_threads-pending (suc fuel) ((t, below) ∷ worklist) threads h =
    flat_threads-pending fuel (push_children below worklist) (threads ++ t ∷ [])
      (omega (arith, h, pending_count-push_children below worklist))
    ∙ simp (pending-push_children below worklist, append_assoc)

-- The worklist ends within its fuel, and gives each thread before those that it has forked, and these
-- in the order of the forks.
pub threads_of-preorder :
    (main : Thread) (below : Forest) → threads_of main below ≡ some (main ∷ preorder below)
unfolding threads_of pending pending_count
threads_of-preorder main below =
    flat_threads-pending (suc (thread_count below)) ((main, below) ∷ []) [] (omega arith)
    ∙ simp append-nil

pub map-preorder : (f : Forest) → map (λ t. t.id) (preorder f) ≡ ids f
map-preorder no_threads = refl
map-preorder (thread_with t below rest) = simp (map-append, map-preorder below, map-preorder rest)
