-- ===== src/HappensBefore/Search.antt =====
-- The worklist search in the constructor of HappensBeforeGraph, over any successor function. A node
-- is marked as visited when it leaves the worklist, so it can stand there several times.
pub mod Correct
pub mod Halts
use open_race.Prelude.{
  ℕ, zero, suc, ◌+◌, ◌*◌, if◌then◌else◌, Option, none, some, List, [], ◌∷◌, ◌++◌,
}
use open_race.Trace.Event.{Pid}
use open_race.HappensBefore.Syncs.{contains, insert}

-- The lambda `addToWorklist`.
unfoldable pub add_to_worklist : List Pid → List Pid → Pid → List Pid
add_to_worklist visited worklist node =
    if contains node visited then worklist else worklist ++ node ∷ []

unfoldable pub add_all : List Pid → List Pid → List Pid → List Pid
unfolding add_to_worklist
add_all visited worklist [] = worklist
add_all visited worklist (n ∷ ns) = add_all visited (add_to_worklist visited worklist n) ns

module _ (succs : Pid → List Pid) where
  -- The `while` loop; `none` means that the fuel ran out.
  unfoldable pub search : ℕ → List Pid → List Pid → Option (List Pid)
  search zero [] visited = some visited
  search zero (node ∷ worklist) visited = none
  search (suc fuel) [] visited = some visited
  search (suc fuel) (node ∷ worklist) visited =
      search fuel (add_all (insert node visited) worklist (succs node)) (insert node visited)

-- Enough rounds for `nodes` unvisited nodes, `waiting` entries of the worklist and at most `width`
-- successors of each node.
unfoldable pub rounds : ℕ → ℕ → ℕ → ℕ
rounds width zero waiting = waiting
rounds width (suc nodes) waiting = waiting + rounds width nodes (waiting + width * waiting)
