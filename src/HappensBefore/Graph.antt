-- ===== src/HappensBefore/Graph.antt =====
-- The state of HappensBeforeGraph in src/Analysis/HappensBeforeGraph.h, the operations that build
-- it, and the searches for the nearest sync event.
pub mod Invariant
use open_race.Prelude.{ℕ, if◌then◌else◌, Bool, Option, none, some, List, [], ◌∷◌, ◌++◌}
use open_race.Prelude.OrderedMap.{find, assign, at_or}
use open_race.Trace.Event.{Pid, pid_eq}
use open_race.HappensBefore.Syncs.{contains, insert, lower_bound, upper_bound, last_le}

-- `syncEdges`, a map of which only the lookup matters, and `threadSyncs`.
pub record Graph : Type 0 where
  pub edges : List (Pid × List Pid)
  pub syncs : List (ℕ × List Pid)

abbrev pub no_graph : Graph
no_graph = record { edges = []; syncs = [] }

-- The targets of the edges out of a sync event.
unfoldable pub targets : Pid → List (Pid × List Pid) → List Pid
targets p [] = []
targets p ((q, ds) ∷ m) = if pid_eq q p then ds else targets p m

-- `syncEdges[src].insert(dst)`
unfoldable pub add_target : Pid → Pid → List (Pid × List Pid) → List (Pid × List Pid)
add_target s d [] = (s, insert d []) ∷ []
add_target s d ((q, ds) ∷ m) =
    if pid_eq q s then (q, insert d ds) ∷ m else (q, ds) ∷ add_target s d m

-- `threadSyncs[tid]`, empty where the thread has no entry.
unfoldable pub thread_syncs : Graph → ℕ → List Pid
thread_syncs g t = at_or t [] g.syncs

unfoldable pub add_sync : Graph → Pid → Graph
unfolding thread_syncs
add_sync g p = record g { syncs = assign p.tid (insert p (thread_syncs g p.tid)) g.syncs }

unfoldable pub add_sync_edge : Graph → Pid → Pid → Graph
unfolding add_sync
add_sync_edge g s d = add_sync (add_sync (record g { edges = add_target s d g.edges }) s) d

unfoldable pub find_next_sync_after : Graph → Pid → Option Pid
find_next_sync_after g node = elim (find node.tid g.syncs) [
  | none ↦ none
  | some syncs ↦ upper_bound node syncs
]

unfoldable pub find_next_sync : Graph → Pid → Option Pid
find_next_sync g node = elim (find node.tid g.syncs) [
  | none ↦ none
  | some syncs ↦ lower_bound node syncs
]

unfoldable pub find_prev_sync : Graph → Pid → Option Pid
find_prev_sync g node = elim (find node.tid g.syncs) [
  | none ↦ none
  | some syncs ↦ last_le node syncs
]

-- The event has a sync edge.
abbrev pub is_sync : Graph → Pid → Bool
is_sync g p = contains p (thread_syncs g p.tid)

-- What the search of the constructor adds to its worklist after `node`: the targets of the sync
-- edges, then the next sync event of the same thread.
unfoldable pub successors : Graph → Pid → List Pid
successors g node =
    targets node g.edges ++ elim (find_next_sync_after g node) [ none ↦ [] | some next ↦ next ∷ [] ]
