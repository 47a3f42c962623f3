-- ===== src/HappensBefore/Query.antt =====
-- The cache of reachable sync events that the constructor of HappensBeforeGraph fills, and the
-- queries `hasEdge`, `isReachable`, `canReach` and `areParallel`.
pub mod Cache
use open_race.Prelude.{
  ℕ, zero, suc, ◌+◌, if◌then◌else◌, Bool, true, false, not, ◌&&◌, Option, none, some, List, [], ◌∷◌,
  length,
}
use open_race.Trace.Event.{Pid, pid_eq}
use open_race.HappensBefore.Syncs.{contains, insert}
use open_race.HappensBefore.Graph.{Graph, targets, successors, find_next_sync, find_prev_sync}
use open_race.HappensBefore.Search.{search, rounds}

-- HappensBeforeGraph when its constructor has returned.
pub record HappensBefore : Type 0 where
  pub graph : Graph
  pub reachable : List (Pid × List Pid)

unfoldable pub insert_all : List Pid → List Pid → List Pid
insert_all [] set = set
insert_all (p ∷ ps) set = insert_all ps (insert p set)

-- `allSrcs`: the sync events of all threads.
unfoldable pub all_sources : List (ℕ × List Pid) → List Pid
unfolding insert_all
all_sources [] = []
all_sources ((t, ps) ∷ m) = insert_all ps (all_sources m)

-- The number of sync edges.
unfoldable pub edge_count : List (Pid × List Pid) → ℕ
edge_count [] = 0
edge_count ((p, ds) ∷ m) = length ds + edge_count m

-- Fuel for the search from one sync event: see `Search.Halts`.
unfoldable pub enough : Graph → ℕ
enough g = rounds (edge_count g.edges + 1) (length (all_sources g.syncs)) 1

-- The loop over `allSrcs` that fills `syncReachable`.
unfoldable pub reach_all : Graph → List Pid → Option (List (Pid × List Pid))
reach_all g [] = some []
reach_all g (src ∷ srcs) = elim (search (successors g) (enough g) (src ∷ []) []) [
  | none ↦ none
  | some visited ↦ elim (reach_all g srcs) [
    | none ↦ none
    | some table ↦ some ((src, visited) ∷ table)
  ]
]

-- The second half of the constructor.
unfoldable pub close : Graph → Option HappensBefore
unfolding reach_all
close g = elim (reach_all g (all_sources g.syncs)) [
  | none ↦ none
  | some table ↦ some (record { graph = g; reachable = table })
]

-- `syncReachable.find(src)`
unfoldable pub find_reachable : Pid → List (Pid × List Pid) → Option (List Pid)
find_reachable p [] = none
find_reachable p ((q, vs) ∷ m) = if pid_eq q p then some vs else find_reachable p m

unfoldable pub is_reachable : HappensBefore → Pid → Pid → Bool
unfolding find_reachable
is_reachable hb src dst = elim (find_reachable src hb.reachable) [
  | some visited ↦ contains dst visited
  | none ↦ false
]

unfoldable pub has_edge : HappensBefore → Pid → Pid → Bool
has_edge hb src dst = if pid_eq src dst then true else contains dst (targets src hb.graph.edges)

unfoldable pub can_reach : HappensBefore → Pid → Pid → Bool
unfolding has_edge is_reachable
can_reach hb src dst = elim (find_next_sync hb.graph src) [
  | none ↦ false
  | some src_sync ↦ elim (find_prev_sync hb.graph dst) [
    | none ↦ false
    | some dst_sync ↦
        if has_edge hb src_sync dst_sync then true else is_reachable hb src_sync dst_sync
  ]
]

unfoldable pub are_parallel : HappensBefore → Pid → Pid → Bool
unfolding can_reach
are_parallel hb lhs rhs = not (can_reach hb lhs rhs) && not (can_reach hb rhs lhs)
