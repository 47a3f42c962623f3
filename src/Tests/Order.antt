-- ===== src/Tests/Order.antt =====
-- Theorems on the happens-before graph at the sample.
use mathlib.Core.List.Memᴰ
use open_race.Prelude.{ℕ, Option, true, none, some, List, [], ◌∷◌, ◌≡◌, ◌≢◌, refl, ◌↔◌, arith}
use open_race.Trace.Event.{Pid, Kind, join, Event, Thread}
use open_race.HappensBefore.Syncs.{contains}
use open_race.HappensBefore.Graph.{no_graph, add_sync_edge}
use open_race.HappensBefore.Graph.Invariant.{IsWell, no_graph-IsWell, add_sync_edge-IsWell}
use open_race.HappensBefore.Search.{search}
use open_race.HappensBefore.Search.Correct.{Leads, search-Leads}
use open_race.HappensBefore.Search.Halts.{search-halts}
use open_race.HappensBefore.Query.{HappensBefore, close, can_reach, are_parallel}
use open_race.HappensBefore.Before.{Before, can_reach-Before, are_parallel-Before}
use open_race.HappensBefore.Build.{Values, ok, hangs, phi_rounds, happens_before}
use open_race.HappensBefore.Build.Keeps.{happens_before-returns}
use open_race.HappensBefore.Build.Order.{fork-can_reach, join-can_reach, phi_join-never_returns}
use open_race.Tests.Sample.{
  at, event, values, main_thread, worker, program, building, detector, constructed, detector-built,
  building-built, building-closed,
}

happens_before-returns_example :
    IsWell building.graph
    × ((hb : HappensBefore) × (close building.graph ≡ some hb)
        × (happens_before values program ≡ ok hb))
happens_before-returns_example = happens_before-returns values program building building-built

building-IsWell : IsWell building.graph
building-IsWell = happens_before-returns_example.0

can_reach-Before_example :
    (can_reach detector (at 0 0) (at 1 2) ≡ true) ↔ Before building.graph (at 0 0) (at 1 2)
can_reach-Before_example =
    can_reach-Before building.graph detector (at 0 0) (at 1 2) building-IsWell building-closed
      (omega arith)

are_parallel-Before_example :
    ((are_parallel detector (at 0 3) (at 1 2) ≡ true)
      ↔ ((¬ Before building.graph (at 0 3) (at 1 2)) × (¬ Before building.graph (at 1 2) (at 0 3))))
    × (are_parallel detector (at 0 3) (at 1 2) ≡ are_parallel detector (at 1 2) (at 0 3))
are_parallel-Before_example =
    are_parallel-Before building.graph detector (at 0 3) (at 1 2) building-IsWell building-closed
      (omega arith)

fork-can_reach_example : can_reach detector (at 0 0) (at 1 2) ≡ true
unfolding constructed
fork-can_reach_example =
    fork-can_reach values program detector main_thread worker (event 0 1 (Kind.fork 100)) 100
      (at 1 0) (at 0 0) (at 1 2) detector-built (Memᴰ.head refl) (Memᴰ.tail (Memᴰ.head refl)) refl
      refl refl (omega arith) (omega arith)

join-can_reach_example : can_reach detector (at 1 2) (at 0 7) ≡ true
unfolding constructed
join-can_reach_example =
    join-can_reach values program detector main_thread worker (event 0 6 (join none 100)) none 100
      (at 1 3) (at 1 2) (at 0 7) detector-built (Memᴰ.head refl)
      (Memᴰ.tail (Memᴰ.tail (Memᴰ.tail (Memᴰ.tail (Memᴰ.tail (Memᴰ.tail (Memᴰ.head refl))))))) refl
      refl refl (omega arith) (omega arith)

-- A thread whose only event joins a PHI node.
abbrev phi_join : Event
phi_join = event 0 0 (join none 40)

abbrev phi_thread : Thread
phi_thread = record { id = 0; spawn_site = none; events = phi_join ∷ [] }

abbrev phi_values : Values
phi_values = record values { phi_incoming = λ v. some 41 }

phi_join-never_returns_example :
    ((n : ℕ) (otherwise : Option Pid)
      → phi_rounds phi_values 40 (phi_thread ∷ []) otherwise n ≡ hangs)
    × (happens_before phi_values (phi_thread ∷ []) ≢ ok detector)
unfolding constructed
phi_join-never_returns_example =
    phi_join-never_returns phi_values (phi_thread ∷ []) detector phi_thread phi_join 40 41
      (Memᴰ.head refl) (Memᴰ.head refl) refl refl refl refl refl (λ call. refl)

add_sync_edge-IsWell_example : IsWell (add_sync_edge no_graph (at 0 1) (at 1 0))
add_sync_edge-IsWell_example = add_sync_edge-IsWell no_graph (at 0 1) (at 1 0) no_graph-IsWell

-- Every node leads to the same two nodes.
abbrev both : Pid → List Pid
both p = at 0 1 ∷ at 1 0 ∷ []

search-halts_example : (found : List Pid) × (search both 100 (at 0 1 ∷ []) [] ≡ some found)
unfolding constructed
search-halts_example =
    search-halts both 2 (at 0 1 ∷ at 1 0 ∷ []) (λ p. omega arith) (λ p q c h. h) 100 (at 0 1) refl
      (omega arith)

search-Leads_example :
    (contains (at 1 0) (at 0 1 ∷ at 1 0 ∷ []) ≡ true) ↔ Leads both (at 0 1) (at 1 0)
unfolding constructed
search-Leads_example = search-Leads both (at 0 1) 100 (at 0 1 ∷ at 1 0 ∷ []) (at 1 0) refl
