-- ===== src/HappensBefore/Build.antt =====
-- The constructor of HappensBeforeGraph in src/Analysis/HappensBeforeGraph.cpp up to the cache, with
-- the search for the fork that belongs to a join.
pub mod Keeps
pub mod Order
use open_race.Prelude.{
  ℕ, zero, suc, ◌==◌, ltb, if◌then◌else◌, Bool, true, false, Option, none, some, List, [], ◌∷◌,
  reverse,
}
use open_race.Prelude.OrderedMap.{find, assign}
use open_race.Trace.Event.{
  Pid, pid_eq, Kind, read, write, fork, join, lock, unlock, barrier, call, call_end, extern_call,
  Event, Thread,
}
use open_race.HappensBefore.Graph.{Graph, no_graph, add_sync_edge}
use open_race.HappensBefore.Query.{HappensBefore, close}

-- What the constructor asks LLVM about a value: dyn_cast<LoadInst> with getPointerOperand, users,
-- dyn_cast<StoreInst> with getPointerOperand, dyn_cast<PHINode> with getIncomingValue(0), and
-- isa<CallInst>.
pub record Values : Type 0 where
  pub load_pointer : ℕ → Option ℕ
  pub users : ℕ → List ℕ
  pub store_pointer : ℕ → Option ℕ
  pub phi_incoming : ℕ → Option ℕ
  pub is_call : ℕ → Bool

-- `hangs`: the fuel of a loop is out. `undefined`: the end iterator is read where an
-- assertion is compiled out.
pub data Run {ℓ} (Value : Type ℓ) : Type ℓ where
  hangs undefined : Run Value
  ok : Value → Run Value

module _ {ℓ ℓ'} {First : Type ℓ} {Last : Type ℓ'} where
  infixl 5 ◌>>=◌
  abbrev pub ◌>>=◌ : Run First → (First → Run Last) → Run Last
  hangs >>= next = hangs
  undefined >>= next = undefined
  ok first >>= next = next first

abbrev pub is_spawned_by : Pid → Thread → Bool
is_spawned_by p t = elim t.spawn_site [ none ↦ false | some q ↦ pid_eq q p ]

-- The first thread whose spawn site is the fork; none is an end iterator.
unfoldable pub get_forked_thread : Pid → List Thread → Option Thread
get_forked_thread p [] = none
get_forked_thread p (t ∷ ts) = if is_spawned_by p t then some t else get_forked_thread p ts

-- The first fork event of a thread with the handle.
unfoldable pub fork_with_handle : ℕ → List Event → Option Pid
fork_with_handle h [] = none
fork_with_handle h (e ∷ es) = elim e.kind [
  | fork handle ↦ if handle == h then some e.pid else fork_with_handle h es
  | _ ↦ fork_with_handle h es
]

unfoldable pub fork_in_program : ℕ → List Thread → Option Pid
fork_in_program h [] = none
fork_in_program h (t ∷ ts) = elim (fork_with_handle h t.events) [
  | some p ↦ some p
  | none ↦ fork_in_program h ts
]

-- The loop over the users of the loaded handle.
unfoldable pub fork_by_store : Values → ℕ → List Thread → List ℕ → Option Pid
fork_by_store vs handle program [] = none
fork_by_store vs handle program (user ∷ users) =
    let rest = fork_by_store vs handle program users in
    if user == handle then rest else elim (vs.store_pointer user) [
      | none ↦ rest
      | some pointer ↦ elim (fork_in_program pointer program) [ some p ↦ some p | none ↦ rest ]
    ]

-- The heuristic at the end: the last fork event of the thread before the join.
unfoldable pub nearest_fork : ℕ → List Event → Option Pid
nearest_fork id [] = none
nearest_fork id (e ∷ es) = elim e.kind [
  | fork _ ↦ if ltb e.pid.eid id then some e.pid else nearest_fork id es
  | _ ↦ nearest_fork id es
]

-- The `while` loop over the PHI node, on fuel: its body does not change the handle.
unfoldable pub phi_rounds : Values → ℕ → List Thread → Option Pid → ℕ → Run (Option Pid)
phi_rounds vs handle program otherwise zero = hangs
phi_rounds vs handle program otherwise (suc n) =
    let again = phi_rounds vs handle program otherwise n in
    elim (vs.phi_incoming handle) [
      | none ↦ ok otherwise
      | some incoming ↦
          if vs.is_call incoming
          then elim (fork_in_program incoming program) [ some p ↦ ok (some p) | none ↦ again ]
          else again
    ]

-- A round has the handle of the round before, so that one round tells what all of them give.
unfoldable pub fork_by_phi : Values → ℕ → List Thread → Option Pid → Run (Option Pid)
unfolding phi_rounds
fork_by_phi vs handle program otherwise = phi_rounds vs handle program otherwise 1

-- The search by the handle of the join: its thread, the program, a load of the handle, a store to
-- what is loaded, a PHI node, the nearest fork.
unfoldable pub fork_by_handle : Values → List Thread → Thread → Pid → ℕ → Run (Option Pid)
unfolding fork_by_phi
fork_by_handle vs program thread self handle =
    let nearest = nearest_fork self.eid (reverse thread.events) in
    elim (fork_with_handle handle thread.events) [
      | some p ↦ ok (some p)
      | none ↦ elim (fork_in_program handle program) [
        | some p ↦ ok (some p)
        | none ↦ elim (vs.load_pointer handle) [
          | none ↦ fork_by_phi vs handle program nearest
          | some loaded ↦ elim (fork_in_program loaded program) [
            | some p ↦ ok (some p)
            | none ↦ elim (fork_by_store vs handle program (vs.users loaded)) [
              | some p ↦ ok (some p)
              | none ↦ ok nearest
            ]
          ]
        ]
      ]
    ]

unfoldable pub get_corresponding_fork :
    Values → List Thread → Thread → Pid → Option Pid → ℕ → Run (Option Pid)
unfolding fork_by_handle
get_corresponding_fork vs program thread self (some p) handle = ok (some p)
get_corresponding_fork vs program thread self none handle =
    fork_by_handle vs program thread self handle

-- None is the null pointer, for which the constructor skips the join.
unfoldable pub get_joined_thread :
    Values → List Thread → Thread → Pid → Option Pid → ℕ → Run (Option Thread)
get_joined_thread vs program thread self explicit handle = do
  found ← get_corresponding_fork vs program thread self explicit handle
  elim found [
    | none ↦ ok none
    | some p ↦ elim (get_forked_thread p program) [ none ↦ undefined | some t ↦ ok (some t) ]
  ]

-- The graph under construction and `lastBarrier`.
pub record Building : Type 0 where
  pub graph : Graph
  pub last_barrier : List (ℕ × Pid)

-- `front()` of the events, none where `empty()`.
unfoldable pub first_event : List Event → Option Pid
first_event [] = none
first_event (e ∷ es) = some e.pid

-- `back()` of the events, none where `empty()`.
unfoldable pub last_event : List Event → Option Pid
last_event [] = none
last_event (e ∷ es) = elim (last_event es) [ none ↦ some e.pid | some p ↦ some p ]

abbrev pub link : Building → Pid → Pid → Building
link s p q = record s { graph = add_sync_edge s.graph p q }

-- The lambda `addBarrierEdge`.
unfoldable pub add_barrier_edge : Building → Pid → ℕ → Building
add_barrier_edge s p inst =
    let s' : Building = elim (find inst s.last_barrier) [
      | none ↦ s
      | some q ↦ link (link s p q) q p
    ] in
    record s' { last_barrier = assign inst p s.last_barrier }

unfoldable pub add_fork_edge : Building → Pid → List Event → Building
unfolding first_event
add_fork_edge s p events = elim (first_event events) [ none ↦ s | some q ↦ link s p q ]

unfoldable pub add_join_edge : Building → Pid → List Event → Building
unfolding last_event
add_join_edge s p events = elim (last_event events) [ none ↦ s | some q ↦ link s q p ]

abbrev pub blank : Building
blank = record { graph = no_graph; last_barrier = [] }

-- The rest of the constructor: the cache of reachable sync events.
unfoldable pub finish : Building → Run HappensBefore
finish s = elim (close s.graph) [ none ↦ hangs | some hb ↦ ok hb ]

module _ (vs : Values) (program : List Thread) where
  -- The `switch` on the type of an event.
  unfoldable pub process_kind : Thread → Building → Pid → ℕ → Kind → Run Building
  process_kind thread s p inst (fork _) = elim (get_forked_thread p program) [
    | none ↦ undefined
    | some t ↦ ok (add_fork_edge s p t.events)
  ]
  process_kind thread s p inst (join explicit handle) = do
    joined ← get_joined_thread vs program thread p explicit handle
    elim joined [ none ↦ ok s | some t ↦ ok (add_join_edge s p t.events) ]
  process_kind thread s p inst barrier = ok (add_barrier_edge s p inst)
  process_kind thread s p inst _ = ok s

  -- The body of the loop over the events of a thread.
  unfoldable pub process_event : Thread → Building → Event → Run Building
  unfolding process_kind
  process_event thread s e = process_kind thread s e.pid e.inst e.kind

  unfoldable pub process_events : Thread → Building → List Event → Run Building
  process_events thread s [] = ok s
  process_events thread s (e ∷ es) = do s' ← process_event thread s e; process_events thread s' es

  unfoldable pub process_threads : Building → List Thread → Run Building
  process_threads s [] = ok s
  process_threads s (t ∷ ts) = do s' ← process_events t s t.events; process_threads s' ts

  -- The constructor.
  unfoldable pub happens_before : Run HappensBefore
  happens_before = do s ← process_threads blank program; finish s
