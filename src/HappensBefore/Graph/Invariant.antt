-- ===== src/HappensBefore/Graph/Invariant.antt =====
-- The sync events of each thread are sorted and are that thread's, the ends of every sync edge are
-- among them, and adding an edge keeps this.
use open_race.Prelude.{
  ℕ, ◌==◌, if◌then◌else◌, true, ◌||◌, some, List, [], ◌∷◌, ◌≡◌, refl, ◌⊎◌, inl, inr, ◌↔◌, arith,
  Option-cases, ==_iff,
}
use open_race.Prelude.OrderedMap.{find, at_or, find-assign}
use open_race.Trace.Event.{Pid, pid_eq}
use open_race.HappensBefore.Syncs.{
  contains, insert, lower_bound, upper_bound, last_le, IsSorted, pid_eq_iff, contains-append,
  contains-insert, insert-IsSorted,
}
use open_race.HappensBefore.Graph.{
  Graph, no_graph, targets, add_target, thread_syncs, add_sync, add_sync_edge, is_sync,
  find_next_sync_after, find_next_sync, find_prev_sync, successors,
}

pub record IsWell (g : Graph) : Type 0 where
  pub sorted : (t : ℕ) → IsSorted (thread_syncs g t)
  pub owner : (t : ℕ) (p : Pid) → contains p (thread_syncs g t) ≡ true → p.tid ≡ t
  pub closed :
      (s d : Pid)
      → contains d (targets s g.edges) ≡ true
      → (is_sync g s ≡ true) × (is_sync g d ≡ true)

pub thread_syncs-add_sync :
    (g : Graph) (p : Pid) (t : ℕ)
    → thread_syncs (add_sync g p) t
      ≡ (if p.tid == t then insert p (thread_syncs g t) else thread_syncs g t)
unfolding thread_syncs add_sync at_or
thread_syncs-add_sync g p t =
    ground (arith, find-assign p.tid t (insert p (thread_syncs g p.tid)) g.syncs, ==_iff p.tid t)

pub targets-add_target :
    (s d p : Pid) (m : List (Pid × List Pid))
    → targets p (add_target s d m) ≡ (if pid_eq s p then insert d (targets p m) else targets p m)
unfolding targets add_target
targets-add_target s d p [] = refl
targets-add_target s d p ((q, ds) ∷ m) =
    ground (arith, targets-add_target s d p m, pid_eq_iff q s, pid_eq_iff q p, pid_eq_iff s p)

-- A sync event stays one, and the event that is added becomes one.
pub is_sync-add_sync :
    (g : Graph) (p q : Pid) → is_sync (add_sync g p) q ≡ (pid_eq q p || is_sync g q)
is_sync-add_sync g p q = ground (
  arith,
  thread_syncs-add_sync g p q.tid,
  contains-insert p q (thread_syncs g q.tid),
  pid_eq_iff q p,
  ==_iff p.tid q.tid,
)

pub no_graph-IsWell : IsWell no_graph
unfolding thread_syncs targets at_or find contains
no_graph-IsWell = record { sorted = λ t. tt; owner = λ t p h. cc; closed = λ s d h. cc }

-- The two fields of `IsWell` on `threadSyncs` alone.
record HasSyncs (g : Graph) : Type 0 where
  sorted : (t : ℕ) → IsSorted (thread_syncs g t)
  owner : (t : ℕ) (p : Pid) → contains p (thread_syncs g t) ≡ true → p.tid ≡ t

add_sync-HasSyncs : (g : Graph) (p : Pid) → HasSyncs g → HasSyncs (add_sync g p)
add_sync-HasSyncs g p w = record {
  sorted = λ t.
      ground (arith, thread_syncs-add_sync g p t, w.sorted t, insert-IsSorted p (thread_syncs g t));
  owner = λ t q h. ground (
    arith,
    thread_syncs-add_sync g p t,
    w.owner t q,
    contains-insert p q (thread_syncs g t),
    pid_eq_iff q p,
    ==_iff p.tid t,
  );
}

-- The state between the first statement of `addSyncEdge` and the next.
abbrev linked : Graph → Pid → Pid → Graph
linked g s d = record g { edges = add_target s d g.edges }

linked-HasSyncs : (g : Graph) (s d : Pid) → IsWell g → HasSyncs (linked g s d)
unfolding thread_syncs
linked-HasSyncs g s d w = record { sorted = w.sorted; owner = w.owner }

pub is_sync-add_sync_edge :
    (g : Graph) (s d q : Pid)
    → is_sync (add_sync_edge g s d) q ≡ (pid_eq q d || (pid_eq q s || is_sync g q))
unfolding add_sync_edge thread_syncs
is_sync-add_sync_edge g s d q =
    ground
      (arith, is_sync-add_sync (add_sync (linked g s d) s) d q, is_sync-add_sync (linked g s d) s q)

pub targets-add_sync_edge :
    (g : Graph) (s d p : Pid)
    → targets p (add_sync_edge g s d).edges
      ≡ (if pid_eq s p then insert d (targets p g.edges) else targets p g.edges)
unfolding add_sync_edge add_sync
targets-add_sync_edge g s d p = targets-add_target s d p g.edges

-- Adding a sync edge keeps the sync events sorted and the ends of the edges among them.
pub add_sync_edge-IsWell : (g : Graph) (s d : Pid) → IsWell g → IsWell (add_sync_edge g s d)
unfolding add_sync_edge
add_sync_edge-IsWell g s d w =
    let both =
      add_sync-HasSyncs (add_sync (linked g s d) s) d
        (add_sync-HasSyncs (linked g s d) s (linked-HasSyncs g s d w)) in
    record {
      sorted = both.sorted;
      owner = both.owner;
      closed = λ p q h. ground (
        arith,
        w.closed p q,
        targets-add_sync_edge g s d p,
        contains-insert d q (targets p g.edges),
        is_sync-add_sync_edge g s d p,
        is_sync-add_sync_edge g s d q,
        pid_eq_iff q d,
        pid_eq_iff s p,
        pid_eq_iff p s,
      );
    }

-- The lookups in `threadSyncs` are searches in the thread's sync events.
pub find_next_sync_after-eq :
    (g : Graph) (p : Pid) → find_next_sync_after g p ≡ upper_bound p (thread_syncs g p.tid)
unfolding find_next_sync_after thread_syncs at_or upper_bound
find_next_sync_after-eq g p = ground arith

pub find_next_sync-eq :
    (g : Graph) (p : Pid) → find_next_sync g p ≡ lower_bound p (thread_syncs g p.tid)
unfolding find_next_sync thread_syncs at_or lower_bound
find_next_sync-eq g p = ground arith

pub find_prev_sync-eq :
    (g : Graph) (p : Pid) → find_prev_sync g p ≡ last_le p (thread_syncs g p.tid)
unfolding find_prev_sync thread_syncs at_or last_le
find_prev_sync-eq g p = ground arith

-- The successors of a sync event: along an edge, or to the next one of its thread.
pub contains-successors :
    (g : Graph) (p q : Pid)
    → (contains q (successors g p) ≡ true)
      ↔ ((contains q (targets p g.edges) ≡ true) ⊎ (find_next_sync_after g p ≡ some q))
unfolding successors contains
contains-successors g p q = elim (Option-cases (find_next_sync_after g p)) [
  | inl e ↦ rw e (ground (arith, contains-append q (targets p g.edges) []))
  | inr (n, e) ↦
      rw e (ground (arith, contains-append q (targets p g.edges) (n ∷ []), pid_eq_iff q n))
]
