-- ===== src/HappensBefore/Build/Order.antt =====
-- The edges of forks and joins, and what they order.
use mathlib.Core.List.{Memᴰ}
use open_race.Prelude.{
  ℕ, zero, suc, true, Option, none, some, List, [], ◌∷◌, ◌≡◌, ◌≢◌, sym, ◌∙◌, ap, subst, inl, arith,
}
use open_race.Trace.Event.{Pid, fork, join, Event, Thread}
use open_race.HappensBefore.Syncs.{contains, pid_eq_iff, contains-insert}
use open_race.HappensBefore.Graph.{Graph, targets, add_sync_edge}
use open_race.HappensBefore.Graph.Invariant.{IsWell, targets-add_sync_edge, contains-successors}
use open_race.HappensBefore.Search.Correct.{Leads, start, next}
use open_race.HappensBefore.Query.{HappensBefore, close, can_reach}
use open_race.HappensBefore.Before.{Upto, can_reach-Through}
use open_race.HappensBefore.Build.{
  Values, ok, hangs, phi_rounds, Building, link, first_event, last_event, add_fork_edge,
  add_join_edge, get_forked_thread, get_joined_thread, fork_with_handle, fork_in_program,
  fork_by_phi, fork_by_handle, get_corresponding_fork, process_kind, process_event, process_events,
  process_threads, blank, happens_before,
}
use open_race.HappensBefore.Build.Keeps.{
  run_stages, ok-injective, process_events-keeps, process_threads-keeps, happens_before-returns,
}

abbrev pub HasEdge : Pid → Pid → Graph → Type 0
HasEdge p q g = contains q (targets p g.edges) ≡ true

HasEdge-add :
    (p q : Pid) (g : Graph) (s d : Pid) → HasEdge p q g → HasEdge p q (add_sync_edge g s d)
HasEdge-add p q g s d h =
    ground (arith, targets-add_sync_edge g s d p, contains-insert d q (targets p g.edges))

HasEdge-new : (p q : Pid) (g : Graph) → HasEdge p q (add_sync_edge g p q)
HasEdge-new p q g = ground (
  arith,
  targets-add_sync_edge g p q p,
  contains-insert q q (targets p g.edges),
  pid_eq_iff p p,
  pid_eq_iff q q,
)

module _ (vs : Values) (program : List Thread) where
  -- What holds of a graph once the event is processed, and stays under more edges, holds in the end.
  event-keeps :
      (P : Graph → Type 0)
      → ((g : Graph) (p q : Pid) → P g → P (add_sync_edge g p q))
      → (t : Thread) (e : Event)
      → ((s s' : Building) → process_event vs program t s e ≡ ok s' → P s'.graph)
      → (s s' : Building) (es : List Event) → Memᴰ e es
      → process_events vs program t s es ≡ ok s'
      → P s'.graph
  unfolding process_events
  event-keeps P add t e now s s' [] m h = elim m [ ]
  event-keeps P add t e now s s' (x ∷ es) (Memᴰ.head same) h =
      let (m, first, rest) = run_stages (process_event vs program t s x) _ h in
      process_events-keeps P add vs program t m s' es rest
        (now s m (subst (λ y. process_event vs program t s y ≡ ok m) (sym same) first))
  event-keeps P add t e now s s' (x ∷ es) (Memᴰ.tail later) h =
      let (m, first, rest) = run_stages (process_event vs program t s x) _ h in
      event-keeps P add t e now m s' es later rest

  thread-keeps :
      (P : Graph → Type 0)
      → ((g : Graph) (p q : Pid) → P g → P (add_sync_edge g p q))
      → (t : Thread) (e : Event)
      → ((s s' : Building) → process_event vs program t s e ≡ ok s' → P s'.graph)
      → Memᴰ e t.events
      → (s s' : Building) (ts : List Thread) → Memᴰ t ts
      → process_threads vs program s ts ≡ ok s'
      → P s'.graph
  unfolding process_threads
  thread-keeps P add t e now me s s' [] m h = elim m [ ]
  thread-keeps P add t e now me s s' (x ∷ ts) (Memᴰ.head same) h =
      let (m, first, rest) = run_stages (process_events vs program x s x.events) _ h in
      let first' : process_events vs program t s t.events ≡ ok m =
        subst (λ y. process_events vs program y s y.events ≡ ok m) (sym same) first in
      process_threads-keeps P add vs program m s' ts rest
        (event-keeps P add t e now s m t.events me first')
  thread-keeps P add t e now me s s' (x ∷ ts) (Memᴰ.tail later) h =
      let (m, first, rest) = run_stages (process_events vs program x s x.events) _ h in
      thread-keeps P add t e now me m s' ts later rest

  fork-HasEdge :
      (t t' : Thread) (e : Event) (n : ℕ) (q : Pid)
      → e.kind ≡ fork n
      → get_forked_thread e.pid program ≡ some t'
      → first_event t'.events ≡ some q
      → (s s' : Building) → process_event vs program t s e ≡ ok s'
      → HasEdge e.pid q s'.graph
  unfolding process_event process_kind add_fork_edge
  fork-HasEdge t t' e n q k f i s s' h =
      let out : s' ≡ link s e.pid q = ground arith in
      subst (λ b. HasEdge e.pid q b.graph) (sym out) (HasEdge-new e.pid q s.graph)

  join-HasEdge :
      (t t' : Thread) (e : Event) (explicit : Option Pid) (n : ℕ) (q : Pid)
      → e.kind ≡ join explicit n
      → get_joined_thread vs program t e.pid explicit n ≡ ok (some t')
      → last_event t'.events ≡ some q
      → (s s' : Building) → process_event vs program t s e ≡ ok s'
      → HasEdge q e.pid s'.graph
  unfolding process_event process_kind add_join_edge
  join-HasEdge t t' e explicit n q k f i s s' h =
      let out : s' ≡ link s q e.pid = ground arith in
      subst (λ b. HasEdge q e.pid b.graph) (sym out) (HasEdge-new q e.pid s.graph)

  -- An edge of the finished graph orders what comes before it and what comes after it.
  edge-can_reach :
      (s : Building) (hb : HappensBefore) (p q x y : Pid)
      → IsWell s.graph
      → close s.graph ≡ some hb
      → HasEdge p q s.graph
      → Upto x p
      → Upto q y
      → can_reach hb x y ≡ true
  edge-can_reach s hb p q x y w closed edge u v =
      let (cp, cq) = w.closed p q edge in
      let step : Leads _ p q = next start ((contains-successors s.graph p q).1 (inl edge)) in
      (can_reach-Through s.graph w hb closed x y).1 (p, q, u, cp, step, cq, v)

  -- The stages of a constructor that returns.
  pub happens_before-stages :
      (hb : HappensBefore)
      → happens_before vs program ≡ ok hb
      → (s : Building) × (process_threads vs program blank program ≡ ok s)
        × IsWell s.graph
        × (close s.graph ≡ some hb)
  unfolding happens_before
  happens_before-stages hb done =
      let (s, built, _) = run_stages (process_threads vs program blank program) _ done in
      let (w, rest) = happens_before-returns vs program s built in
      let (hb', closed, e) = rest in (s, built, w, closed ∙ ap some (ok-injective (sym e ∙ done)))

-- Once the constructor returns, an event up to a fork event of the program comes before every event
-- of the thread that `getForkedThread` finds for the fork, from that thread's first event on.
pub fork-can_reach :
    (vs : Values) (program : List Thread) (hb : HappensBefore) (t t' : Thread) (e : Event) (n : ℕ)
    (first x y : Pid)
    → happens_before vs program ≡ ok hb
    → Memᴰ t program
    → Memᴰ e t.events
    → e.kind ≡ fork n
    → get_forked_thread e.pid program ≡ some t'
    → first_event t'.events ≡ some first
    → Upto x e.pid
    → Upto first y
    → can_reach hb x y ≡ true
fork-can_reach vs program hb t t' e n first x y done mt me k f i u v =
    let (s, built, w, closed) = happens_before-stages vs program hb done in
    edge-can_reach vs program s hb e.pid first x y w closed
      (thread-keeps vs program (HasEdge e.pid first) (HasEdge-add e.pid first) t e
        (fork-HasEdge vs program t t' e n first k f i) me blank s program mt built)
      u v

-- Once the constructor returns, an event up to the last event of the thread that `getJoinedThread`
-- finds for a join event of the program comes before every event from the join on.
pub join-can_reach :
    (vs : Values) (program : List Thread) (hb : HappensBefore) (t t' : Thread) (e : Event)
    (explicit : Option Pid) (handle : ℕ) (last x y : Pid)
    → happens_before vs program ≡ ok hb
    → Memᴰ t program
    → Memᴰ e t.events
    → e.kind ≡ join explicit handle
    → get_joined_thread vs program t e.pid explicit handle ≡ ok (some t')
    → last_event t'.events ≡ some last
    → Upto x last
    → Upto e.pid y
    → can_reach hb x y ≡ true
join-can_reach vs program hb t t' e explicit handle last x y done mt me k f i u v =
    let (s, built, w, closed) = happens_before-stages vs program hb done in
    edge-can_reach vs program s hb last e.pid x y w closed
      (thread-keeps vs program (HasEdge last e.pid) (HasEdge-add last e.pid) t e
        (join-HasEdge vs program t t' e explicit handle last k f i) me blank s program mt built)
      u v

phi_rounds-hangs :
    (vs : Values) (program : List Thread) (handle incoming : ℕ) (otherwise : Option Pid) (n : ℕ)
    → vs.phi_incoming handle ≡ some incoming
    → (vs.is_call incoming ≡ true → fork_in_program incoming program ≡ none)
    → phi_rounds vs handle program otherwise n ≡ hangs
unfolding phi_rounds
phi_rounds-hangs vs program handle incoming otherwise zero phi unresolved = ground arith
phi_rounds-hangs vs program handle incoming otherwise (suc n) phi unresolved =
    ground
      (arith, unresolved, phi_rounds-hangs vs program handle incoming otherwise n phi unresolved)

-- Where the handle of a join is a PHI node, and neither the handle nor the first value that the PHI node
-- takes in, where that is a call, is the handle of a fork event of the program, the loop over the PHI node
-- does not end in any number of rounds, and the constructor does not return.
pub phi_join-never_returns :
    (vs : Values) (program : List Thread) (hb : HappensBefore) (t : Thread) (e : Event)
    (handle incoming : ℕ)
    → Memᴰ t program
    → Memᴰ e t.events
    → e.kind ≡ join none handle
    → fork_with_handle handle t.events ≡ none
    → fork_in_program handle program ≡ none
    → vs.load_pointer handle ≡ none
    → vs.phi_incoming handle ≡ some incoming
    → (vs.is_call incoming ≡ true → fork_in_program incoming program ≡ none)
    → ((n : ℕ) (otherwise : Option Pid) → phi_rounds vs handle program otherwise n ≡ hangs)
      × (happens_before vs program ≢ ok hb)
unfolding process_event process_kind get_joined_thread get_corresponding_fork fork_by_handle
    fork_by_phi
phi_join-never_returns vs program hb t e handle incoming mt me k no_own no_other no_load phi
      unresolved =
    let rounds : (n : ℕ) (otherwise : Option Pid)
        → phi_rounds vs handle program otherwise n ≡ hangs =
      λ n otherwise. phi_rounds-hangs vs program handle incoming otherwise n phi unresolved in
    (
      rounds,
      λ done.
          let (s, built, _, _) = happens_before-stages vs program hb done in
          thread-keeps vs program (λ g. ⊥) (λ g p q h. h) t e
            (λ m m' h. absurd (ground (arith, rounds 1))) me blank s program mt built,
    )
