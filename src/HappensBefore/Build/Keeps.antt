-- ===== src/HappensBefore/Build/Keeps.antt =====
-- What every added edge keeps, the constructor keeps; so it builds a well-formed graph.
use open_race.Prelude.{
  ℕ, Option, none, some, List, [], ◌∷◌, ◌≡◌, refl, inl, inr, arith, Option-cases, subst, sym,
}
use open_race.Prelude.OrderedMap.{find}
use open_race.Trace.Event.{Pid, Kind, fork, join, barrier, Event, Thread}
use open_race.HappensBefore.Graph.{Graph, add_sync_edge}
use open_race.HappensBefore.Graph.Invariant.{IsWell, no_graph-IsWell, add_sync_edge-IsWell}
use open_race.HappensBefore.Query.{HappensBefore, close}
use open_race.HappensBefore.Query.Cache.{close-total}
use open_race.HappensBefore.Build.{
  Values, Run, ok, hangs, undefined, ◌>>=◌, Building, add_barrier_edge, add_fork_edge,
  add_join_edge, last_event, get_forked_thread, get_joined_thread, process_kind, process_event,
  process_events, process_threads, blank, finish, happens_before,
}

-- A run of two stages that returns is a run of the first one, and a run of the second one.
module _ {ℓ ℓ'} {First : Type ℓ} {Last : Type ℓ'} where
  pub run_stages :
      (run : Run First) (next : First → Run Last) {end : Last}
      → run >>= next ≡ ok end
      → (mid : First) × (run ≡ ok mid) × (next mid ≡ ok end)
  run_stages (ok mid) next e = (mid, refl, e)
  run_stages hangs next e = cc
  run_stages undefined next e = cc

pub ok-injective {ℓ} : {A : Type ℓ} {a b : A} → ok a ≡ ok b → a ≡ b
ok-injective h = cc

module _ (P : Graph → Type 0) (add : (g : Graph) (p q : Pid) → P g → P (add_sync_edge g p q)) where
  add_barrier_edge-keeps :
      (s : Building) (p : Pid) (inst : ℕ) → P s.graph → P (add_barrier_edge s p inst).graph
  unfolding add_barrier_edge
  add_barrier_edge-keeps s p inst h = elim (Option-cases (find inst s.last_barrier)) [
    | inl e ↦ rw (e, add_barrier_edge) h
    | inr (q, e) ↦ rw (e, add_barrier_edge) (add _ q p (add _ p q h))
  ]

  add_fork_edge-keeps :
      (s : Building) (p : Pid) (es : List Event) → P s.graph → P (add_fork_edge s p es).graph
  unfolding add_fork_edge
  add_fork_edge-keeps s p [] h = h
  add_fork_edge-keeps s p (e ∷ es) h = add _ p e.pid h

  add_join_edge-keeps :
      (s : Building) (p : Pid) (es : List Event) → P s.graph → P (add_join_edge s p es).graph
  unfolding add_join_edge
  add_join_edge-keeps s p es h = elim (Option-cases (last_event es)) [
    | inl e ↦ rw (e, add_join_edge) h
    | inr (q, e) ↦ rw (e, add_join_edge) (add _ q p h)
  ]

  module _ (vs : Values) (program : List Thread) (t : Thread) where
    process_kind-keeps :
        (s s' : Building) (p : Pid) (inst : ℕ) (k : Kind)
        → process_kind vs program t s p inst k ≡ ok s'
        → P s.graph
        → P s'.graph
    unfolding process_kind
    process_kind-keeps s s' p inst (fork n) e h =
        elim (Option-cases (get_forked_thread p program)) [
          | inl f ↦ absurd (ground arith)
          | inr (t', f) ↦
              let out : s' ≡ add_fork_edge s p t'.events = ground arith in
              subst (λ b. P b.graph) (sym out) (add_fork_edge-keeps s p t'.events h)
        ]
    process_kind-keeps s s' p inst (join explicit handle) e h =
        let (joined, _, f) = run_stages (get_joined_thread vs program t p explicit handle) _ e in
        joined_case joined f
      where
        joined_case :
            (o : Option Thread)
            → ◌≡◌ {A = Run Building}
                (elim o [ none ↦ ok s | some t' ↦ ok (add_join_edge s p t'.events) ])
                (ok s')
            → P s'.graph
        joined_case none f = subst (λ b. P b.graph) (ok-injective f) h
        joined_case (some t') f =
            subst (λ b. P b.graph) (ok-injective f) (add_join_edge-keeps s p t'.events h)
    process_kind-keeps s s' p inst barrier e h =
        subst (λ b. P b.graph) (ok-injective e) (add_barrier_edge-keeps s p inst h)
    process_kind-keeps s s' p inst _ e h = subst (λ b. P b.graph) (ok-injective e) h

    pub process_events-keeps :
        (s s' : Building) (es : List Event)
        → process_events vs program t s es ≡ ok s'
        → P s.graph
        → P s'.graph
    unfolding process_events process_event
    process_events-keeps s s' [] e h = subst (λ b. P b.graph) (ok-injective e) h
    process_events-keeps s s' (x ∷ es) e h =
        let (m, first, rest) = run_stages (process_event vs program t s x) _ e in
        process_events-keeps m s' es rest (process_kind-keeps s m x.pid x.inst x.kind first h)

  pub process_threads-keeps :
      (vs : Values) (program : List Thread) (s s' : Building) (ts : List Thread)
      → process_threads vs program s ts ≡ ok s'
      → P s.graph
      → P s'.graph
  unfolding process_threads
  process_threads-keeps vs program s s' [] e h = subst (λ b. P b.graph) (ok-injective e) h
  process_threads-keeps vs program s s' (t ∷ ts) e h =
      let (m, first, rest) = run_stages (process_events vs program t s t.events) _ e in
      process_threads-keeps vs program m s' ts rest
        (process_events-keeps vs program t s m t.events first h)

-- When the first half of the constructor returns, its graph is well formed, and the whole
-- constructor returns a value over that graph: no search runs out of fuel.
pub happens_before-returns :
    (vs : Values) (program : List Thread) (s : Building)
    → process_threads vs program blank program ≡ ok s
    → IsWell s.graph
      × ((hb : HappensBefore) × (close s.graph ≡ some hb) × (happens_before vs program ≡ ok hb))
unfolding happens_before finish
happens_before-returns vs program s e =
    let well =
      process_threads-keeps IsWell (λ g p q. add_sync_edge-IsWell g p q) vs program blank s program
        e no_graph-IsWell in
    let (hb, closed, _) = close-total s.graph well in
    (well, (hb, closed, rw (e, happens_before) (rw (closed, finish))))
