-- ===== src/HappensBefore/Query/Cache.antt =====
-- The cache is filled for every sync event, and holds what the successors lead to.
use open_race.Prelude.{
  ℕ, ◌+◌, ◌≤◌, true, ◌||◌, some, List, [], ◌∷◌, ◌≡◌, refl, inl, inr, ◌↔◌, arith, length,
  length-append, Bool-cases, Option-cases,
}
use open_race.Prelude.OrderedMap.{find, at_or}
use open_race.Trace.Event.{Pid, pid_eq}
use open_race.HappensBefore.Syncs.{
  contains, insert, pid_eq_iff, contains-insert, upper_bound-contains,
}
use open_race.HappensBefore.Graph.{
  Graph, targets, thread_syncs, is_sync, find_next_sync_after, successors,
}
use open_race.HappensBefore.Graph.Invariant.{IsWell, contains-successors, find_next_sync_after-eq}
use open_race.HappensBefore.Search.{search}
use open_race.HappensBefore.Search.Correct.{Leads, search-Leads}
use open_race.HappensBefore.Search.Halts.{search-halts}
use open_race.HappensBefore.Query.{
  HappensBefore, insert_all, all_sources, edge_count, enough, reach_all, close, find_reachable,
  is_reachable,
}

contains-insert_all :
    (p : Pid) (ps set : List Pid)
    → contains p (insert_all ps set) ≡ (contains p ps || contains p set)
unfolding insert_all contains
contains-insert_all p [] set = refl
contains-insert_all p (q ∷ ps) set =
    ground (arith, contains-insert_all p ps (insert q set), contains-insert q p set)

contains-all_sources :
    (p : Pid) (t : ℕ) (ps : List Pid) (m : List (ℕ × List Pid))
    → find t m ≡ some ps
    → contains p ps ≡ true
    → contains p (all_sources m) ≡ true
unfolding all_sources find
contains-all_sources p t ps [] e h = cc
contains-all_sources p t ps ((j, qs) ∷ m) e h =
    ground (arith, contains-all_sources p t ps m, contains-insert_all p qs (all_sources m))

-- Every sync event is a source.
sync-all_sources :
    (g : Graph) (p : Pid) → is_sync g p ≡ true → contains p (all_sources g.syncs) ≡ true
unfolding thread_syncs at_or contains
sync-all_sources g p h = elim (Option-cases (find p.tid g.syncs)) [
  | inl e ↦ absurd (ground arith)
  | inr (ps, e) ↦ contains-all_sources p p.tid ps g.syncs e (ground arith)
]

length-targets : (p : Pid) (m : List (Pid × List Pid)) → length (targets p m) ≤ edge_count m
unfolding targets edge_count
length-targets p [] = omega arith
length-targets p ((q, ds) ∷ m) = ground (arith, length-targets p m)

length-successors : (g : Graph) (p : Pid) → length (successors g p) ≤ edge_count g.edges + 1
unfolding successors
length-successors g p = elim (Option-cases (find_next_sync_after g p)) [
  | inl e ↦ rw e (omega (arith, length-targets p g.edges, length-append (targets p g.edges) []))
  | inr (n, e) ↦
      rw e (omega (arith, length-targets p g.edges, length-append (targets p g.edges) (n ∷ [])))
]

-- A successor of a sync event is one.
successors-sync :
    (g : Graph) (p q : Pid) → IsWell g → contains q (successors g p) ≡ true → is_sync g q ≡ true
successors-sync g p q w h = elim ((contains-successors g p q).0 h) [
  | inl edge ↦ (w.closed p q edge).1
  | inr after ↦ ground (
    arith,
    find_next_sync_after-eq g p,
    upper_bound-contains p q (thread_syncs g p.tid),
    w.owner p.tid q,
  )
]

module _ (g : Graph) (w : IsWell g) where
  -- The search from a sync event ends, and finds the sync events that walks lead to.
  search_source :
      (src : Pid)
      → contains src (all_sources g.syncs) ≡ true
      → (found : List Pid) × (search (successors g) (enough g) (src ∷ []) [] ≡ some found)
  unfolding enough
  search_source src h =
      search-halts (successors g) (edge_count g.edges + 1) (all_sources g.syncs)
        (length-successors g) (λ p q c e. sync-all_sources g q (successors-sync g p q w e))
        (enough g) src h (omega arith)

  reach_all-total :
      (srcs : List Pid)
      → ((p : Pid) → contains p srcs ≡ true → contains p (all_sources g.syncs) ≡ true)
      → (table : List (Pid × List Pid)) × (reach_all g srcs ≡ some table)
  unfolding reach_all contains
  reach_all-total [] h = ([], refl)
  reach_all-total (src ∷ srcs) h =
      let (found, e) = search_source src (h src (ground (arith, pid_eq_iff src src))) in
      let (table, e') = reach_all-total srcs (λ p c. h p (ground arith)) in
      ((src, found) ∷ table, rw (e, e', reach_all))

  reach_all-cons :
      (src : Pid) (srcs : List Pid) (table : List (Pid × List Pid))
      → reach_all g (src ∷ srcs) ≡ some table
      → (found : List Pid) × (rest : List (Pid × List Pid)) × (search
            (successors g)
            (enough g)
            (src ∷ [])
            []
          ≡ some found)
        × (reach_all g srcs ≡ some rest)
        × (table ≡ (src, found) ∷ rest)
  unfolding reach_all
  reach_all-cons src srcs table e =
      elim (Option-cases (search (successors g) (enough g) (src ∷ []) [])) [
        | inl n ↦ absurd (ground arith)
        | inr (found, es) ↦ elim (Option-cases (reach_all g srcs)) [
          | inl n ↦ absurd (ground arith)
          | inr (rest, er) ↦ (found, rest, es, er, ground arith)
        ]
      ]

  reach_all-Leads :
      (srcs : List Pid) (table : List (Pid × List Pid)) (p q : Pid)
      → reach_all g srcs ≡ some table
      → contains p srcs ≡ true
      → (found : List Pid) × (find_reachable p table ≡ some found)
        × ((contains q found ≡ true) ↔ Leads (successors g) p q)
  unfolding reach_all contains find_reachable
  reach_all-Leads [] table p q e c = cc
  reach_all-Leads (src ∷ srcs) table p q e c =
      let (found, rest, es, er, et) = reach_all-cons src srcs table e in
      rw et (elim (Bool-cases (pid_eq src p)) [
        | inl here ↦ (
          found,
          rw here,
          rw ((pid_eq_iff src p).0 here) at (search-Leads (successors g) src (enough g) found q es),
        )
        | inr later ↦
            rw later (
              reach_all-Leads srcs rest p q er (ground (arith, pid_eq_iff src p, pid_eq_iff p src)))
      ])

  -- The constructor fills its cache: no search runs out of fuel.
  pub close-total : (hb : HappensBefore) × (close g ≡ some hb) × (hb.graph ≡ g)
  unfolding close
  close-total =
      let (table, e) = reach_all-total (all_sources g.syncs) (λ p c. c) in
      (record { graph = g; reachable = table }, rw (close, e), refl)

  -- The cache says that one sync event reaches another exactly where successors lead there.
  pub is_reachable-Leads :
      (hb : HappensBefore) (p q : Pid)
      → close g ≡ some hb
      → is_sync g p ≡ true
      → (is_reachable hb p q ≡ true) ↔ Leads (successors g) p q
  unfolding close is_reachable
  is_reachable-Leads hb p q e s = elim (Option-cases (reach_all g (all_sources g.syncs))) [
    | inl n ↦ absurd (ground arith)
    | inr (table, et) ↦
        let (found, ef, iff) =
          reach_all-Leads (all_sources g.syncs) table p q et (sync-all_sources g p s) in
        let eh : hb ≡ record { graph = g; reachable = table } = ground arith in
        rw (eh, is_reachable, ef) iff
  ]
