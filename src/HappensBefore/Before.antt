-- ===== src/HappensBefore/Before.antt =====
-- What HappensBeforeGraph promises: the order of the events of a program under program order and
-- the sync edges. The queries look at the nearest sync events only, and decide this order between
-- events of different threads.
use open_race.Prelude.{
  ℕ, zero, suc, ◌+◌, ◌≤◌, true, some, List, [], ◌≡◌, ◌≢◌, refl, sym, ◌⊎◌, inl, inr, ◌↔◌, arith,
  Bool-cases, Option-cases, subst, ◌∙◌, dec_lt,
}
use open_race.Trace.Event.{Pid, pid_eq, pid_lt, pid_le}
use open_race.HappensBefore.Syncs.{
  contains, lower_bound, last_le, pid_eq_iff, upper_bound-contains, upper_bound-least,
  lower_bound-contains, lower_bound-least, last_le-contains, last_le-greatest,
}
use open_race.HappensBefore.Graph.{
  Graph, targets, thread_syncs, is_sync, find_next_sync_after, find_next_sync, find_prev_sync,
  successors,
}
use open_race.HappensBefore.Graph.Invariant.{
  IsWell, contains-successors, find_next_sync_after-eq, find_next_sync-eq, find_prev_sync-eq,
}
use open_race.HappensBefore.Search.Correct.{Leads, start, next}
use open_race.HappensBefore.Query.{HappensBefore, close, has_edge, can_reach, are_parallel}
use open_race.HappensBefore.Query.Cache.{is_reachable-Leads}

-- The same thread, and not later.
abbrev pub Upto : Pid → Pid → Type 0
Upto x y = (x.tid ≡ y.tid) × (x.eid ≤ y.eid)

-- The events that come after `x`: later in its thread, or across sync edges.
pub data Before (g : Graph) (x : Pid) : Pid → Type 0 where
  here : Before g x x
  along : {y z : Pid} → Before g x y → Upto y z → Before g x z
  across : {y z : Pid} → Before g x y → contains z (targets y g.edges) ≡ true → Before g x z

pid_le_of_Upto : (x y : Pid) → Upto x y → pid_le x y ≡ true
unfolding pid_le pid_lt pid_eq
pid_le_of_Upto x y h = ground arith

Upto-of_pid_le : (x y : Pid) → x.tid ≡ y.tid → pid_le x y ≡ true → Upto x y
unfolding pid_le pid_lt pid_eq
Upto-of_pid_le x y e h = ground arith

eid_lt_of_pid_lt : (x y : Pid) → x.tid ≡ y.tid → pid_lt x y ≡ true → suc x.eid ≤ y.eid
unfolding pid_lt
eid_lt_of_pid_lt x y e h = ground arith

pid_lt_of_eid : (x y : Pid) → x.tid ≡ y.tid → suc x.eid ≤ y.eid → pid_lt x y ≡ true
unfolding pid_lt
pid_lt_of_eid x y e h = ground arith

pub Leads-trans :
    {succs : Pid → List Pid} {p q r : Pid} → Leads succs p q → Leads succs q r → Leads succs p r
Leads-trans a start = a
Leads-trans a (next b e) = next (Leads-trans a b) e

Before-trans : {g : Graph} {x y z : Pid} → Before g x y → Before g y z → Before g x z
Before-trans a here = a
Before-trans a (along b u) = along (Before-trans a b) u
Before-trans a (across b e) = across (Before-trans a b) e

module _ (g : Graph) (w : IsWell g) where
  -- The next sync event of the thread, with what the search for it gives.
  next-Upto :
      (p q : Pid) → find_next_sync_after g p ≡ some q → (q.tid ≡ p.tid) × (suc p.eid ≤ q.eid)
  next-Upto p q e =
      let (c, lt) =
        upper_bound-contains p q (thread_syncs g p.tid) (sym (find_next_sync_after-eq g p) ∙ e) in
      let same = w.owner p.tid q c in (same, eid_lt_of_pid_lt p q (sym same) lt)

  Leads-Before : {p q : Pid} → Leads (successors g) p q → Before g p q
  Leads-Before start = here
  Leads-Before (next {p = r} {q} l e) = elim ((contains-successors g r q).0 e) [
    | inl edge ↦ across (Leads-Before l) edge
    | inr after ↦
        let (same, lt) = next-Upto r q after in along (Leads-Before l) (sym same, omega arith)
  ]

  -- A later sync event of a thread is reached through those in between.
  Leads-of_Upto :
      (k : ℕ) (s t : Pid)
      → t.eid ≤ s.eid + k
      → Upto s t
      → is_sync g t ≡ true
      → Leads (successors g) s t
  Leads-of_Upto zero s t b u c =
      let e : s ≡ t = ground arith in subst (Leads (successors g) s) e start
  Leads-of_Upto (suc k) s t b u c = elim (dec_lt s.eid t.eid) [
    | no last ↦ let e : s ≡ t = ground arith in subst (Leads (successors g) s) e start
    | yes more ↦
        let mine : contains t (thread_syncs g s.tid) ≡ true = rw u.0 c in
        let (n, found, le) =
          upper_bound-least s t (thread_syncs g s.tid) (w.sorted s.tid) mine
            (pid_lt_of_eid s t u.0 more) in
        let after = find_next_sync_after-eq g s ∙ found in
        let (same, lt) = next-Upto s n after in
        let step : Leads (successors g) s n =
          next start ((contains-successors g s n).1 (inr after)) in
        Leads-trans step (Leads-of_Upto k n t (omega arith) (Upto-of_pid_le n t (same ∙ u.0) le) c)
  ]

  -- Two events of one thread, or two sync events between them of which one leads to the other.
  abbrev pub Through : Pid → Pid → Type 0
  Through x y =
      (s : Pid) × (d : Pid) × Upto x s
      × (is_sync g s ≡ true)
      × Leads (successors g) s d
      × (is_sync g d ≡ true)
      × Upto d y

  Before-Through : {x y : Pid} → Before g x y → Upto x y ⊎ Through x y
  Before-Through {x} here = inl (refl, omega arith)
  Before-Through {x} {y = z} (along {y} b u) = elim (Before-Through b) [
    | inl v ↦ inl (v.0 ∙ u.0, omega arith)
    | inr (s, d, v, cs, l, cd, t) ↦ inr (s, d, v, cs, l, cd, (t.0 ∙ u.0, omega arith))
  ]
  Before-Through {x} {y = z} (across {y} b e) =
      let (cy, cz) = w.closed y z e in
      let step : Leads (successors g) y z = next start ((contains-successors g y z).1 (inl e)) in
      elim (Before-Through b) [
        | inl v ↦ inr (y, z, v, cy, step, cz, (refl, omega arith))
        | inr (s, d, v, cs, l, cd, t) ↦ inr (
          s,
          z,
          v,
          cs,
          Leads-trans l (Leads-trans (Leads-of_Upto y.eid d y (omega arith) t cy) step),
          cz,
          (refl, omega arith),
        )
      ]

  Through-Before : {x y : Pid} → Through x y → Before g x y
  Through-Before (s, d, v, cs, l, cd, t) = along (Before-trans (along here v) (Leads-Before l)) t

  module _ (hb : HappensBefore) (closed : close g ≡ some hb) where
    graph-eq : hb.graph ≡ g
    unfolding close
    graph-eq = ground arith

    -- The two sync events that `canReach` compares.
    next_sync-eq : (x : Pid) → find_next_sync hb.graph x ≡ lower_bound x (thread_syncs g x.tid)
    next_sync-eq x = rw graph-eq (find_next_sync-eq g x)

    prev_sync-eq : (y : Pid) → find_prev_sync hb.graph y ≡ last_le y (thread_syncs g y.tid)
    prev_sync-eq y = rw graph-eq (find_prev_sync-eq g y)

    has_edge-Leads : (s d : Pid) → has_edge hb s d ≡ true → Leads (successors g) s d
    unfolding has_edge
    has_edge-Leads s d h = elim (Bool-cases (pid_eq s d)) [
      | inl same ↦ subst (Leads (successors g) s) ((pid_eq_iff s d).0 same) start
      | inr other ↦
          let edge : contains d (targets s g.edges) ≡ true = ground (arith, graph-eq) in
          next start ((contains-successors g s d).1 (inl edge))
    ]

    lower_bound-sync :
        (x s : Pid)
        → lower_bound x (thread_syncs g x.tid) ≡ some s
        → Upto x s × (is_sync g s ≡ true)
    lower_bound-sync x s e =
        let (c, le) = lower_bound-contains x s (thread_syncs g x.tid) e in
        let same = w.owner x.tid s c in
        (
          Upto-of_pid_le x s (sym same) le,
          subst (λ t. contains s (thread_syncs g t) ≡ true) (sym same) c,
        )

    last_le-sync :
        (y d : Pid) → last_le y (thread_syncs g y.tid) ≡ some d → Upto d y × (is_sync g d ≡ true)
    last_le-sync y d e =
        let (c, le) = last_le-contains y d (thread_syncs g y.tid) e in
        let same = w.owner y.tid d c in
        (Upto-of_pid_le d y same le, subst (λ t. contains d (thread_syncs g t) ≡ true) (sym same) c)

    can_reach_at :
        (x y s d : Pid)
        → lower_bound x (thread_syncs g x.tid) ≡ some s
        → last_le y (thread_syncs g y.tid) ≡ some d
        → (can_reach hb x y ≡ true) ↔ Leads (successors g) s d
    unfolding can_reach
    can_reach_at x y s d es ed =
        let fs = next_sync-eq x ∙ es in
        let fd = prev_sync-eq y ∙ ed in
        let iff = is_reachable-Leads g w hb s d closed (lower_bound-sync x s es).1 in
        rw (can_reach, fs, fd)
          (
            λ h. elim (Bool-cases (has_edge hb s d)) [
              | inl edge ↦ has_edge-Leads s d edge
              | inr e ↦ iff.0 (ground arith)
            ],
            λ l. ground (arith, iff.1 l),
          )

    -- `canReach` finds a way through two sync events wherever there is one.
    pub can_reach-Through : (x y : Pid) → (can_reach hb x y ≡ true) ↔ Through x y
    unfolding can_reach
    can_reach-Through x y = (forth, back)
      where
        forth : can_reach hb x y ≡ true → Through x y
        forth h = elim (Option-cases (lower_bound x (thread_syncs g x.tid))) [
          | inl n ↦ absurd (ground (arith, next_sync-eq x))
          | inr (s, es) ↦ elim (Option-cases (last_le y (thread_syncs g y.tid))) [
            | inl n ↦ absurd (ground (arith, next_sync-eq x, prev_sync-eq y))
            | inr (d, ed) ↦
                let (u, cs) = lower_bound-sync x s es in
                let (v, cd) = last_le-sync y d ed in
                (s, d, u, cs, (can_reach_at x y s d es ed).0 h, cd, v)
          ]
        ]

        back : Through x y → can_reach hb x y ≡ true
        back (s, d, u, cs, l, cd, v) =
            let (s', es, ls) =
              lower_bound-least x s (thread_syncs g x.tid) (w.sorted x.tid) (rw u.0 cs)
                (pid_le_of_Upto x s u) in
            let (d', ed, ld) =
              last_le-greatest y d (thread_syncs g y.tid) (w.sorted y.tid) (rw (← v.0) cd)
                (pid_le_of_Upto d y v) in
            let (us, cs') = lower_bound-sync x s' es in
            let (ud, cd') = last_le-sync y d' ed in
            (can_reach_at x y s' d' es ed).1 (
              Leads-trans
                (Leads-of_Upto s.eid s' s (omega arith) (Upto-of_pid_le s' s (sym us.0 ∙ u.0) ls)
                  cs)
                (Leads-trans l (
                  Leads-of_Upto d'.eid d d' (omega arith) (Upto-of_pid_le d d' (v.0 ∙ sym ud.0) ld)
                    cd')))

-- Where `canReach` says that one event comes before another, it does.
pub can_reach_sound :
    (g : Graph) (hb : HappensBefore) (x y : Pid)
    → IsWell g
    → close g ≡ some hb
    → can_reach hb x y ≡ true
    → Before g x y
can_reach_sound g hb x y w closed h = Through-Before g w ((can_reach-Through g w hb closed x y).0 h)

-- Over a well formed graph with its cache, `canReach` holds between events of different threads
-- exactly where the one comes before the other in the order that program order and the sync edges
-- generate.
pub can_reach-Before :
    (g : Graph) (hb : HappensBefore) (x y : Pid)
    → IsWell g
    → close g ≡ some hb
    → x.tid ≢ y.tid
    → (can_reach hb x y ≡ true) ↔ Before g x y
can_reach-Before g hb x y w closed apart = (
  can_reach_sound g hb x y w closed,
  λ b.
      (can_reach-Through g w hb closed x y).1
        (elim (Before-Through g w b) [ inl u ↦ absurd (apart u.0) | inr t ↦ t ]),
)

-- Over a well formed graph with its cache, events of different threads are parallel, in either
-- order of the arguments, exactly where neither comes before the other.
pub are_parallel-Before :
    (g : Graph) (hb : HappensBefore) (x y : Pid)
    → IsWell g
    → close g ≡ some hb
    → x.tid ≢ y.tid
    → ((are_parallel hb x y ≡ true) ↔ ((¬ Before g x y) × (¬ Before g y x)))
      × (are_parallel hb x y ≡ are_parallel hb y x)
unfolding are_parallel
are_parallel-Before g hb x y w closed apart =
    let xy = can_reach-Before g hb x y w closed apart in
    let yx = can_reach-Before g hb y x w closed (λ e. apart (sym e)) in
    (
      (
        λ h. (λ b. ground (arith, xy.1 b), λ b. ground (arith, yx.1 b)),
        λ n. elim (Bool-cases (can_reach hb x y)) [
          | inl c ↦ absurd (n.0 (xy.0 c))
          | inr c ↦ elim (Bool-cases (can_reach hb y x)) [
            | inl d ↦ absurd (n.1 (yx.0 d))
            | inr d ↦ ground arith
          ]
        ],
      ),
      ground arith,
    )

-- Over a well formed graph with its cache, two events of one thread that has no sync event are
-- parallel to `areParallel`, although the one comes before the other.
pub are_parallel_same_thread :
    (g : Graph) (hb : HappensBefore) (x y : Pid)
    → IsWell g
    → close g ≡ some hb
    → thread_syncs g x.tid ≡ []
    → Upto x y
    → (are_parallel hb x y ≡ true) × Before g x y
unfolding are_parallel can_reach lower_bound
are_parallel_same_thread g hb x y w closed none_there u =
    (ground (arith, next_sync-eq g w hb closed x, next_sync-eq g w hb closed y), along here u)
