-- ===== src/Trace/Build/Grows.antt =====
-- What the building of a trace keeps: the ids of events and threads, and the nesting of calls.
use open_race.Prelude.{
  ℕ, ◌+◌, ◌-◌, ◌==◌, if◌then◌else◌, Bool, Option, none, some, List, [], ◌∷◌, ◌++◌, ◌≡◌, ◌⊎◌, inl,
  inr, refl, sym, ◌∙◌, subst, length, arith, Option-cases,
}
use open_race.Ir.{Ir, openmp_task_join}
use open_race.Ir.Operands.{Operands, get_thread_handle}
use open_race.Trace.Event.{Pid, Kind, join, call, call_end, Event, Thread}
use open_race.Trace.Build.States.{
  Built, done, fails, out_of_fuel, ◌>>=◌, or_fails, Forest, no_threads, thread_with, State, push,
}
use open_race.Trace.Build.Runtime.{
  join_tasks, visit_join_point, visit_master_start, visit_master_end, mark_master_start,
  mark_master_end, skip_master_region, visit_single, pre_visit, pre_fork, post_fork,
}

-- A run of two stages that is done is a run of the first one, and a run of the second one.
module _ {ℓ ℓ'} {First : Type ℓ} {Last : Type ℓ'} where
  pub built_stages :
      (run : Built First) (next : First → Built Last) {end : Last}
      → run >>= next ≡ done end
      → (mid : First) × (run ≡ done mid) × (next mid ≡ done end)
  built_stages (done mid) next e = (mid, refl, e)
  built_stages fails next e = cc
  built_stages out_of_fuel next e = cc

-- The event at each place has the thread's id and the place as its ids.
abbrev pub IsNumbered : ℕ → ℕ → List Event → Type 0
IsNumbered tid start [] = Unit
IsNumbered tid start (e ∷ es) =
    (e.pid ≡ record { tid = tid; eid = start }) × IsNumbered tid (start + 1) es

-- The depth of calls after an event: a call adds one, and the end of a call takes one away.
abbrev pub after_kind : Kind → ℕ → Option ℕ
after_kind call d = some (d + 1)
after_kind call_end d = if d == 0 then none else some (d - 1)
after_kind _ d = some d

-- The depth after the events; `none` where a call ends that has not begun.
unfoldable pub call_depth : List Event → ℕ → Option ℕ
call_depth [] d = some d
call_depth (e ∷ es) d = elim (after_kind e.kind d) [ none ↦ none | some d' ↦ call_depth es d' ]

-- The ids of the threads, each before those that it has forked.
abbrev pub ids : Forest → List ℕ
ids no_threads = []
ids (thread_with t below rest) = t.id ∷ (ids below ++ ids rest)

abbrev pub IsRange : ℕ → List ℕ → Type 0
IsRange start [] = Unit
IsRange start (x ∷ xs) = (x ≡ start) × IsRange (start + 1) xs

abbrev pub IsBuilt : Thread → Type 0
IsBuilt t = IsNumbered t.id 0 t.events × (call_depth t.events 0 ≡ some 0)

abbrev pub AllBuilt : Forest → Type 0
AllBuilt no_threads = Unit
AllBuilt (thread_with t below rest) = IsBuilt t × (AllBuilt below × AllBuilt rest)

pub record Inv (s : State) : Type 0 where
  pub numbered : IsNumbered s.tid 0 s.events
  pub range : IsRange (s.tid + 1) (ids s.children)
  pub next : s.program.current_tid ≡ s.tid + length (ids s.children)
  pub below : AllBuilt s.children

pub record Grows (s t : State) : Type 0 where
  pub same_tid : t.tid ≡ s.tid
  pub same_spawns : t.spawns ≡ s.spawns
  pub same_callstack : t.callstack ≡ s.callstack
  pub depth : (d : ℕ) → call_depth s.events 0 ≡ some d → call_depth t.events 0 ≡ some d
  pub keeps : Inv s → Inv t

pub Grows-refl : (s : State) → Grows s s
Grows-refl s = record {
  same_tid = refl;
  same_spawns = refl;
  same_callstack = refl;
  depth = λ d h. h;
  keeps = λ i. i;
}

pub same-Grows : (s t : State) → done s ≡ done t → Grows s t
same-Grows s t e = let q : s ≡ t = cc in subst (Grows s) q (Grows-refl s)

pub Grows-trans : (s t u : State) → Grows s t → Grows t u → Grows s u
Grows-trans s t u g h = record {
  same_tid = h.same_tid ∙ g.same_tid;
  same_spawns = h.same_spawns ∙ g.same_spawns;
  same_callstack = h.same_callstack ∙ g.same_callstack;
  depth = λ d e. h.depth d (g.depth d e);
  keeps = λ i. h.keeps (g.keeps i);
}

IsNumbered-push :
    (tid start : ℕ) (es : List Event) (e : Event)
    → IsNumbered tid start es
    → e.pid ≡ record { tid = tid; eid = start + length es }
    → IsNumbered tid start (es ++ e ∷ [])
IsNumbered-push tid start [] e n h = (h ∙ ground arith, tt)
IsNumbered-push tid start (x ∷ es) e (h, n) k =
    (h, IsNumbered-push tid (start + 1) es e n (k ∙ ground arith))

pub call_depth-push :
    (es : List Event) (e : Event) (d d' : ℕ)
    → call_depth es d ≡ some d'
    → call_depth (es ++ e ∷ []) d ≡ after_kind e.kind d'
unfolding call_depth
call_depth-push [] e d d' h = elim (Option-cases (after_kind e.kind d)) [
  | inl stops ↦ ground arith
  | inr (x, goes) ↦ ground arith
]
call_depth-push (x ∷ es) e d d' h = elim (Option-cases (after_kind x.kind d)) [
  | inl stops ↦ absurd (ground arith)
  | inr (y, goes) ↦ ground (arith, call_depth-push es e y d')
]

pub push-Inv : (kind : Kind) (ir : Ir) (s : State) → Inv s → Inv (push kind ir s)
unfolding push
push-Inv kind ir s i = record {
  numbered = IsNumbered-push s.tid 0 s.events _ i.numbered (ground arith);
  range = i.range;
  next = i.next;
  below = i.below;
}

pub push-Grows :
    (kind : Kind) (ir : Ir) (s : State)
    → ((d : ℕ) → after_kind kind d ≡ some d)
    → Grows s (push kind ir s)
unfolding push
push-Grows kind ir s h = record {
  same_tid = refl;
  same_spawns = refl;
  same_callstack = refl;
  depth = λ d e. call_depth-push s.events _ 0 d e ∙ h d;
  keeps = push-Inv kind ir s;
}

-- A change of what no event or thread id depends on.
pub frame-Grows :
    (s t : State)
    → t ≡ record s {
      skip_until = t.skip_until;
      context = t.context;
      program = record t.program { current_tid = s.program.current_tid };
    }
    → Grows s t
frame-Grows s t e = subst (Grows s) (sym e) (record {
  same_tid = refl;
  same_spawns = refl;
  same_callstack = refl;
  depth = λ d h. h;
  keeps = λ i. record { numbered = i.numbered; range = i.range; next = i.next; below = i.below };
})

module _ (o : Operands) where
  join_tasks-Grows :
      (tasks : List (Pid × Ir)) (s t : State) → join_tasks o tasks s ≡ done t → Grows s t
  unfolding join_tasks
  join_tasks-Grows [] s t e = let q : s ≡ t = cc in subst (Grows s) q (Grows-refl s)
  join_tasks-Grows ((task, ir) ∷ tasks) s t e =
      let (handle, _, rest) =
        built_stages (or_fails (get_thread_handle o (record ir { tag = openmp_task_join }))) _ e in
      Grows-trans s (push (join (some task) handle) (record ir { tag = openmp_task_join }) s) t
        (push-Grows (join (some task) handle) (record ir { tag = openmp_task_join }) s (λ d. refl))
        (join_tasks-Grows tasks
          (push (join (some task) handle) (record ir { tag = openmp_task_join }) s) t rest)

  pre_visit-cases :
      (ir : Ir) (s t : State) (skip : Bool)
      → pre_visit o ir s ≡ done (skip, t)
      → (visit_join_point o s ≡ done (skip, t))
        ⊎ (t ≡ record s {
          skip_until = t.skip_until;
          program = record s.program { runtime = t.program.runtime };
        })
  unfolding pre_visit visit_master_start visit_master_end mark_master_start mark_master_end
      skip_master_region visit_single
  pre_visit-cases ir s t skip e = ground arith

  visit_join_point-Grows :
      (s t : State) (skip : Bool) → visit_join_point o s ≡ done (skip, t) → Grows s t
  unfolding visit_join_point
  visit_join_point-Grows s t skip e =
      let (u, joined, last) = built_stages (join_tasks o s.program.runtime.unjoined_tasks s) _ e in
      Grows-trans s u t (join_tasks-Grows s.program.runtime.unjoined_tasks s u joined)
        (frame-Grows u t (ground arith))

  pub pre_visit-Grows :
      (ir : Ir) (s t : State) (skip : Bool) → pre_visit o ir s ≡ done (skip, t) → Grows s t
  pre_visit-Grows ir s t skip e = elim (pre_visit-cases ir s t skip e) [
    | inl joins ↦ visit_join_point-Grows s t skip joins
    | inr framed ↦ frame-Grows s t (ground arith)
  ]

pub pre_fork-Grows : (ir : Ir) (p : Pid) (s : State) → Grows s (pre_fork ir p s)
unfolding pre_fork
pre_fork-Grows ir p s = frame-Grows s (pre_fork ir p s) (ground arith)

pub post_fork-Grows : (ir : Ir) (s : State) → Grows s (post_fork ir s)
unfolding post_fork
post_fork-Grows ir s = frame-Grows s (post_fork ir s) (ground arith)
