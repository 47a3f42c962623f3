-- ===== src/Trace/Build/Whole.antt =====
-- What the building of the whole trace gives: numbered events, balanced calls and numbered threads.
use open_race.Prelude.{
  ℕ, zero, suc, ◌==◌, not, ◌&&◌, none, List, [], ◌∷◌, ◌≡◌, inl, inr, refl, subst, arith, Bool-cases,
  Option-cases,
}
use open_race.Ir.{Ir, is_read, is_fork, is_call}
use open_race.Ir.Operands.{get_thread_handle}
use open_race.Summary.{get_function_summary}
use open_race.Trace.Event.{read, write, join, lock, unlock, barrier}
use open_race.Trace.Build.States.{Built, done, or_fails, State, push, pop, contains}
use open_race.Trace.Build.Runtime.{pre_visit}
use open_race.Trace.Build.{
  Answers, should_skip_ir, visit_access, visit_join, visit_class, visit_live, visit, visit_all,
  build_trace,
}
use open_race.Trace.Build.Grows.{
  built_stages, Grows, same-Grows, Grows-trans, push-Grows, frame-Grows, pre_visit-Grows,
}
use open_race.Trace.Build.Threads.{
  BuildsWell, visit_fork-Grows, visit_call-Grows, visit_class-cases,
}

visit_access-Grows : (a : Answers) (ir : Ir) (s : State) → Grows s (visit_access a ir s)
unfolding visit_access
visit_access-Grows a ir s = elim (Bool-cases (is_read ir.tag)) [
  | inl reads ↦ rw reads (push-Grows (read _) ir s (λ d. refl))
  | inr writes ↦ rw writes (push-Grows (write _) ir s (λ d. refl))
]

visit_join-Grows : (a : Answers) (ir : Ir) (s t : State) → visit_join a ir s ≡ done t → Grows s t
unfolding visit_join
visit_join-Grows a ir s t e =
    let (handle, _, last) = built_stages (or_fails (get_thread_handle a.operands ir)) _ e in
    let q : push (join none handle) ir s ≡ t = cc in
    subst (Grows s) q (push-Grows (join none handle) ir s (λ d. refl))

module _ (a : Answers) (build : ℕ → State → Built State) (well : BuildsWell build) where
  visit_class-Grows :
      (node : ℕ) (ir : Ir) (s t : State) → visit_class a build node ir s ≡ done t → Grows s t
  visit_class-Grows node ir s t e = elim (visit_class-cases a build well node ir s t e) [
    | inl q ↦ rw q (visit_access-Grows a ir s)
    | inr (inl q) ↦ visit_fork-Grows a build well ir s t q
    | inr (inr (inl q)) ↦ visit_join-Grows a ir s t q
    | inr (inr (inr (inl q))) ↦ visit_call-Grows a build well node ir s t q
    | inr (inr (inr (inr (inl q)))) ↦ rw q (push-Grows (lock _) ir s (λ d. refl))
    | inr (inr (inr (inr (inr (inl q))))) ↦ rw q (push-Grows (unlock _) ir s (λ d. refl))
    | inr (inr (inr (inr (inr (inr q))))) ↦ rw q (push-Grows barrier ir s (λ d. refl))
  ]

  visit_live-Grows :
      (node : ℕ) (ir : Ir) (s t : State) → visit_live a build node ir s ≡ done t → Grows s t
  unfolding visit_live
  visit_live-Grows node ir s t e =
      elim (Bool-cases
        (not s.program.in_parallel && not (is_fork ir.tag) && not (is_call ir.tag))) [
          | inl out ↦ same-Grows s t (ground arith)
          | inr goes ↦
              let e' = rw goes at e in
              let ((skipped, u), before, last) = built_stages (pre_visit a.operands ir s) _ e' in
              Grows-trans s u t (pre_visit-Grows a.operands ir s u skipped before)
                (elim (Bool-cases skipped) [
                  | inl skips ↦ same-Grows u t (ground arith)
                  | inr visits ↦ visit_class-Grows node ir u t (ground arith)
                ])
        ]

  pub visit-Grows :
      (node : ℕ) (ir : Ir) (s t : State) → visit a build node ir s ≡ done t → Grows s t
  unfolding visit should_skip_ir
  visit-Grows node ir s t e = elim (Option-cases s.skip_until) [
    | inl none_yet ↦ visit_live-Grows node ir s t (ground arith)
    | inr (target, skipping) ↦ elim (Bool-cases (ir.inst == target)) [
      | inl found ↦
          let s' : State = record s { skip_until = none } in
          Grows-trans s s' t (frame-Grows s s' refl) (visit_live-Grows node ir s' t (ground arith))
      | inr goes_on ↦ same-Grows s t (ground arith)
    ]
  ]

  visit_all-Grows :
      (node : ℕ) (irs : List Ir) (s t : State) → visit_all a build node irs s ≡ done t → Grows s t
  unfolding visit_all
  visit_all-Grows node [] s t e = same-Grows s t e
  visit_all-Grows node (ir ∷ irs) s t e =
      let (u, first, last) = built_stages (visit a build node ir s) _ e in
      Grows-trans s u t (visit-Grows node ir s u first) (visit_all-Grows node irs u t last)

module _ (a : Answers) where
  pub build_trace-Grows :
      (fuel node : ℕ) (s t : State) → build_trace a fuel node s ≡ done t → Grows s t
  unfolding build_trace pop
  build_trace-Grows zero node s t e = cc
  build_trace-Grows (suc fuel) node s t e =
      elim (Bool-cases (contains (a.function_of node) s.callstack)) [
        | inl recursive ↦ same-Grows s t (ground arith)
        | inr fresh ↦
            let func = a.function_of node in
            let e1 = rw fresh at e in
            let ((summary, cache), _, e2) =
              built_stages
                (or_fails (get_function_summary s.program.summaries func (a.blocks_of func))) _
                e1 in
            let s' : State = record s {
              callstack = func ∷ s.callstack;
              context = a.context_of node;
              program = record s.program { summaries = cache };
            } in
            let (u, all, last) =
              built_stages (visit_all a (build_trace a fuel) node summary s') _ e2 in
            let g =
              visit_all-Grows a (build_trace a fuel) (build_trace-Grows fuel) node summary s' u
                all in
            let q : record u { callstack = pop u.callstack } ≡ t = cc in
            subst (Grows s) q (record {
              same_tid = g.same_tid;
              same_spawns = g.same_spawns;
              same_callstack = ground (arith, g.same_callstack);
              depth = g.depth;
              keeps = λ i.
                  let j = g.keeps (record {
                    numbered = i.numbered;
                    range = i.range;
                    next = i.next;
                    below = i.below;
                  }) in
                  record { numbered = j.numbered; range = j.range; next = j.next; below = j.below };
            })
      ]
