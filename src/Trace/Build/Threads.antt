-- ===== src/Trace/Build/Threads.antt =====
-- Each thread that the building of a trace finishes is built well, and the whole program's threads
-- are numbered as they are forked.
use open_race.Prelude.{
  ℕ, ◌+◌, ◌||◌, Option, none, some, List, [], ◌∷◌, ◌++◌, ◌≡◌, ◌⊎◌, inl, inr, refl, sym, ◌∙◌, ap,
  subst, length, length-append, arith, Bool-cases, Option-cases,
}
use mathlib.Core.List.{append-nil, append_assoc}
use open_race.Ir.{Ir}
use open_race.Ir.Operands.{get_thread_handle, get_lock_value}
use open_race.Summary.{resolve_target_function}
use open_race.Trace.Event.{Pid, fork, lock, unlock, barrier, call, call_end, extern_call, Thread}
use open_race.Trace.Build.States.{
  Built, done, or_fails, Forest, no_threads, thread_with, add_thread, Spawn, State, push,
  child_state, back_in, finished,
}
use open_race.Trace.Build.Runtime.{pre_fork, post_fork}
use open_race.Trace.Build.{
  Answers, fork_thread, call_node, entry_node, visit_access, visit_join, new_thread,
  in_parallel_now, visit_fork, visit_call, visit_class, is_recursive_thread_spawn,
}
use open_race.Trace.Build.Grows.{
  built_stages, call_depth, call_depth-push, ids, IsRange, IsBuilt, AllBuilt, Inv, Grows,
  Grows-refl, same-Grows, Grows-trans, push-Inv, push-Grows, frame-Grows, pre_fork-Grows,
  post_fork-Grows,
}

IsRange-append :
    (start : ℕ) (xs ys : List ℕ)
    → IsRange start xs
    → IsRange (start + length xs) ys
    → IsRange start (xs ++ ys)
IsRange-append start [] ys r q = subst (λ z. IsRange z ys) (ground arith) q
IsRange-append start (x ∷ xs) ys (e, r) q =
    (e, IsRange-append (start + 1) xs ys r (subst (λ z. IsRange z ys) (ground arith) q))

ids-add_thread :
    (f : Forest) (t : Thread) (below : Forest)
    → ids (add_thread f t below) ≡ ids f ++ t.id ∷ ids below
unfolding add_thread
ids-add_thread no_threads t below = simp append-nil
ids-add_thread (thread_with u below' rest) t below =
    simp (ids-add_thread rest t below, append_assoc)

AllBuilt-add_thread :
    (f : Forest) (t : Thread) (below : Forest)
    → AllBuilt f
    → IsBuilt t
    → AllBuilt below
    → AllBuilt (add_thread f t below)
unfolding add_thread
AllBuilt-add_thread no_threads t below f b l = (b, (l, tt))
AllBuilt-add_thread (thread_with u below' rest) t below (h, (k, f)) b l =
    (h, (k, AllBuilt-add_thread rest t below f b l))

-- The new thread's state, and what the forking thread makes of it when it is built.
child_state-Inv : (spawn : Spawn) (s : State) → Inv (child_state spawn s)
unfolding child_state
child_state-Inv spawn s = record { numbered = tt; range = tt; next = ground arith; below = tt }

back_in-Inv :
    (spawn : Spawn) (s t : State) → Inv s → Grows (child_state spawn s) t → Inv (back_in s t)
unfolding back_in child_state call_depth finished
back_in-Inv spawn s t i g =
    let j = g.keeps (child_state-Inv spawn s) in
    let built : IsBuilt (finished t) = (j.numbered, g.depth 0 refl) in
    let same = ids-add_thread s.children (finished t) t.children in
    record {
      numbered = i.numbered;
      range = subst (IsRange (s.tid + 1)) (sym same) (
          IsRange-append (s.tid + 1) (ids s.children) (t.tid ∷ ids t.children) i.range (
            g.same_tid ∙ omega (arith, i.next),
            subst (λ z. IsRange z (ids t.children)) (omega (arith, i.next, g.same_tid)) j.range,
          ));
      next = omega (
        arith,
        i.next,
        j.next,
        g.same_tid,
        ap length same,
        length-append {0} (ids s.children) (t.tid ∷ ids t.children),
      );
      below = AllBuilt-add_thread s.children (finished t) t.children i.below built j.below;
    }

-- What the nested calls and threads of a building do.
abbrev pub BuildsWell : (ℕ → State → Built State) → Type 0
BuildsWell build = (node : ℕ) (s t : State) → build node s ≡ done t → Grows s t

module _ (a : Answers) (build : ℕ → State → Built State) (well : BuildsWell build) where
  new_thread-Grows : (spawn : Spawn) (s t : State) → new_thread a build spawn s ≡ done t → Grows s t
  unfolding new_thread back_in
  new_thread-Grows spawn s t e =
      let (u, built, last) = built_stages (build spawn.entry (child_state spawn s)) _ e in
      let g = well spawn.entry (child_state spawn s) u built in
      let q : back_in s u ≡ t = cc in
      subst (Grows s) q (record {
        same_tid = refl;
        same_spawns = refl;
        same_callstack = refl;
        depth = λ d h. h;
        keeps = λ i. back_in-Inv spawn s u i g;
      })

  fork_thread-Grows :
      (ir : Ir) (handle entry : ℕ) (s t : State)
      → fork_thread a build ir handle entry s ≡ done t
      → Grows s t
  unfolding fork_thread
  fork_thread-Grows ir handle entry s t e =
      elim (Bool-cases (is_recursive_thread_spawn a s entry 2)) [
        | inl again ↦ let q : s ≡ t = ground arith in subst (Grows s) q (Grows-refl s)
        | inr fresh ↦
            let pid : Pid = record { tid = s.tid; eid = length s.events } in
            let spawn : Spawn = record { fork = pid; ir = ir; entry = entry } in
            let s1 = push (fork handle) ir s in
            let s2 = in_parallel_now s1 in
            let s3 = pre_fork ir pid s2 in
            let e4 = rw fresh at e in
            let (u, built, last) = built_stages (new_thread a build spawn s3) _ e4 in
            let q : post_fork ir u ≡ t = cc in
            Grows-trans s s1 t (push-Grows (fork handle) ir s (λ d. refl)) (
              Grows-trans s1 s2 t (frame-Grows s1 s2 refl) (
                Grows-trans s2 s3 t (pre_fork-Grows ir pid s2) (
                  Grows-trans s3 u t (new_thread-Grows spawn s3 u built)
                    (subst (Grows u) q (post_fork-Grows ir u)))))
      ]

  pub visit_fork-Grows : (ir : Ir) (s t : State) → visit_fork a build ir s ≡ done t → Grows s t
  unfolding visit_fork
  visit_fork-Grows ir s t e =
      let (found, _, e1) = built_stages (entry_node a s.context ir) _ e in
      let (entry, _, e2) = built_stages (or_fails found) _ e1 in
      let (handle, _, e3) = built_stages (or_fails (get_thread_handle a.operands ir)) _ e2 in
      fork_thread-Grows ir handle entry s t e3

  -- A call, what its callee does, and the end of the call.
  enter-Grows : (ir : Ir) (s u : State) → Grows (push call ir s) u → Grows s (push call_end ir u)
  unfolding push
  enter-Grows ir s u g = record {
    same_tid = g.same_tid;
    same_spawns = g.same_spawns;
    same_callstack = g.same_callstack;
    depth = λ d e.
        call_depth-push u.events _ 0 (d + 1) (g.depth (d + 1) (call_depth-push s.events _ 0 d e))
        ∙ ground arith;
    keeps = λ i. push-Inv call_end ir u (g.keeps (push-Inv call ir s i));
  }

  call_node-Grows :
      (ir : Ir) (direct : Option ℕ) (s t : State)
      → call_node a build ir direct s ≡ done t
      → Grows s t
  unfolding call_node
  call_node-Grows ir none s t e = same-Grows s t e
  call_node-Grows ir (some direct) s t e = elim (Bool-cases (a.is_ext_function direct)) [
    | inl ext ↦
        let q : push extern_call ir s ≡ t = ground arith in
        subst (Grows s) q (push-Grows extern_call ir s (λ d. refl))
    | inr inner ↦
        let e' = rw inner at e in
        let (u, built, last) = built_stages (build direct (push call ir s)) _ e' in
        let q : push call_end ir u ≡ t = cc in
        subst (Grows s) q (enter-Grows ir s u (well direct (push call ir s) u built))
  ]

  pub visit_call-cases :
      (node : ℕ) (ir : Ir) (s : State)
      → (visit_call a build node ir s ≡ done s)
        ⊎ ((direct : Option ℕ) × (visit_call a build node ir s ≡ call_node a build ir direct s))
  unfolding visit_call
  visit_call-cases node ir s =
      let c = a.call_of ir.inst in
      elim (Option-cases (resolve_target_function c)) [
        | inl q ↦ inl (ground arith)
        | inr (callee, q) ↦
            elim (Bool-cases
              (c.is_indirect || callee.is_intrinsic || callee.is_debug_info_for_profiling)) [
                | inl out ↦ inl (ground arith)
                | inr goes ↦ inr (
                  a.direct_node (a.context_evolve (a.context_of node) ir.inst) callee.address,
                  ground arith,
                )
              ]
      ]

  pub visit_call-Grows :
      (node : ℕ) (ir : Ir) (s t : State) → visit_call a build node ir s ≡ done t → Grows s t
  visit_call-Grows node ir s t e = elim (visit_call-cases node ir s) [
    | inl q ↦ same-Grows s t (sym q ∙ e)
    | inr (direct, q) ↦ call_node-Grows ir direct s t (sym q ∙ e)
  ]

  pub visit_class-cases :
      (node : ℕ) (ir : Ir) (s t : State)
      → visit_class a build node ir s ≡ done t
      → (t ≡ visit_access a ir s)
        ⊎ (visit_fork a build ir s ≡ done t)
        ⊎ (visit_join a ir s ≡ done t)
        ⊎ (visit_call a build node ir s ≡ done t)
        ⊎ (t ≡ push (lock (get_lock_value a.operands ir)) ir s)
        ⊎ (t ≡ push (unlock (get_lock_value a.operands ir)) ir s)
        ⊎ (t ≡ push barrier ir s)
  unfolding visit_class
  visit_class-cases node ir s t e = ground arith
