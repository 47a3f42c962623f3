-- ===== src/Solver/PartialUpdate/Rounds.antt =====
-- A round of src/PointerAnalysis/Solver/PartialUpdateSolver.h: what its second part records is let through in
-- the next round.
use open_race.Prelude.{
  ℕ, zero, suc, ◌<◌, Bool, true, ◌||◌, List, [], ◌∷◌, ◌++◌, ◌≡◌, inl, inr, refl, sym, ap, length,
  arith, Bool-cases, Option-cases,
}
use open_race.Trace.Build.States.{Built, done, fails, out_of_fuel, ◌>>=◌}
use open_race.PointsTo.{BitVectors, Laws}
use open_race.ConstraintGraph.{ConstraintGraph, load, store, offset, special, get_node}
use open_race.Solver.{
  SolverState, Calls, LangModel, process_load, process_store, process_offset, process_special,
}
use open_race.Solver.Copies.{called}
use open_race.Solver.PartialUpdate.{
  Work, Run, resize, set_all, find_unset, record_all, should_process_copy, process_components,
  process_stores, process_loads, process_specials, process_offsets, addr_taken, process_node,
  process_unset, run_round,
}
use open_race.Solver.PartialUpdate.Recorded.{
  IsPending, record_all-IsPending, record_all-kept, record_all-sizes, should_process_copy-IsPending,
}

bind_inverse :
    {A B : Type 0} (run : Built A) (f : A → Built B) (y : B)
    → (run >>= f) ≡ done y
    → (x : A) × (run ≡ done x) × (f x ≡ done y)
bind_inverse fails f y h = absurd (ground (arith, h))
bind_inverse out_of_fuel f y h = absurd (ground (arith, h))
bind_inverse (done x) f y h = (x, refl, h)

done_injective : {A : Type 0} {x y : A} → ◌≡◌ {A = Built A} (done x) (done y) → x ≡ y
done_injective h = ground (arith, h)

length-resize : (n : ℕ) (value : Bool) (bits : List Bool) → length (resize n value bits) ≡ n
unfolding resize
length-resize zero value bits = refl
length-resize (suc n) value [] = ap suc (length-resize n value [])
length-resize (suc n) value (bit ∷ bits) = ap suc (length-resize n value bits)

length-set_all : (bits : List Bool) → length (set_all bits) ≡ length bits
unfolding set_all
length-set_all [] = refl
length-set_all (bit ∷ bits) = ap suc (length-set_all bits)

called-append :
    (i j : ℕ) (xs ys : List (ℕ × ℕ)) → called i j (xs ++ ys) ≡ (called i j xs || called i j ys)
called-append i j [] ys = refl
called-append i j ((x, y) ∷ xs) ys = ground (arith, called-append i j xs ys)

module _ (b : BitVectors) (hash : ℕ → ℕ → ℕ) (model : LangModel b) where
  -- The processing of constraints, one edge after another, with the edges for which the callback records
  -- a copy edge.
  pub data Steps : Run b hash → Calls b → Run b hash → Type 0 where
    stop : {r : Run b hash} → Steps r [] r
    then_store :
        {r r' : Run b hash} {more calls : Calls b} {changed : Bool} {g : ConstraintGraph b}
        (src dst : ℕ)
        → process_store b src dst r.solver.pts r.solver.graph ≡ done (changed, calls, g)
        → Steps
            (record {
              solver = record r.solver { graph = g };
              work = record_all b hash calls r.work;
            })
            more
            r'
        → Steps r (calls ++ more) r'
    then_load :
        {r r' : Run b hash} {more calls : Calls b} {changed : Bool} {g : ConstraintGraph b}
        (src dst : ℕ)
        → process_load b src dst r.solver.pts r.solver.graph ≡ done (changed, calls, g)
        → Steps
            (record {
              solver = record r.solver { graph = g };
              work = record_all b hash calls r.work;
            })
            more
            r'
        → Steps r (calls ++ more) r'
    then_special :
        {r r' : Run b hash} {more calls : Calls b} {changed : Bool} {g : ConstraintGraph b}
        (src dst : ℕ)
        → process_special b model src dst r.solver.pts r.solver.graph ≡ done (changed, calls, g)
        → Steps
            (record {
              solver = record r.solver { graph = g };
              work = record_all b hash calls r.work;
            })
            more
            r'
        → Steps r (calls ++ more) r'
    then_offset :
        {r r' : Run b hash} {more calls : Calls b} {changed : Bool} {s : SolverState b}
        (src dst : ℕ)
        → process_offset b model src dst r.solver ≡ done (changed, calls, s)
        → Steps
            (record { solver = s; work = record_all b hash (addr_taken b hash model calls) r.work })
            more
            r'
        → Steps r (addr_taken b hash model calls ++ more) r'

  abbrev Goes : Run b hash → Run b hash → Type 0
  Goes r r' = (calls : Calls b) × Steps r calls r'

  stays : (r r' : Run b hash) → ◌≡◌ {A = Built (Run b hash)} (done r) (done r') → Goes r r'
  stays r r' h = rw (← done_injective h) ([], stop)

  joined : {r r' r'' : Run b hash} → Goes r r' → Goes r' r'' → Goes r r''
  joined (calls, stop) later = later
  joined (_, then_store {calls = calls} src dst e steps) later =
      let (more, rest) = joined (_, steps) later in (calls ++ more, then_store src dst e rest)
  joined (_, then_load {calls = calls} src dst e steps) later =
      let (more, rest) = joined (_, steps) later in (calls ++ more, then_load src dst e rest)
  joined (_, then_special {calls = calls} src dst e steps) later =
      let (more, rest) = joined (_, steps) later in (calls ++ more, then_special src dst e rest)
  joined (_, then_offset {calls = calls} src dst e steps) later =
      let (more, rest) = joined (_, steps) later in
      (addr_taken b hash model calls ++ more, then_offset src dst e rest)

  process_stores-Goes :
      (srcs : List ℕ) (node : ℕ) (r r' : Run b hash)
      → process_stores b hash model srcs node r ≡ done r'
      → Goes r r'
  unfolding process_stores
  process_stores-Goes [] node r r' h = stays r r' h
  process_stores-Goes (src ∷ srcs) node r r' h =
      let (x, run, rest) = bind_inverse _ _ r' h in
      let (more, steps) = process_stores-Goes srcs node _ r' rest in
      (x.1 ++ more, then_store src node run steps)

  process_loads-Goes :
      (node : ℕ) (dsts : List ℕ) (r r' : Run b hash)
      → process_loads b hash model node dsts r ≡ done r'
      → Goes r r'
  unfolding process_loads
  process_loads-Goes node [] r r' h = stays r r' h
  process_loads-Goes node (dst ∷ dsts) r r' h =
      let (x, run, rest) = bind_inverse _ _ r' h in
      let (more, steps) = process_loads-Goes node dsts _ r' rest in
      (x.1 ++ more, then_load node dst run steps)

  process_specials-Goes :
      (node : ℕ) (dsts : List ℕ) (r r' : Run b hash)
      → process_specials b hash model node dsts r ≡ done r'
      → Goes r r'
  unfolding process_specials
  process_specials-Goes node [] r r' h = stays r r' h
  process_specials-Goes node (dst ∷ dsts) r r' h =
      let (x, run, rest) = bind_inverse _ _ r' h in
      let (more, steps) = process_specials-Goes node dsts _ r' rest in
      (x.1 ++ more, then_special node dst run steps)

  process_offsets-Goes :
      (node : ℕ) (dsts : List ℕ) (r r' : Run b hash)
      → process_offsets b hash model node dsts r ≡ done r'
      → Goes r r'
  unfolding process_offsets
  process_offsets-Goes node [] r r' h = stays r r' h
  process_offsets-Goes node (dst ∷ dsts) r r' h =
      let (x, run, rest) = bind_inverse _ _ r' h in
      let (more, steps) = process_offsets-Goes node dsts _ r' rest in
      (addr_taken b hash model x.1 ++ more, then_offset node dst run steps)

  after_bind :
      {A : Type 0} (run : Built A) (f : A → Built (Run b hash)) (r r' : Run b hash)
      → (run >>= f) ≡ done r'
      → ((x : A) → run ≡ done x → f x ≡ done r' → Goes r r')
      → Goes r r'
  after_bind fails f r r' h go = absurd (ground (arith, h))
  after_bind out_of_fuel f r r' h go = absurd (ground (arith, h))
  after_bind (done x) f r r' h go = go x refl h

  process_node-Goes :
      (id : ℕ) (r r' : Run b hash) → process_node b hash model id r ≡ done r' → Goes r r'
  unfolding process_node
  process_node-Goes id r r' h = after_bind (get_node b r.solver.graph id) _ r r' h (λ n _ h1.
      after_bind (process_stores b hash model (b.elements (n.pred_cons store)) id r) _ r r' h1
        (λ r1 e1 k1. joined (process_stores-Goes (b.elements (n.pred_cons store)) id r r1 e1) (
          after_bind (get_node b r1.solver.graph id) _ r1 r' k1 (λ n1 _ h2.
            after_bind (process_loads b hash model id (b.elements (n1.succ_cons load)) r1) _ r1 r'
              h2
              (λ r2 e2 k2.
                joined (process_loads-Goes id (b.elements (n1.succ_cons load)) r1 r2 e2)
                  (specials_and_offsets id r2 r' k2))))))
    where
      specials_and_offsets :
          (id : ℕ) (r2 r' : Run b hash)
          → (get_node b r2.solver.graph id >>= λ n2.
              process_specials b hash model id (b.elements (n2.succ_cons special)) r2 >>= λ r3.
              get_node b r3.solver.graph id >>= λ n3.
              process_offsets b hash model id (b.elements (n3.succ_cons offset)) r3)
            ≡ done r'
          → Goes r2 r'
      specials_and_offsets id r2 r' k2 =
          after_bind (get_node b r2.solver.graph id) _ r2 r' k2 (λ n2 _ h3.
            after_bind (process_specials b hash model id (b.elements (n2.succ_cons special)) r2) _
              r2 r' h3
              (λ r3 e3 k3.
                joined (process_specials-Goes id (b.elements (n2.succ_cons special)) r2 r3 e3) (
                  after_bind (get_node b r3.solver.graph id) _ r3 r' k3 (λ n3 _ h4.
                    process_offsets-Goes id (b.elements (n3.succ_cons offset)) r3 r' h4))))

  process_unset-Goes :
      (fuel from : ℕ) (r r' : Run b hash)
      → process_unset b hash model fuel from r ≡ done r'
      → Goes r r'
  unfolding process_unset
  process_unset-Goes zero from r r' h = absurd (ground (arith, h))
  process_unset-Goes (suc fuel) from r r' h =
      elim (Option-cases (find_unset from 0 r.work.ls_work_list)) [
        | inl ends ↦ stays r r' (rw (ends, process_unset) at h)
        | inr (id, goes) ↦
            after_bind (process_node b hash model id r) _ r r' (rw (goes, process_unset) at h)
              (λ r1 e1 rest.
                joined (process_node-Goes id r r1 e1) (process_unset-Goes fuel (suc id) r1 r' rest))
      ]

  module _ (laws : Laws b) where
    IsPending-kept :
        {r r' : Run b hash} {calls : Calls b} (i j : ℕ)
        → Steps r calls r'
        → IsPending b hash i j r.work
        → IsPending b hash i j r'.work
    IsPending-kept i j stop v = v
    IsPending-kept {r = r} i j (then_store {calls = calls} src dst e steps) v =
        IsPending-kept i j steps (record_all-kept b hash laws calls i j r.work v)
    IsPending-kept {r = r} i j (then_load {calls = calls} src dst e steps) v =
        IsPending-kept i j steps (record_all-kept b hash laws calls i j r.work v)
    IsPending-kept {r = r} i j (then_special {calls = calls} src dst e steps) v =
        IsPending-kept i j steps (record_all-kept b hash laws calls i j r.work v)
    IsPending-kept {r = r} i j (then_offset {calls = calls} src dst e steps) v =
        IsPending-kept i j steps
          (record_all-kept b hash laws (addr_taken b hash model calls) i j r.work v)

    one_step :
        (calls more : Calls b) (i j : ℕ) (w : Work b hash) (r' : Run b hash)
        → called i j (calls ++ more) ≡ true
        → j < length w.target_list
        → (called i j more ≡ true
            → j < length (record_all b hash calls w).target_list
            → IsPending b hash i j r'.work)
        → (IsPending b hash i j (record_all b hash calls w) → IsPending b hash i j r'.work)
        → IsPending b hash i j r'.work
    one_step calls more i j w r' h below later kept = elim (Bool-cases (called i j calls)) [
      | inl here ↦ kept (record_all-IsPending b hash laws calls i j w here below)
      | inr elsewhere ↦
          let (_, same) = record_all-sizes b hash laws calls w in
          later (ground (arith, called-append i j calls more)) (omega (arith, same))
    ]

    Steps-IsPending :
        {r r' : Run b hash} {calls : Calls b} (i j : ℕ)
        → Steps r calls r'
        → called i j calls ≡ true
        → j < length r.work.target_list
        → IsPending b hash i j r'.work
    Steps-IsPending i j stop h below = absurd (ground (arith, h))
    Steps-IsPending {r = r} {r' = r'} i j (then_store {more = more} {calls = calls} src dst e steps)
          h below =
        one_step calls more i j r.work r' h below (Steps-IsPending i j steps)
          (IsPending-kept i j steps)
    Steps-IsPending {r = r} {r' = r'} i j (then_load {more = more} {calls = calls} src dst e steps)
          h below =
        one_step calls more i j r.work r' h below (Steps-IsPending i j steps)
          (IsPending-kept i j steps)
    Steps-IsPending {r = r} {r' = r'} i j
          (then_special {more = more} {calls = calls} src dst e steps) h below =
        one_step calls more i j r.work r' h below (Steps-IsPending i j steps)
          (IsPending-kept i j steps)
    Steps-IsPending {r = r} {r' = r'} i j
          (then_offset {more = more} {calls = calls} src dst e steps) h below =
        one_step (addr_taken b hash model calls) more i j r.work r' h below
          (Steps-IsPending i j steps) (IsPending-kept i j steps)

    -- The state at the start of the second part: all copies are handled.
    abbrev pub all_handled : Run b hash → Run b hash
    all_handled r = record r {
      work = record r.work {
        copy_work_list = set_all r.work.copy_work_list;
        target_list = set_all r.work.target_list;
        required_edge = b.empty;
      };
    }

    -- A round that returns has processed the components, and then constraints one after another. Each copy
    -- edge for which the callback has been called in these steps, between nodes of the graph that results,
    -- to a node that the target list had room for, is let through by `shouldProcessCopy` with the work
    -- lists that the round leaves, whatever the list of changed nodes is then.
    pub run_round-should_process_copy :
        (fuel : ℕ) (components : List (ℕ × List ℕ)) (r r' : Run b hash)
        → run_round b hash model fuel components r ≡ done r'
        → (r1 : Run b hash) × (r2 : Run b hash) × (calls : Calls b) × (process_components b hash
              components r
            ≡ done r1)
          × Steps (all_handled r1) calls r2
          × (r'.solver ≡ r2.solver)
          × ((i j : ℕ) (ls : List Bool)
              → called i j calls ≡ true
              → j < length r1.work.target_list
              → i < length r'.solver.graph.nodes
              → j < length r'.solver.graph.nodes
              → i < length ls
              → should_process_copy b hash i j (record r'.work { ls_work_list = ls }) ≡ done true)
    unfolding run_round
    run_round-should_process_copy fuel components r r' h =
        let (r1, e1, k1) = bind_inverse (process_components b hash components r) _ r' h in
        let (r2, e2, k2) =
          bind_inverse (process_unset b hash model fuel 0 (all_handled r1)) _ r' k1 in
        let (calls, steps) = process_unset-Goes fuel 0 (all_handled r1) r2 e2 in
        let last = sym (done_injective k2) in
        let solver : r'.solver ≡ r2.solver = ap (λ (x : Run b hash). x.solver) last in
        let size : length r'.solver.graph.nodes ≡ length r2.solver.graph.nodes =
          ap (λ (x : SolverState b). length x.graph.nodes) solver in
        (
          r1,
          r2,
          calls,
          e1,
          steps,
          solver,
          λ i j ls here below at_i at_j in_ls.
              should_process_copy-IsPending b hash laws i j (length r2.solver.graph.nodes) ls
                r2.work (record r'.work { ls_work_list = ls })
                (Steps-IsPending i j steps here (omega (arith, length-set_all r1.work.target_list)))
                (omega (arith, size)) (omega (arith, size)) in_ls refl
                (ap (λ (x : Run b hash). x.work.copy_work_list) last)
                (ap (λ (x : Run b hash). x.work.target_list) last)
                (ap (λ (x : Run b hash). x.work.required_edge) last),
        )
