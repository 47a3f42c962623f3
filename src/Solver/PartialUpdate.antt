-- ===== src/Solver/PartialUpdate.antt =====
-- The solver of src/PointerAnalysis/Solver/PartialUpdateSolver.h. A bit of a work list is set where the
-- node is handled. The hash of a pair of pointers is a parameter.
pub mod Recorded
pub mod Rounds
use open_race.Prelude.{
  ℕ, zero, suc, ◌%◌, ◌==◌, ltb, if◌then◌else◌, Bool, true, false, not, ◌&&◌, Option, none, some,
  List, [], ◌∷◌, ◌++◌, length, get_elem?,
}
use open_race.Trace.Build.States.{Built, done, fails, out_of_fuel, ◌>>=◌, or_fails}
use open_race.PointsTo.{BitVectors, modify}
use open_race.PointsTo.BitVector.{clear}
use open_race.ConstraintGraph.{
  Constraints, load, store, copy, addr_of, offset, special, CgNode, ConstraintGraph, get_node,
  set_cons,
}
use open_race.ConstraintGraph.Collapse.{collapse_scc_to}
use open_race.Solver.{
  SolverState, Calls, LangModel, is_nil, process_copy, process_load, process_store, process_offset,
  process_special,
}

abbrev pub hash_edge_limit : ℕ
hash_edge_limit = 1000032953

-- `resize` of a bit vector, to a size that is not smaller: the list is the rounds left.
unfoldable pub resize : ℕ → Bool → List Bool → List Bool
resize zero value bits = []
resize (suc n) value [] = value ∷ resize n value []
resize (suc n) value (bit ∷ bits) = bit ∷ resize n value bits

unfoldable pub set_all : List Bool → List Bool
set_all [] = []
set_all (bit ∷ bits) = true ∷ set_all bits

unfoldable pub all : List Bool → Bool
all [] = true
all (bit ∷ bits) = bit && all bits

-- `find_next_unset` after a number of bits
unfoldable pub find_unset : ℕ → ℕ → List Bool → Option ℕ
find_unset from at [] = none
find_unset zero at (bit ∷ bits) = if bit then find_unset zero (suc at) bits else some at
find_unset (suc from) at (bit ∷ bits) = find_unset from (suc at) bits

module _ (b : BitVectors) (hash : ℕ → ℕ → ℕ) where
  pub record Work : Type 0 where
    pub copy_work_list : List Bool
    pub ls_work_list : List Bool
    pub target_list : List Bool
    pub required_edge : b.Bits

  unfoldable pub hash_edge : ℕ → ℕ → ℕ
  hash_edge src dst = hash src dst % hash_edge_limit

  unfoldable pub reset_if_inside : ℕ → List Bool → List Bool
  unfolding modify
  reset_if_inside id bits = if ltb id (length bits) then modify id (λ bit. false) bits else bits

  unfoldable pub record_copy_edge : ℕ → ℕ → Work → Work
  unfolding hash_edge reset_if_inside
  record_copy_edge src dst w = record w {
    copy_work_list = reset_if_inside src w.copy_work_list;
    target_list = reset_if_inside dst w.target_list;
    required_edge = b.set w.required_edge (hash_edge src dst);
  }

  unfoldable pub record_all : Calls b → Work → Work
  unfolding record_copy_edge
  record_all [] w = w
  record_all ((src, dst) ∷ calls) w = record_all calls (record_copy_edge src dst w)

  -- A bit outside the list is an assertion of the bit vector that fails.
  unfoldable pub should_process_copy : ℕ → ℕ → Work → Built Bool
  unfolding hash_edge
  should_process_copy src dst w = do
    src_unchanged ← or_fails (get_elem? w.ls_work_list src)
    if not src_unchanged then done true else do
      not_target ← or_fails (get_elem? w.target_list dst)
      handled ← or_fails (get_elem? w.copy_work_list src)
      if not not_target && not handled
          then done (b.test w.required_edge (hash_edge src dst))
          else done false

  -- The state with the work lists
  pub record Run : Type 0 where
    pub solver : SolverState b
    pub work : Work

  unfoldable pub reset_bit : ℕ → List Bool → Built (List Bool)
  reset_bit id bits = if ltb id (length bits) then done (modify id (λ bit. false) bits) else fails

  -- The loop over the copy edges of a node that is not in a component with others.
  unfoldable pub process_copies : ℕ → List ℕ → Run → Built Run
  process_copies node [] r = done r
  process_copies node (dst ∷ dsts) r = do
    should ← should_process_copy node dst r.work
    if not should then process_copies node dsts r else do
      (changed, solver) ← process_copy b node dst r.solver
      if not changed then process_copies node dsts (record r { solver = solver }) else do
        bits ← reset_bit dst r.work.ls_work_list
        process_copies node dsts
            (record r { solver = solver; work = record r.work { ls_work_list = bits } })

  -- The first loop of `processCopySCC`
  unfoldable pub merge_sets : List ℕ → ℕ → Run → Built Run
  merge_sets [] super r = done r
  merge_sets (node ∷ nodes) super r = do
    not_target ← or_fails (get_elem? r.work.target_list node)
    targets ← (if not_target then done r.work.target_list else reset_bit super r.work.target_list)
    (_, solver) ← process_copy b node super r.solver
    pts ← or_fails (clear b node solver.pts)
    merge_sets nodes super (record r {
      solver = record solver { pts = pts };
      work = record r.work { target_list = targets };
    })

  -- The last loop of `processCopySCC`
  unfoldable pub copy_to_all : ℕ → List ℕ → Run → Built Run
  copy_to_all super [] r = done r
  copy_to_all super (dst ∷ dsts) r = do
    (changed, solver) ← process_copy b super dst r.solver
    bits ← (if changed then reset_bit dst r.work.ls_work_list else done r.work.ls_work_list)
    copy_to_all super dsts
        (record r { solver = solver; work = record r.work { ls_work_list = bits } })

  -- `processCopySCC` of the front node and the others
  unfoldable pub process_copy_scc : ℕ → List ℕ → Run → Built Run
  process_copy_scc super nodes r = do
    r1 ← merge_sets nodes super r
    bits ← reset_bit super r1.work.ls_work_list
    g ← collapse_scc_to b (super ∷ nodes) super r1.solver.graph
    n ← get_node b g super
    let s = record r1.solver { graph = g }
    let s' =
        if is_nil n.indirect_nodes
        then s
        else record s { updated_fun_ptrs = b.set s.updated_fun_ptrs super }
    copy_to_all super (b.elements (n.succ_cons copy))
        (record r1 { solver = s'; work = record r1.work { ls_work_list = bits } })

  -- The components in the order of the stack.
  unfoldable pub process_components : List (ℕ × List ℕ) → Run → Built Run
  process_components [] r = done r
  process_components ((front, others) ∷ components) r =
      if is_nil others
      then (do
        n ← get_node b r.solver.graph front
        r1 ← process_copies front (b.elements (n.succ_cons copy)) r
        process_components components r1)
      else (do r1 ← process_copy_scc front others r; process_components components r1)

  module _ (model : LangModel b) where
    -- The loops over the edges of a node in the second part of a round; the callback records the edges.
    unfoldable pub process_stores : List ℕ → ℕ → Run → Built Run
    process_stores [] node r = done r
    process_stores (src ∷ srcs) node r = do
      (_, calls, g) ← process_store b src node r.solver.pts r.solver.graph
      process_stores srcs node
          (record { solver = record r.solver { graph = g }; work = record_all calls r.work })

    unfoldable pub process_loads : ℕ → List ℕ → Run → Built Run
    process_loads node [] r = done r
    process_loads node (dst ∷ dsts) r = do
      (_, calls, g) ← process_load b node dst r.solver.pts r.solver.graph
      process_loads node dsts
          (record { solver = record r.solver { graph = g }; work = record_all calls r.work })

    unfoldable pub process_specials : ℕ → List ℕ → Run → Built Run
    process_specials node [] r = done r
    process_specials node (dst ∷ dsts) r = do
      (_, calls, g) ← process_special b model node dst r.solver.pts r.solver.graph
      process_specials node dsts
          (record { solver = record r.solver { graph = g }; work = record_all calls r.work })

    -- `getAddrTakenNode` of the object's node is the node after it.
    unfoldable pub addr_taken : Calls b → Calls b
    addr_taken [] = []
    addr_taken ((field, ptr) ∷ calls) = (suc field, ptr) ∷ addr_taken calls

    unfoldable pub process_offsets : ℕ → List ℕ → Run → Built Run
    process_offsets node [] r = done r
    process_offsets node (dst ∷ dsts) r = do
      (_, calls, solver) ← process_offset b model node dst r.solver
      process_offsets node dsts
          (record { solver = solver; work = record_all (addr_taken calls) r.work })

    unfoldable pub process_node : ℕ → Run → Built Run
    process_node id r = do
      n ← get_node b r.solver.graph id
      r1 ← process_stores (b.elements (n.pred_cons store)) id r
      n1 ← get_node b r1.solver.graph id
      r2 ← process_loads id (b.elements (n1.succ_cons load)) r1
      n2 ← get_node b r2.solver.graph id
      r3 ← process_specials id (b.elements (n2.succ_cons special)) r2
      n3 ← get_node b r3.solver.graph id
      process_offsets id (b.elements (n3.succ_cons offset)) r3

    -- The loop over the unset bits, on fuel.
    unfoldable pub process_unset : ℕ → ℕ → Run → Built Run
    process_unset zero from r = out_of_fuel
    process_unset (suc fuel) from r = elim (find_unset from 0 r.work.ls_work_list) [
      | none ↦ done r
      | some id ↦ (do r1 ← process_node id r; process_unset fuel (suc id) r1)
    ]

    -- A round of `runSolver`, for the components of its stack.
    unfoldable pub run_round : ℕ → List (ℕ × List ℕ) → Run → Built Run
    run_round fuel components r = do
      r1 ← process_components components r
      let w1 = record r1.work {
        copy_work_list = set_all r1.work.copy_work_list;
        target_list = set_all r1.work.target_list;
        required_edge = b.empty;
      }
      r2 ← process_unset fuel 0 (record r1 { work = w1 })
      let size = length r2.solver.graph.nodes
      done (record r2 {
        work = record r2.work {
          ls_work_list = set_all (resize size true r2.work.ls_work_list);
          copy_work_list = resize size false r2.work.copy_work_list;
          target_list = resize size true r2.work.target_list;
        };
      })

    -- `onNewConstraint`, for a graph that had a number of nodes before.
    unfoldable pub on_new_constraint : ℕ → ℕ → ℕ → Constraints → Run → Built Run
    on_new_constraint node_num src dst copy r =
        if ltb src node_num
        then done (record r { work = record_copy_edge src dst r.work })
        else done r
    on_new_constraint node_num src dst offset r =
        if ltb src node_num then process_offsets src (dst ∷ []) r else done r
    on_new_constraint node_num src dst load r =
        if ltb src node_num then process_loads src (dst ∷ []) r else done r
    on_new_constraint node_num src dst store r =
        if ltb dst node_num then process_stores (src ∷ []) dst r else done r
    on_new_constraint node_num src dst addr_of r = done r
    on_new_constraint node_num src dst special r = done r
