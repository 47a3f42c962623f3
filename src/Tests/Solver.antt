-- ===== src/Tests/Solver.antt =====
-- The theorems on the constraint graph and the solver at concrete graphs.
use open_race.Prelude.{
  ℕ, zero, suc, ◌+◌, ◌<◌, ◌==◌, if◌then◌else◌, Bool, true, false, not, ◌&&◌, none, some, List, [],
  ◌∷◌, ◌≡◌, ◌*◌, refl, length, sym, ◌∙◌, arith,
}
use open_race.Trace.Build.States.{Built, done, contains}
use open_race.ConstraintGraph.{
  Constraints, load, store, copy, index, same_kind, CgNodeKind, ptr_node, obj_node, CgNode,
  ConstraintGraph, test_succ, test_pred, get_super_node, insert_constraint, set_super_node,
  get_node, get_object_node, follow_super, add_constraints, add_edge, has_super_node, assert,
  report,
}
use open_race.ConstraintGraph.Edges.{super_at}
use open_race.ConstraintGraph.Inverse.{
  IsInverse, Keeps, Adds, is_left_out, insert_constraint-IsInverse,
}
use open_race.ConstraintGraph.Supers.{HasSupers, set_super_node-HasSupers}
use open_race.ConstraintGraph.Collapse.{collapse_scc_to}
use open_race.ConstraintGraph.Collapse.Quotient.{WellFormed}
use open_race.ConstraintGraph.Collapse.Whole.{IsQuotient, collapse_scc_to-IsQuotient}
use open_race.ConstraintGraph.Collapse.Allowed.{immutable_at}
use open_race.Solver.{LangModel, process_load, load_objects, assert_no_super}
use open_race.Solver.Copies.{Copies, called}
use open_race.Solver.Objects.{Resolved, into, process_load-Copies}
use open_race.Solver.PartialUpdate.{
  Work, Run, run_round, process_components, set_all, process_unset, find_unset, process_node,
  process_stores, process_loads, process_specials, process_offsets, record_all, record_copy_edge,
  reset_if_inside, resize, should_process_copy,
}
use open_race.Solver.PartialUpdate.Rounds.{Steps, all_handled, run_round-should_process_copy}
use open_race.PointsTo.{modify}
use open_race.Tests.PointsTo.{lists, lists-Laws}

-- A node with the targets of its load edges and of its copy edges, and the sources of them.
abbrev node : CgNodeKind → List ℕ → List ℕ → List ℕ → List ℕ → CgNode lists
node kind loads copies loaded copied = record {
  kind = kind;
  super_node = none;
  child_nodes = [];
  is_immutable = false;
  succ_cons = λ l. if same_kind l load then loads else if same_kind l copy then copies else [];
  pred_cons = λ l. if same_kind l load then loaded else if same_kind l copy then copied else [];
  indirect_nodes = [];
}

-- Node 0 is loaded into node 1, nodes 1 and 2 are copied to one another, and node 3 is an object.
abbrev sample : ConstraintGraph lists
sample = record {
  nodes =
      node (ptr_node false) (1 ∷ []) [] [] []
      ∷ node (ptr_node false) [] (2 ∷ []) (0 ∷ []) (2 ∷ [])
      ∷ node (ptr_node false) [] (1 ∷ []) [] (1 ∷ [])
      ∷ node (obj_node 0) [] [] [] []
      ∷ [];
  obj_vec = 3 ∷ [];
  call_back = false;
  reported = [];
}

sample-inverse :
    (i : ℕ) (k : Constraints) (j : ℕ)
    → test_succ lists sample.nodes i k j ≡ test_pred lists sample.nodes j k i
unfolding test_succ test_pred same_kind index contains
sample-inverse zero k zero = ground arith
sample-inverse zero k (suc zero) = ground arith
sample-inverse zero k (suc (suc zero)) = ground arith
sample-inverse zero k (suc (suc (suc zero))) = ground arith
sample-inverse zero k (suc (suc (suc (suc j)))) = ground arith
sample-inverse (suc zero) k zero = ground arith
sample-inverse (suc zero) k (suc zero) = ground arith
sample-inverse (suc zero) k (suc (suc zero)) = ground arith
sample-inverse (suc zero) k (suc (suc (suc zero))) = ground arith
sample-inverse (suc zero) k (suc (suc (suc (suc j)))) = ground arith
sample-inverse (suc (suc zero)) k zero = ground arith
sample-inverse (suc (suc zero)) k (suc zero) = ground arith
sample-inverse (suc (suc zero)) k (suc (suc zero)) = ground arith
sample-inverse (suc (suc zero)) k (suc (suc (suc zero))) = ground arith
sample-inverse (suc (suc zero)) k (suc (suc (suc (suc j)))) = ground arith
sample-inverse (suc (suc (suc zero))) k zero = ground arith
sample-inverse (suc (suc (suc zero))) k (suc zero) = ground arith
sample-inverse (suc (suc (suc zero))) k (suc (suc zero)) = ground arith
sample-inverse (suc (suc (suc zero))) k (suc (suc (suc zero))) = ground arith
sample-inverse (suc (suc (suc zero))) k (suc (suc (suc (suc j)))) = ground arith
sample-inverse (suc (suc (suc (suc i)))) k zero = ground arith
sample-inverse (suc (suc (suc (suc i)))) k (suc zero) = ground arith
sample-inverse (suc (suc (suc (suc i)))) k (suc (suc zero)) = ground arith
sample-inverse (suc (suc (suc (suc i)))) k (suc (suc (suc zero))) = ground arith
sample-inverse (suc (suc (suc (suc i)))) k (suc (suc (suc (suc j)))) = ground arith

sample-HasSupers : HasSupers lists sample
unfolding get_super_node
sample-HasSupers = record { find = find_root }
  where
    find_root :
        (i : ℕ)
        → i < 4
        → (r : ℕ) × (get_super_node lists sample i ≡ done r)
          × (super_at lists sample.nodes r ≡ some none)
    find_root zero h = (0, refl, refl)
    find_root (suc zero) h = (1, refl, refl)
    find_root (suc (suc zero)) h = (2, refl, refl)
    find_root (suc (suc (suc zero))) h = (3, refl, refl)
    find_root (suc (suc (suc (suc i)))) h = absurd (omega (arith, h))

no_edge_from :
    (i : ℕ) (k : Constraints) (j : ℕ)
    → test_succ lists sample.nodes i k j ≡ true
    → super_at lists sample.nodes i ≡ some none
unfolding test_succ
no_edge_from zero k j h = refl
no_edge_from (suc zero) k j h = refl
no_edge_from (suc (suc zero)) k j h = refl
no_edge_from (suc (suc (suc zero))) k j h = refl
no_edge_from (suc (suc (suc (suc i)))) k j h = absurd (ground arith)

no_edge_to :
    (i : ℕ) (k : Constraints) (j : ℕ)
    → test_pred lists sample.nodes j k i ≡ true
    → super_at lists sample.nodes j ≡ some none
unfolding test_pred
no_edge_to i k zero h = refl
no_edge_to i k (suc zero) h = refl
no_edge_to i k (suc (suc zero)) h = refl
no_edge_to i k (suc (suc (suc zero))) h = refl
no_edge_to i k (suc (suc (suc (suc j)))) h = absurd (ground arith)

sample-WellFormed : WellFormed lists lists-Laws sample
sample-WellFormed = record {
  is_inverse = record { inverse = sample-inverse };
  has_supers = sample-HasSupers;
  rooted = λ i k j h. (no_edge_from i k j h, no_edge_to i k j (sym (sample-inverse i k j) ∙ h));
}

-- A store edge from node 0 to node 2.
insert_constraint-IsInverse_example :
    (h : ConstraintGraph lists) × (insert_constraint lists 0 2 store sample
      ≡ done (
        not (is_left_out lists (node (ptr_node false) [] (1 ∷ []) [] (1 ∷ [])) 0 store 2)
            && not (test_succ lists sample.nodes 0 store 2),
        h,
      ))
    × IsInverse lists h
    × Keeps lists sample h
    × Adds lists
        (not (is_left_out lists (node (ptr_node false) [] (1 ∷ []) [] (1 ∷ [])) 0 store 2))
        0
        store
        2
        sample
        h
unfolding get_super_node
insert_constraint-IsInverse_example =
    insert_constraint-IsInverse lists lists-Laws 0 2 store sample
      (node (ptr_node false) [] (1 ∷ []) [] (1 ∷ [])) 0 2 sample-WellFormed.is_inverse refl refl
      refl (omega arith) (omega arith)

set_super_node-HasSupers_example :
    HasSupers lists (set_super_node lists 2 1 sample)
    × ((i r : ℕ)
        → get_super_node lists sample i ≡ done r
        → get_super_node lists (set_super_node lists 2 1 sample) i ≡ done (if r == 2 then 1 else r))
set_super_node-HasSupers_example =
    set_super_node-HasSupers lists 2 1 sample sample-HasSupers refl refl
      (λ e. absurd (omega (arith, e)))

component_roots :
    (i : ℕ) → contains i (1 ∷ 2 ∷ []) ≡ true → super_at lists sample.nodes i ≡ some none
unfolding contains
component_roots zero h = refl
component_roots (suc zero) h = refl
component_roots (suc (suc zero)) h = refl
component_roots (suc (suc (suc i))) h = absurd (ground arith)

component_mutable :
    (i : ℕ) → contains i (1 ∷ 2 ∷ []) ≡ true → immutable_at lists sample.nodes i ≡ false
unfolding contains
component_mutable zero h = refl
component_mutable (suc zero) h = refl
component_mutable (suc (suc zero)) h = refl
component_mutable (suc (suc (suc i))) h = absurd (ground arith)

abbrev sample_pts : List (List ℕ)
sample_pts = (0 ∷ []) ∷ [] ∷ [] ∷ [] ∷ []

abbrev all_set : List Bool
all_set = true ∷ true ∷ true ∷ true ∷ []

-- Node 2 is collapsed to node 1.
collapse_scc_to-IsQuotient_example :
    (h : ConstraintGraph lists) × (collapse_scc_to lists (1 ∷ 2 ∷ []) 1 sample ≡ done h)
    × IsQuotient lists lists-Laws (1 ∷ 2 ∷ []) 1 sample h
unfolding contains
collapse_scc_to-IsQuotient_example =
    collapse_scc_to-IsQuotient lists lists-Laws (1 ∷ 2 ∷ []) 1 sample sample-WellFormed refl
      (refl, (refl, tt)) component_roots component_mutable

-- Node 0 points to the object, so that node 3 is copied to node 1.
process_load-Copies_example :
    (rs : List ℕ) × (changed : Bool) × (calls : List (ℕ × ℕ)) × (h : ConstraintGraph lists)
    × (process_load lists 0 1 sample_pts sample ≡ done (changed, calls, h))
    × Resolved lists lists-Laws (0 ∷ []) rs sample
    × Copies lists lists-Laws (into lists lists-Laws 1 rs) sample changed calls h
process_load-Copies_example =
    process_load-Copies lists lists-Laws 0 1 sample_pts sample (0 ∷ []) sample-WellFormed refl refl
      refl ((3, refl, omega arith), tt)

abbrev sample_hash : ℕ → ℕ → ℕ
sample_hash src dst = src * 10 + dst

abbrev sample_work : Work lists sample_hash
sample_work = record {
  copy_work_list = all_set;
  ls_work_list = false ∷ true ∷ true ∷ true ∷ [];
  target_list = all_set;
  required_edge = [];
}

-- No object has fields, and none is special.
abbrev sample_model : LangModel lists
sample_model = record {
  index_object = λ node ptr g pts. done (none, g, pts);
  special_object = λ object src dst g. done (false, g);
}

abbrev before_round : Run lists sample_hash
before_round = record {
  solver = record {
    graph = sample;
    pts = sample_pts;
    updated_fun_ptrs = [];
    handled_geps = λ ptr. [];
  };
  work = sample_work;
}

abbrev or_before : Built (Run lists sample_hash) → Run lists sample_hash
or_before run = elim run [ done r ↦ r | _ ↦ before_round ]

abbrev after_round : Run lists sample_hash
after_round = or_before (run_round lists sample_hash sample_model 5 [] before_round)

round-ends : run_round lists sample_hash sample_model 5 [] before_round ≡ done after_round
unfolding run_round process_components set_all process_unset find_unset process_node get_node
    process_stores process_loads process_specials process_offsets process_load load_objects
    get_object_node get_super_node follow_super add_constraints add_edge insert_constraint
    record_all record_copy_edge reset_if_inside modify resize same_kind index assert_no_super
    has_super_node assert report contains
round-ends = refl

run_round-should_process_copy_example :
    (r1 : Run lists sample_hash) × (r2 : Run lists sample_hash) × (calls : List (ℕ × ℕ))
    × (process_components lists sample_hash [] before_round ≡ done r1)
    × Steps lists sample_hash sample_model
        (all_handled lists sample_hash sample_model lists-Laws r1)
        calls
        r2
    × (after_round.solver ≡ r2.solver)
    × ((i j : ℕ) (ls : List Bool)
        → called i j calls ≡ true
        → j < length r1.work.target_list
        → i < length after_round.solver.graph.nodes
        → j < length after_round.solver.graph.nodes
        → i < length ls
        → should_process_copy lists sample_hash i j (record after_round.work { ls_work_list = ls })
          ≡ done true)
run_round-should_process_copy_example =
    run_round-should_process_copy lists sample_hash sample_model lists-Laws 5 [] before_round
      after_round round-ends
