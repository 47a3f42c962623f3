-- ===== src/ConstraintGraph.antt =====
-- The constraint graph of the pointer analysis, in src/PointerAnalysis/Graph/GraphBase/GraphBase.h and
-- src/PointerAnalysis/Graph/ConstraintGraph (CGNodeBase.h, CGObjNode.h, CGPtrNode.h,
-- ConstraintGraph.h). A pointer to a node is the node's id.
pub mod Edges
pub mod Collapse
pub mod Inverse
pub mod Supers
use open_race.Prelude.{
  ℕ, zero, suc, ◌+◌, ◌==◌, if◌then◌else◌, Bool, true, false, not, ◌&&◌, ◌||◌, Option, none, some,
  List, [], ◌∷◌, ◌++◌, length, get_elem?,
}
use open_race.Trace.Build.States.{Built, done, fails, out_of_fuel, ◌>>=◌, or_fails, contains}
use open_race.PointsTo.{BitVectors, modify}
use open_race.PointsTo.BitVector.{insert, on_new_node_creation}

pub data Constraints : Type 0 where
  load store copy addr_of offset special : Constraints

unfoldable pub index : Constraints → ℕ
index load = 0
index store = 1
index copy = 2
index addr_of = 3
index offset = 4
index special = 5

unfoldable pub same_kind : Constraints → Constraints → Bool
unfolding index
same_kind k l = index k == index l

-- The classes of nodes: a pointer, with whether it is anonymous, an object, with its id, and a
-- collapsed component.
pub data CgNodeKind : Type 0 where
  ptr_node : Bool → CgNodeKind
  obj_node : ℕ → CgNodeKind
  super_node_kind : CgNodeKind

-- `insert` of the calls at a function pointer
unfoldable pub add_calls : List ℕ → List ℕ → List ℕ
add_calls [] calls = calls
add_calls (call ∷ more) calls =
    if contains call calls then add_calls more calls else add_calls more (calls ++ call ∷ [])

module _ (b : BitVectors) where
  pub record CgNode : Type 0 where
    pub kind : CgNodeKind
    pub super_node : Option ℕ
    pub child_nodes : b.Bits
    pub is_immutable : Bool
    pub succ_cons : Constraints → b.Bits
    pub pred_cons : Constraints → b.Bits
    pub indirect_nodes : List ℕ

  -- `reported` holds the calls of a registered callback, the last one first.
  pub record ConstraintGraph : Type 0 where
    pub nodes : List CgNode
    pub obj_vec : List ℕ
    pub call_back : Bool
    pub reported : List (ℕ × ℕ × Constraints)

  unfoldable pub new_node : CgNodeKind → CgNode
  new_node kind = record {
    kind = kind;
    super_node = none;
    child_nodes = b.empty;
    is_immutable = false;
    succ_cons = λ l. b.empty;
    pred_cons = λ l. b.empty;
    indirect_nodes = [];
  }

  -- `addNewNode`, with the id of the node
  unfoldable pub add_new_node : CgNodeKind → ConstraintGraph → ℕ × ConstraintGraph
  unfolding new_node
  add_new_node kind g = (length g.nodes, record g { nodes = g.nodes ++ new_node kind ∷ [] })

  unfoldable pub get_node : ConstraintGraph → ℕ → Built CgNode
  get_node g id = or_fails (get_elem? g.nodes id)

  unfoldable pub get_object_node : ConstraintGraph → ℕ → Built ℕ
  get_object_node g obj_id = or_fails (get_elem? g.obj_vec obj_id)

  unfoldable pub update_node : ℕ → (CgNode → CgNode) → ConstraintGraph → ConstraintGraph
  unfolding modify
  update_node id f g = record g { nodes = modify id f g.nodes }

  unfoldable pub set_immutable : ℕ → ConstraintGraph → ConstraintGraph
  unfolding update_node
  set_immutable id = update_node id (λ (n : CgNode). record n { is_immutable = true })

  unfoldable pub set_super_node : ℕ → ℕ → ConstraintGraph → ConstraintGraph
  unfolding update_node
  set_super_node id super = update_node id (λ (n : CgNode). record n { super_node = some super })

  -- How many nodes have a super node.
  unfoldable pub merged : List CgNode → ℕ
  merged [] = 0
  merged (n ∷ ns) = elim n.super_node [ none ↦ merged ns | some m ↦ suc (merged ns) ]

  -- The loop of `getSuperNode`, on fuel.
  unfoldable pub follow_super : ℕ → List CgNode → ℕ → Built ℕ
  follow_super zero ns id = out_of_fuel
  follow_super (suc fuel) ns id = elim (get_elem? ns id) [
    | none ↦ fails
    | some n ↦ elim n.super_node [ none ↦ done id | some m ↦ follow_super fuel ns m ]
  ]

  unfoldable pub get_super_node : ConstraintGraph → ℕ → Built ℕ
  unfolding follow_super merged
  get_super_node g id = follow_super (suc (merged g.nodes)) g.nodes id

  unfoldable pub set_cons :
      Constraints → (b.Bits → b.Bits) → (Constraints → b.Bits) → Constraints → b.Bits
  unfolding same_kind
  set_cons k f cons l = if same_kind k l then f (cons l) else cons l

  unfoldable pub add_succ : ℕ → Constraints → ℕ → ConstraintGraph → ConstraintGraph
  unfolding update_node set_cons
  add_succ id k target =
      update_node id
        λ (n : CgNode). record n { succ_cons = set_cons k (λ v. b.set v target) n.succ_cons }

  unfoldable pub add_pred : ℕ → Constraints → ℕ → ConstraintGraph → ConstraintGraph
  unfolding update_node set_cons
  add_pred id k source =
      update_node id
        λ (n : CgNode). record n { pred_cons = set_cons k (λ v. b.set v source) n.pred_cons }

  -- Whether an edge is among the successors of its source, and among the predecessors of its target.
  unfoldable pub test_succ : List CgNode → ℕ → Constraints → ℕ → Bool
  test_succ ns id k target = elim (get_elem? ns id) [
    | none ↦ false
    | some n ↦ b.test (n.succ_cons k) target
  ]

  unfoldable pub test_pred : List CgNode → ℕ → Constraints → ℕ → Bool
  test_pred ns id k source = elim (get_elem? ns id) [
    | none ↦ false
    | some n ↦ b.test (n.pred_cons k) source
  ]

  -- The end of `insertConstraint`: both sides are set, and the results must agree.
  unfoldable pub link : ℕ → Constraints → ℕ → ConstraintGraph → Built (Bool × ConstraintGraph)
  unfolding test_succ test_pred add_succ add_pred
  link src k dst g =
      let r1 = not (test_succ g.nodes src k dst) in
      let g' = add_succ src k dst g in
      let r2 = not (test_pred g'.nodes dst k src) in
      if (r1 && r2) || (not r1 && not r2) then done (r1, add_pred dst k src g') else fails

  unfoldable pub insert_constraint :
      ℕ → ℕ → Constraints → ConstraintGraph → Built (Bool × ConstraintGraph)
  unfolding get_node get_super_node link same_kind
  insert_constraint self node k g = do
    n ← get_node g node
    if not (same_kind k special) && n.is_immutable then done (false, g) else do
      src ← get_super_node g self
      dst ← get_super_node g node
      if src == dst && same_kind k copy then done (false, g) else link src k dst g

  -- The call of the callback for a new edge.
  unfoldable pub report : ℕ → ℕ → Constraints → ConstraintGraph → ConstraintGraph
  report src dst k g = if g.call_back then record g { reported = (src, dst, k) ∷ g.reported } else g

  unfoldable pub is_obj : CgNodeKind → Bool
  is_obj (obj_node object) = true
  is_obj (ptr_node anonymous) = false
  is_obj super_node_kind = false

  unfoldable pub is_anon : CgNodeKind → Bool
  is_anon (ptr_node anonymous) = anonymous
  is_anon (obj_node object) = false
  is_anon super_node_kind = false

  unfoldable pub has_super_node : CgNode → Bool
  has_super_node n = elim n.super_node [ none ↦ false | some m ↦ true ]

  unfoldable pub assert : Bool → Built (Unit {0})
  assert true = done tt
  assert false = fails

  -- `addConstraints` on the branch of `addr_of`: a copy edge from the anonymous node.
  unfoldable pub add_addr_of : ℕ → ℕ → ConstraintGraph → Built (Bool × ConstraintGraph)
  add_addr_of src dst g = do
    object ← get_node g src
    _ ← assert (is_obj object.kind)
    anon ← get_node g (src + 1)
    _ ← assert (not (has_super_node anon) && is_anon anon.kind)
    (new_edge, h) ← insert_constraint (src + 1) dst copy g
    if not new_edge
        then done (false, h)
        else do target ← get_super_node h dst; done (true, report (src + 1) target copy h)

  unfoldable pub add_edge : ℕ → ℕ → Constraints → ConstraintGraph → Built (Bool × ConstraintGraph)
  add_edge src dst k g = do
    (new_edge, h) ← insert_constraint src dst k g
    if not new_edge then done (false, h) else do
      source ← get_super_node h src
      target ← get_super_node h dst
      done (true, report source target k h)

  unfoldable pub add_constraints :
      ℕ → ℕ → Constraints → ConstraintGraph → Built (Bool × ConstraintGraph)
  unfolding same_kind
  add_constraints src dst k g =
      if src == dst && same_kind k copy
      then done (false, g)
      else if same_kind k addr_of
      then add_addr_of src dst g
      else add_edge src dst k g

  -- `addCGNode` of a pointer node
  unfoldable pub add_ptr_node :
      Bool → ConstraintGraph → List b.Bits → Built (ℕ × ConstraintGraph × List b.Bits)
  unfolding add_new_node
  add_ptr_node anonymous g s = do
    let (id, h) = add_new_node (ptr_node anonymous) g
    t ← or_fails (on_new_node_creation b id s)
    done (id, h, t)

  -- `addCGNode` of an object node, with its anonymous node
  unfoldable pub add_obj_node :
      ℕ → ConstraintGraph → List b.Bits → Built (ℕ × ConstraintGraph × List b.Bits)
  unfolding add_new_node add_ptr_node insert_constraint assert
  add_obj_node object g s = do
    let (id, g1) = add_new_node (obj_node object) g
    s1 ← or_fails (on_new_node_creation b id s)
    (anon, g2, s2) ← add_ptr_node true g1 s1
    (_, g3) ← insert_constraint id anon addr_of g2
    (_, s3) ← or_fails (insert b anon object s2)
    _ ← assert (length g3.obj_vec == object)
    done (id, record g3 { obj_vec = g3.obj_vec ++ id ∷ [] }, s3)
