-- ===== src/Solver.antt =====
-- The operations of the solvers of the pointer analysis, in
-- src/PointerAnalysis/Solver/SolverBase.h.
pub mod Copies
pub mod Objects
pub mod PartialUpdate
use open_race.Prelude.{
  ℕ, ◌==◌, if◌then◌else◌, Bool, true, false, not, ◌||◌, Option, none, some, List, [], ◌∷◌,
  get_elem?,
}
use open_race.Trace.Build.States.{Built, done, fails, ◌>>=◌, or_fails}
use open_race.PointsTo.{BitVectors}
use open_race.PointsTo.BitVector.{insert, union_with, has}
use open_race.ConstraintGraph.{
  Constraints, copy, addr_of, same_kind, CgNodeKind, obj_node, ptr_node, super_node_kind,
  ConstraintGraph, get_node, get_object_node, get_super_node, add_constraints, has_super_node,
  assert,
}

unfoldable pub object_id : CgNodeKind → Built ℕ
object_id (obj_node object) = done object
object_id (ptr_node anonymous) = fails
object_id super_node_kind = fails

unfoldable pub is_nil {ℓ} : {A : Type ℓ} → List A → Bool
is_nil [] = true
is_nil (x ∷ xs) = false

module _ (b : BitVectors) where
  -- The graph, the points-to sets, `updatedFunPtrs` and `handledGEPMap`.
  pub record SolverState : Type 0 where
    pub graph : ConstraintGraph b
    pub pts : List b.Bits
    pub updated_fun_ptrs : b.Bits
    pub handled_geps : ℕ → b.Bits

  -- The edges for which a callback is called, in order.
  abbrev pub Calls : Type 0
  Calls = List (ℕ × ℕ)

  unfoldable pub assert_no_super : ℕ → ConstraintGraph b → Built (Unit {0})
  unfolding get_node has_super_node assert
  assert_no_super id g = do n ← get_node b g id; assert b (not (has_super_node b n))

  -- The assertion inserts the id of the object's node.
  unfoldable pub process_addr_of : ℕ → ℕ → SolverState → Built (Bool × SolverState)
  unfolding insert assert
  process_addr_of src dst s = do
    (is_new, pts) ← or_fails (insert b dst src s.pts)
    _ ← assert b (not is_new)
    done (false, record s { pts = pts })

  unfoldable pub process_copy : ℕ → ℕ → SolverState → Built (Bool × SolverState)
  unfolding union_with get_node is_nil
  process_copy src dst s = do
    (changed, pts) ← or_fails (union_with b dst src s.pts)
    n ← get_node b s.graph dst
    let s' = record s { pts = pts }
    if not changed
        then done (false, s')
        else if is_nil n.indirect_nodes
        then done (true, s')
        else done (true, record s' { updated_fun_ptrs = b.set s'.updated_fun_ptrs dst })

  -- The loop of `processLoad` over the objects.
  unfoldable pub load_objects :
      List ℕ → ℕ → ConstraintGraph b → Built (Bool × Calls × ConstraintGraph b)
  load_objects [] dst g = done (false, [], g)
  load_objects (o ∷ os) dst g = do
    id ← get_object_node b g o
    node ← get_super_node b g id
    (is_new, h) ← add_constraints b node dst copy g
    (changed, calls, k) ← load_objects os dst h
    done (is_new || changed, if is_new then (node, dst) ∷ calls else calls, k)

  -- The loop of `processStore` over the objects.
  unfoldable pub store_objects :
      List ℕ → ℕ → ConstraintGraph b → Built (Bool × Calls × ConstraintGraph b)
  store_objects [] src g = done (false, [], g)
  store_objects (o ∷ os) src g = do
    id ← get_object_node b g o
    node ← get_super_node b g id
    (is_new, h) ← add_constraints b src node copy g
    (changed, calls, k) ← store_objects os src h
    done (is_new || changed, if is_new then (src, node) ∷ calls else calls, k)

  unfoldable pub process_load :
      ℕ → ℕ → List b.Bits → ConstraintGraph b → Built (Bool × Calls × ConstraintGraph b)
  process_load src dst pts g = do
    _ ← assert_no_super src g
    _ ← assert_no_super dst g
    v ← or_fails (get_elem? pts src)
    load_objects (b.elements v) dst g

  unfoldable pub process_store :
      ℕ → ℕ → List b.Bits → ConstraintGraph b → Built (Bool × Calls × ConstraintGraph b)
  process_store src dst pts g = do
    _ ← assert_no_super src g
    _ ← assert_no_super dst g
    v ← or_fails (get_elem? pts dst)
    store_objects (b.elements v) src g

  -- The language model, a template parameter: the object of a field, which may be created, for an
  -- object's node and the pointer of a `getelementptr`; and what an object does at a special constraint.
  pub record LangModel : Type 0 where
    pub index_object :
        ℕ → ℕ → ConstraintGraph b → List b.Bits → Built (Option ℕ × ConstraintGraph b × List b.Bits)
    -- `processSpecial` of an object
    pub special_object : ℕ → ℕ → ℕ → ConstraintGraph b → Built (Bool × ConstraintGraph b)

  -- The callback asserts that just copy edges are reported; the last call stands first in the list.
  unfoldable pub copy_calls : List (ℕ × ℕ × Constraints) → Calls → Built Calls
  unfolding assert same_kind
  copy_calls [] calls = done calls
  copy_calls ((src, dst, k) ∷ reported) calls = do
    _ ← assert b (same_kind k copy)
    copy_calls reported ((src, dst) ∷ calls)

  -- The targets that are not handled yet, and the handled ones with them.
  unfoldable pub new_targets : List ℕ → b.Bits → List ℕ
  new_targets [] handled = []
  new_targets (o ∷ os) handled =
      if b.test handled o then new_targets os handled else o ∷ new_targets os handled

  unfoldable pub object_nodes : List ℕ → ConstraintGraph b → Built (List ℕ)
  object_nodes [] g = done []
  object_nodes (o ∷ os) g = do id ← get_object_node b g o; ids ← object_nodes os g; done (id ∷ ids)

  module _ (model : LangModel) where
    -- The loop of `processSpecial`: the result of the last object is kept.
    unfoldable pub special_objects :
        List ℕ → ℕ → ℕ → Bool → ConstraintGraph b → Built (Bool × ConstraintGraph b)
    special_objects [] src dst changed g = done (changed, g)
    special_objects (o ∷ os) src dst changed g = do
      node ← get_object_node b g o
      n ← get_node b g node
      object ← object_id n.kind
      (result, h) ← model.special_object object src dst g
      special_objects os src dst result h

    unfoldable pub process_special :
        ℕ → ℕ → List b.Bits → ConstraintGraph b → Built (Bool × Calls × ConstraintGraph b)
    process_special src dst pts g = do
      _ ← assert_no_super src g
      _ ← assert_no_super dst g
      v ← or_fails (get_elem? pts src)
      (changed, h) ←
          special_objects (b.elements v) src dst false
            (record g { call_back = true; reported = [] })
      calls ← copy_calls h.reported []
      done (changed, calls, record h { call_back = false; reported = [] })

    -- The loop of `processOffset` over the nodes of the objects.
    unfoldable pub index_objects :
        List ℕ
        → ℕ
        → ConstraintGraph b
        → List b.Bits
        → Built (Bool × Calls × ConstraintGraph b × List b.Bits)
    index_objects [] dst g pts = done (false, [], g, pts)
    index_objects (node ∷ nodes) dst g pts = do
      (field, g1, pts1) ← model.index_object node dst g pts
      elim field [
        | none ↦ index_objects nodes dst g1 pts1
        | some f ↦ do
          n ← get_node b g1 f
          object ← object_id n.kind
          known ← or_fails (has b dst object pts1)
          if known then index_objects nodes dst g1 pts1 else do
            (_, g2) ← add_constraints b f dst addr_of g1
            (_, calls, g3, pts3) ← index_objects nodes dst g2 pts1
            done (true, (f, dst) ∷ calls, g3, pts3)
      ]

    unfoldable pub process_offset : ℕ → ℕ → SolverState → Built (Bool × Calls × SolverState)
    process_offset src dst s = do
      _ ← assert_no_super src s.graph
      _ ← assert_no_super dst s.graph
      v ← or_fails (get_elem? s.pts src)
      let handled = s.handled_geps dst
      nodes ← object_nodes (new_targets (b.elements v) handled) s.graph
      (changed, calls, g, pts) ← index_objects nodes dst s.graph s.pts
      done (
        changed,
        calls,
        record s {
          graph = g;
          pts = pts;
          handled_geps = λ ptr. if ptr == dst then b.join handled v else s.handled_geps ptr;
        },
      )
