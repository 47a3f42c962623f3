-- ===== src/ConstraintGraph/Collapse.antt =====
-- The collapsing of a strongly connected component, `collapseSCCTo` of
-- src/PointerAnalysis/Graph/ConstraintGraph/ConstraintGraph.h, with `clearConstraints` of CGNodeBase.h.
pub mod Kinds
pub mod Clears
pub mod Cleared
pub mod Allowed
pub mod Merged
pub mod Quotient
pub mod Component
pub mod Moved
pub mod Whole
use open_race.Prelude.{ℕ, ◌==◌, if◌then◌else◌, not, List, [], ◌∷◌, ◌++◌}
use open_race.Trace.Build.States.{Built, done, ◌>>=◌}
use open_race.PointsTo.{BitVectors}
use open_race.ConstraintGraph.{
  Constraints, load, store, copy, addr_of, offset, special, CgNode, ConstraintGraph, get_node,
  update_node, set_cons, set_super_node, insert_constraint, add_calls, has_super_node, assert,
}

unfoldable pub with_kind : Constraints → List ℕ → List (Constraints × ℕ)
with_kind k [] = []
with_kind k (id ∷ ids) = (k, id) ∷ with_kind k ids

module _ (b : BitVectors) where
  -- The order of the edge iterators.
  unfoldable pub edges : (Constraints → b.Bits) → List (Constraints × ℕ)
  unfolding with_kind
  edges cons =
      with_kind special (b.elements (cons special))
      ++ (with_kind offset (b.elements (cons offset))
          ++ (with_kind addr_of (b.elements (cons addr_of))
              ++ (with_kind copy (b.elements (cons copy))
                  ++ (with_kind store (b.elements (cons store))
                      ++ (with_kind load (b.elements (cons load)) ++ [])))))

  -- The incoming edges go to the super node.
  unfoldable pub merge_incoming :
      List (Constraints × ℕ) → ℕ → ConstraintGraph b → Built (ConstraintGraph b)
  unfolding insert_constraint
  merge_incoming [] super g = done g
  merge_incoming ((k, source) ∷ es) super g = do
    (_, h) ← insert_constraint b source super k g
    merge_incoming es super h

  -- The outgoing edges leave from the super node.
  unfoldable pub merge_outgoing :
      List (Constraints × ℕ) → ℕ → ConstraintGraph b → Built (ConstraintGraph b)
  unfolding insert_constraint
  merge_outgoing [] super g = done g
  merge_outgoing ((k, target) ∷ es) super g = do
    (_, h) ← insert_constraint b super target k g
    merge_outgoing es super h

  unfoldable pub reset_pred : ℕ → Constraints → ℕ → ConstraintGraph b → ConstraintGraph b
  unfolding update_node set_cons
  reset_pred id k source =
      update_node b id
        λ (n : CgNode b). record n { pred_cons = set_cons b k (λ v. b.reset v source) n.pred_cons }

  unfoldable pub reset_succ : ℕ → Constraints → ℕ → ConstraintGraph b → ConstraintGraph b
  unfolding update_node set_cons
  reset_succ id k target =
      update_node b id
        λ (n : CgNode b). record n { succ_cons = set_cons b k (λ v. b.reset v target) n.succ_cons }

  unfoldable pub reset_preds : List ℕ → Constraints → ℕ → ConstraintGraph b → ConstraintGraph b
  unfolding reset_pred
  reset_preds [] k source g = g
  reset_preds (id ∷ ids) k source g = reset_preds ids k source (reset_pred id k source g)

  unfoldable pub reset_succs : List ℕ → Constraints → ℕ → ConstraintGraph b → ConstraintGraph b
  unfolding reset_succ
  reset_succs [] k target g = g
  reset_succs (id ∷ ids) k target g = reset_succs ids k target (reset_succ id k target g)

  unfoldable pub empty_cons : ℕ → Constraints → ConstraintGraph b → ConstraintGraph b
  unfolding update_node set_cons
  empty_cons id k = update_node b id λ (n : CgNode b). record n {
    succ_cons = set_cons b k (λ v. b.empty) n.succ_cons;
    pred_cons = set_cons b k (λ v. b.empty) n.pred_cons;
  }

  -- CLEAR_CONSTRAINT
  unfoldable pub clear_kind : Constraints → ℕ → ConstraintGraph b → Built (ConstraintGraph b)
  unfolding get_node reset_preds reset_succs empty_cons
  clear_kind k id g = do
    n ← get_node b g id
    let g1 = reset_preds (b.elements (n.succ_cons k)) k id g
    n1 ← get_node b g1 id
    done (empty_cons id k (reset_succs (b.elements (n1.pred_cons k)) k id g1))

  unfoldable pub clear_constraints : ℕ → ConstraintGraph b → Built (ConstraintGraph b)
  clear_constraints id g = do
    g1 ← clear_kind load id g
    g2 ← clear_kind store id g1
    g3 ← clear_kind copy id g2
    g4 ← clear_kind addr_of id g3
    g5 ← clear_kind offset id g4
    clear_kind special id g5

  -- The children and the calls of the node go to the super node.
  unfoldable pub take_over : ℕ → ℕ → CgNode b → ConstraintGraph b → ConstraintGraph b
  unfolding update_node add_calls
  take_over super id n g =
      update_node b id (λ (m : CgNode b). record m { indirect_nodes = []; child_nodes = b.empty })
        (update_node b super
          (λ (s : CgNode b). record s {
            child_nodes = b.join s.child_nodes n.child_nodes;
            indirect_nodes = add_calls n.indirect_nodes s.indirect_nodes;
          })
          g)

  -- The body of the second loop of `collapseSCCTo`, past its test.
  unfoldable pub collapse_node : ℕ → ℕ → ConstraintGraph b → Built (ConstraintGraph b)
  collapse_node super id g = do
    n ← get_node b g id
    g1 ← merge_incoming (edges n.pred_cons) super g
    n1 ← get_node b g1 id
    g2 ← merge_outgoing (edges n1.succ_cons) super g1
    n2 ← get_node b g2 id
    g3 ← clear_constraints id (take_over super id n2 g2)
    done (set_super_node b id super g3)

  unfoldable pub collapse_all : List ℕ → ℕ → ConstraintGraph b → Built (ConstraintGraph b)
  unfolding collapse_node
  collapse_all [] super g = done g
  collapse_all (id ∷ ids) super g =
      if id == super
      then collapse_all ids super g
      else (collapse_node super id g >>= λ (h : ConstraintGraph b). collapse_all ids super h)

  -- The first loop: no node has a super node.
  unfoldable pub assert_no_super : List ℕ → ConstraintGraph b → Built (Unit {0})
  unfolding get_node has_super_node assert
  assert_no_super [] g = done tt
  assert_no_super (id ∷ ids) g = do
    n ← get_node b g id
    _ ← assert b (not (has_super_node b n))
    assert_no_super ids g

  unfoldable pub collapse_scc_to : List ℕ → ℕ → ConstraintGraph b → Built (ConstraintGraph b)
  collapse_scc_to scc super g = do _ ← assert_no_super scc g; collapse_all scc super g
