-- ===== src/ConstraintGraph/Collapse/Clears.antt =====
-- `clearConstraints` of src/PointerAnalysis/Graph/ConstraintGraph/CGNodeBase.h: what the resets do.
use open_race.Prelude.{
  ℕ, zero, suc, ◌==◌, false, not, ◌&&◌, List, [], ◌∷◌, ◌≡◌, refl, ◌∙◌, arith, ==_iff,
}
use open_race.Trace.Build.States.{contains}
use open_race.PointsTo.{BitVectors, Laws, modify}
use open_race.ConstraintGraph.{
  Constraints, same_kind, CgNode, ConstraintGraph, update_node, set_cons, test_succ, test_pred,
}
use open_race.ConstraintGraph.Edges.{part_of-modify_kept}
use open_race.ConstraintGraph.Inverse.{Keeps, Keeps-refl, Keeps-trans, update_node-Keeps}
use open_race.ConstraintGraph.Collapse.{reset_pred, reset_succ, reset_preds, reset_succs}

module _ (b : BitVectors) (laws : Laws b) where
  abbrev without_pred : Constraints → ℕ → CgNode b → CgNode b
  without_pred k source n = record n {
    pred_cons = set_cons b k (λ v. b.reset v source) n.pred_cons;
  }

  abbrev without_succ : Constraints → ℕ → CgNode b → CgNode b
  without_succ k target n = record n {
    succ_cons = set_cons b k (λ v. b.reset v target) n.succ_cons;
  }

  test_pred-modify :
      (id : ℕ) (k : Constraints) (source i : ℕ) (l : Constraints) (j : ℕ) (ns : List (CgNode b))
      → test_pred b (modify id (without_pred k source) ns) i l j
        ≡ (test_pred b ns i l j && not (i == id && (same_kind k l && source == j)))
  unfolding test_pred modify set_cons
  test_pred-modify id k t i l j [] = ground arith
  test_pred-modify zero k t zero l j (n ∷ ns) = ground (arith, laws.test-reset (n.pred_cons l) t j)
  test_pred-modify zero k t (suc i) l j (n ∷ ns) = ground arith
  test_pred-modify (suc id) k t zero l j (n ∷ ns) = ground arith
  test_pred-modify (suc id) k t (suc i) l j (n ∷ ns) =
      ground (arith, test_pred-modify id k t i l j ns)

  test_succ-modify :
      (id : ℕ) (k : Constraints) (target i : ℕ) (l : Constraints) (j : ℕ) (ns : List (CgNode b))
      → test_succ b (modify id (without_succ k target) ns) i l j
        ≡ (test_succ b ns i l j && not (i == id && (same_kind k l && target == j)))
  unfolding test_succ modify set_cons
  test_succ-modify id k t i l j [] = ground arith
  test_succ-modify zero k t zero l j (n ∷ ns) = ground (arith, laws.test-reset (n.succ_cons l) t j)
  test_succ-modify zero k t (suc i) l j (n ∷ ns) = ground arith
  test_succ-modify (suc id) k t zero l j (n ∷ ns) = ground arith
  test_succ-modify (suc id) k t (suc i) l j (n ∷ ns) =
      ground (arith, test_succ-modify id k t i l j ns)

  pub reset_preds-Keeps :
      (ids : List ℕ) (k : Constraints) (source : ℕ) (g : ConstraintGraph b)
      → Keeps b g (reset_preds b ids k source g)
  unfolding reset_preds reset_pred
  reset_preds-Keeps [] k source g = Keeps-refl b g
  reset_preds-Keeps (id ∷ ids) k source g =
      Keeps-trans b g (reset_pred b id k source g) (reset_preds b (id ∷ ids) k source g)
        (update_node-Keeps b id (without_pred k source) g (λ n. refl) (λ n. refl))
        (reset_preds-Keeps ids k source (reset_pred b id k source g))

  pub reset_succs-Keeps :
      (ids : List ℕ) (k : Constraints) (target : ℕ) (g : ConstraintGraph b)
      → Keeps b g (reset_succs b ids k target g)
  unfolding reset_succs reset_succ
  reset_succs-Keeps [] k target g = Keeps-refl b g
  reset_succs-Keeps (id ∷ ids) k target g =
      Keeps-trans b g (reset_succ b id k target g) (reset_succs b (id ∷ ids) k target g)
        (update_node-Keeps b id (without_succ k target) g (λ n. refl) (λ n. refl))
        (reset_succs-Keeps ids k target (reset_succ b id k target g))

  pub test_pred-reset_preds :
      (ids : List ℕ) (k : Constraints) (source i : ℕ) (l : Constraints) (j : ℕ)
      (g : ConstraintGraph b)
      → test_pred b (reset_preds b ids k source g).nodes i l j
        ≡ (test_pred b g.nodes i l j && not (contains i ids && (same_kind k l && source == j)))
  unfolding reset_preds reset_pred update_node contains
  test_pred-reset_preds [] k s i l j g = ground arith
  test_pred-reset_preds (id ∷ ids) k s i l j g =
      test_pred-reset_preds ids k s i l j (reset_pred b id k s g)
      ∙ ground (arith, test_pred-modify id k s i l j g.nodes, ==_iff i id, ==_iff id i)

  pub test_succ-reset_preds :
      (ids : List ℕ) (k : Constraints) (source i : ℕ) (l : Constraints) (j : ℕ)
      (g : ConstraintGraph b)
      → test_succ b (reset_preds b ids k source g).nodes i l j ≡ test_succ b g.nodes i l j
  unfolding reset_preds reset_pred update_node test_succ
  test_succ-reset_preds [] k s i l j g = refl
  test_succ-reset_preds (id ∷ ids) k s i l j g =
      test_succ-reset_preds ids k s i l j (reset_pred b id k s g)
      ∙ part_of-modify_kept (λ (n : CgNode b). b.test (n.succ_cons l) j) false id i
          (without_pred k s) g.nodes (λ n. refl)

  pub test_succ-reset_succs :
      (ids : List ℕ) (k : Constraints) (target i : ℕ) (l : Constraints) (j : ℕ)
      (g : ConstraintGraph b)
      → test_succ b (reset_succs b ids k target g).nodes i l j
        ≡ (test_succ b g.nodes i l j && not (contains i ids && (same_kind k l && target == j)))
  unfolding reset_succs reset_succ update_node contains
  test_succ-reset_succs [] k s i l j g = ground arith
  test_succ-reset_succs (id ∷ ids) k s i l j g =
      test_succ-reset_succs ids k s i l j (reset_succ b id k s g)
      ∙ ground (arith, test_succ-modify id k s i l j g.nodes, ==_iff i id, ==_iff id i)

  pub test_pred-reset_succs :
      (ids : List ℕ) (k : Constraints) (target i : ℕ) (l : Constraints) (j : ℕ)
      (g : ConstraintGraph b)
      → test_pred b (reset_succs b ids k target g).nodes i l j ≡ test_pred b g.nodes i l j
  unfolding reset_succs reset_succ update_node test_pred
  test_pred-reset_succs [] k s i l j g = refl
  test_pred-reset_succs (id ∷ ids) k s i l j g =
      test_pred-reset_succs ids k s i l j (reset_succ b id k s g)
      ∙ part_of-modify_kept (λ (n : CgNode b). b.test (n.pred_cons l) j) false id i
          (without_succ k s) g.nodes (λ n. refl)
