-- ===== src/ConstraintGraph/Collapse/Cleared.antt =====
-- `clearConstraints` of src/PointerAnalysis/Graph/ConstraintGraph/CGNodeBase.h takes just the edges of
-- the node away.
use open_race.Prelude.{
  ℕ, zero, suc, ◌<◌, ◌==◌, Bool, true, not, ◌&&◌, ◌||◌, some, List, [], ◌∷◌, ◌≡◌, inl, inr, refl,
  ap, ◌∙◌, length, get_elem?, arith, ==_iff, Bool-cases,
}
use open_race.Trace.Build.States.{Built, done, ◌>>=◌, contains}
use open_race.PointsTo.{BitVectors, Laws, modify}
use open_race.ConstraintGraph.{
  Constraints, load, store, copy, addr_of, offset, special, same_kind, CgNode, ConstraintGraph,
  update_node, set_cons, test_succ, test_pred, get_node,
}
use open_race.ConstraintGraph.Inverse.{IsInverse, Keeps, Keeps-trans, update_node-Keeps}
use open_race.ConstraintGraph.Collapse.{
  reset_preds, reset_succs, empty_cons, clear_kind, clear_constraints,
}
use open_race.ConstraintGraph.Collapse.Clears.{
  reset_preds-Keeps, reset_succs-Keeps, test_pred-reset_preds, test_succ-reset_preds,
  test_succ-reset_succs, test_pred-reset_succs,
}
use open_race.ConstraintGraph.Collapse.Kinds.{same_kind-eq, every_kind, bind_assoc5}

module _ (b : BitVectors) (laws : Laws b) where
  abbrev without : Constraints → CgNode b → CgNode b
  without k n = record n {
    succ_cons = set_cons b k (λ v. b.empty) n.succ_cons;
    pred_cons = set_cons b k (λ v. b.empty) n.pred_cons;
  }

  test_succ-without :
      (id : ℕ) (k : Constraints) (i : ℕ) (l : Constraints) (j : ℕ) (ns : List (CgNode b))
      → test_succ b (modify id (without k) ns) i l j
        ≡ (test_succ b ns i l j && not (i == id && same_kind k l))
  unfolding test_succ modify set_cons
  test_succ-without id k i l j [] = ground arith
  test_succ-without zero k zero l j (n ∷ ns) = ground (arith, laws.test-empty j)
  test_succ-without zero k (suc i) l j (n ∷ ns) = ground arith
  test_succ-without (suc id) k zero l j (n ∷ ns) = ground arith
  test_succ-without (suc id) k (suc i) l j (n ∷ ns) =
      ground (arith, test_succ-without id k i l j ns)

  test_pred-without :
      (id : ℕ) (k : Constraints) (i : ℕ) (l : Constraints) (j : ℕ) (ns : List (CgNode b))
      → test_pred b (modify id (without k) ns) i l j
        ≡ (test_pred b ns i l j && not (i == id && same_kind k l))
  unfolding test_pred modify set_cons
  test_pred-without id k i l j [] = ground arith
  test_pred-without zero k zero l j (n ∷ ns) = ground (arith, laws.test-empty j)
  test_pred-without zero k (suc i) l j (n ∷ ns) = ground arith
  test_pred-without (suc id) k zero l j (n ∷ ns) = ground arith
  test_pred-without (suc id) k (suc i) l j (n ∷ ns) =
      ground (arith, test_pred-without id k i l j ns)

  pub node_at :
      (id : ℕ) (ns : List (CgNode b)) → id < length ns → (n : CgNode b) × (get_elem? ns id ≡ some n)
  node_at id [] h = absurd (omega (arith, h))
  node_at zero (n ∷ ns) h = (n, refl)
  node_at (suc id) (n ∷ ns) h = node_at id ns (omega (arith, h))

  pub test_succ-at :
      (id : ℕ) (k : Constraints) (j : ℕ) (ns : List (CgNode b)) (n : CgNode b)
      → get_elem? ns id ≡ some n
      → contains j (b.elements (n.succ_cons k)) ≡ test_succ b ns id k j
  unfolding test_succ
  test_succ-at id k j ns n h = ground (arith, laws.contains-elements (n.succ_cons k) j)

  pub test_pred-at :
      (id : ℕ) (k : Constraints) (j : ℕ) (ns : List (CgNode b)) (n : CgNode b)
      → get_elem? ns id ≡ some n
      → contains j (b.elements (n.pred_cons k)) ≡ test_pred b ns id k j
  unfolding test_pred
  test_pred-at id k j ns n h = ground (arith, laws.contains-elements (n.pred_cons k) j)

  -- The two graphs have the same edges, but those of a kind at a node.
  abbrev pub Drops : (Constraints → Bool) → ℕ → ConstraintGraph b → ConstraintGraph b → Type 0
  Drops kinds id g h =
      (i : ℕ) (l : Constraints) (j : ℕ)
      → test_succ b h.nodes i l j
        ≡ (test_succ b g.nodes i l j && not (kinds l && (i == id || j == id)))

  -- The reading of an edge of a kind at another name of the kind.
  succ_kind :
      (i j : ℕ) (k l : Constraints) (g : ConstraintGraph b)
      → same_kind k l ≡ true
      → test_succ b g.nodes i k j ≡ test_succ b g.nodes i l j
  succ_kind i j k l g h = ap (λ (m : Constraints). test_succ b g.nodes i m j) (same_kind-eq k l h)

  abbrev cleared : Constraints → ℕ → CgNode b → CgNode b → ConstraintGraph b → ConstraintGraph b
  cleared k id n n1 g = empty_cons b id k (
      reset_succs b (b.elements (n1.pred_cons k)) k id
        (reset_preds b (b.elements (n.succ_cons k)) k id g))

  module _ (k : Constraints) (id : ℕ) (g : ConstraintGraph b) (n n1 : CgNode b)
      (at_n : get_elem? g.nodes id ≡ some n)
      (at_n1 : get_elem? (reset_preds b (b.elements (n.succ_cons k)) k id g).nodes id
        ≡ some n1) where
    cleared-Keeps : Keeps b g (cleared k id n n1 g)
    unfolding empty_cons
    cleared-Keeps =
        let g1 = reset_preds b (b.elements (n.succ_cons k)) k id g in
        let g2 = reset_succs b (b.elements (n1.pred_cons k)) k id g1 in
        Keeps-trans b g g1 (cleared k id n n1 g)
          (reset_preds-Keeps b laws (b.elements (n.succ_cons k)) k id g)
          (Keeps-trans b g1 g2 (cleared k id n n1 g)
            (reset_succs-Keeps b laws (b.elements (n1.pred_cons k)) k id g1)
            (update_node-Keeps b id (without k) g2 (λ m. refl) (λ m. refl)))

    cleared-succ :
        IsInverse b g
        → (i : ℕ) (l : Constraints) (j : ℕ)
        → test_succ b (cleared k id n n1 g).nodes i l j
          ≡ (test_succ b g.nodes i l j && not (same_kind k l && (i == id || j == id)))
    unfolding empty_cons update_node
    cleared-succ v i l j =
        let g1 = reset_preds b (b.elements (n.succ_cons k)) k id g in
        let g2 = reset_succs b (b.elements (n1.pred_cons k)) k id g1 in
        elim (Bool-cases (same_kind k l)) [
          | inl same ↦ ground (
            arith,
            test_succ-without id k i l j g2.nodes,
            test_succ-reset_succs b laws (b.elements (n1.pred_cons k)) k id i l j g1,
            test_succ-reset_preds b laws (b.elements (n.succ_cons k)) k id i l j g,
            test_pred-at id k i g1.nodes n1 at_n1,
            test_pred-reset_preds b laws (b.elements (n.succ_cons k)) k id id k i g,
            v.inverse i k id,
            succ_kind i id k l g same,
            ==_iff id i,
            ==_iff i id,
            ==_iff id j,
            ==_iff j id,
          )
          | inr other ↦ ground (
            arith,
            test_succ-without id k i l j g2.nodes,
            test_succ-reset_succs b laws (b.elements (n1.pred_cons k)) k id i l j g1,
            test_succ-reset_preds b laws (b.elements (n.succ_cons k)) k id i l j g,
          )
        ]

    cleared-pred :
        IsInverse b g
        → (i : ℕ) (l : Constraints) (j : ℕ)
        → test_pred b (cleared k id n n1 g).nodes j l i
          ≡ (test_pred b g.nodes j l i && not (same_kind k l && (i == id || j == id)))
    unfolding empty_cons update_node
    cleared-pred v i l j =
        let g1 = reset_preds b (b.elements (n.succ_cons k)) k id g in
        let g2 = reset_succs b (b.elements (n1.pred_cons k)) k id g1 in
        elim (Bool-cases (same_kind k l)) [
          | inl same ↦ ground (
            arith,
            test_pred-without id k j l i g2.nodes,
            test_pred-reset_succs b laws (b.elements (n1.pred_cons k)) k id j l i g1,
            test_pred-reset_preds b laws (b.elements (n.succ_cons k)) k id j l i g,
            test_succ-at id k j g.nodes n at_n,
            v.inverse id l j,
            succ_kind id j k l g same,
            ==_iff id i,
            ==_iff i id,
          )
          | inr other ↦ ground (
            arith,
            test_pred-without id k j l i g2.nodes,
            test_pred-reset_succs b laws (b.elements (n1.pred_cons k)) k id j l i g1,
            test_pred-reset_preds b laws (b.elements (n.succ_cons k)) k id j l i g,
          )
        ]

    cleared_eq : clear_kind b k id g ≡ done (cleared k id n n1 g)
    unfolding clear_kind get_node
    cleared_eq = ground arith

    cleared_lem :
        IsInverse b g
        → (h : ConstraintGraph b) × (clear_kind b k id g ≡ done h)
          × IsInverse b h
          × Keeps b g h
          × Drops (same_kind k) id g h
    cleared_lem v = (
      cleared k id n n1 g,
      cleared_eq,
      record {
        inverse =
            λ i l j. ground (arith, cleared-succ v i l j, cleared-pred v i l j, v.inverse i l j);
      },
      cleared-Keeps,
      cleared-succ v,
    )

  clear_kind_lem :
      (k : Constraints) (id : ℕ) (g : ConstraintGraph b)
      → IsInverse b g
      → id < length g.nodes
      → (h : ConstraintGraph b) × (clear_kind b k id g ≡ done h)
        × IsInverse b h
        × Keeps b g h
        × Drops (same_kind k) id g h
  clear_kind_lem k id g v p =
      let (n, at_n) = node_at id g.nodes p in
      let keeps = reset_preds-Keeps b laws (b.elements (n.succ_cons k)) k id g in
      let (n1, at_n1) =
        node_at id (reset_preds b (b.elements (n.succ_cons k)) k id g).nodes
          (omega (arith, keeps.same_size)) in
      cleared_lem k id g n n1 at_n at_n1 v

  -- The graph after the edges of some kinds are taken from a node: it is as before otherwise.
  abbrev pub Cleared :
      (Constraints → Bool) → ℕ → ConstraintGraph b → Built (ConstraintGraph b) → Type 0
  Cleared kinds id g run =
      (h : ConstraintGraph b) × (run ≡ done h) × IsInverse b h × Keeps b g h × Drops kinds id g h

  then_clear :
      (kinds : Constraints → Bool) (k : Constraints) (id : ℕ) (g : ConstraintGraph b)
      (run : Built (ConstraintGraph b))
      → id < length g.nodes
      → Cleared kinds id g run
      → Cleared
          (λ l. kinds l || same_kind k l)
          id
          g
          (run >>= λ (h : ConstraintGraph b). clear_kind b k id h)
  then_clear kinds k id g run p (h, e, v, keeps, drops) =
      let (h', e', v', keeps', drops') = clear_kind_lem k id h v (omega (arith, keeps.same_size)) in
      (
        h',
        rw e e',
        v',
        Keeps-trans b g h h' keeps keeps',
        λ i l j. ground (arith, drops i l j, drops' i l j),
      )

  -- Where the sets are inverse, `clearConstraints` of a node ends, takes just the edges from and to the
  -- node away, of each kind, and keeps the sets inverse.
  pub clear_constraints_lem :
      (id : ℕ) (g : ConstraintGraph b)
      → IsInverse b g
      → id < length g.nodes
      → Cleared (λ l. true) id g (clear_constraints b id g)
  unfolding clear_constraints
  clear_constraints_lem id g v p =
      let (h, e, w, keeps, drops) = then_clear _ special id g _ p (
        then_clear _ offset id g _ p (
          then_clear _ addr_of id g _ p (
            then_clear _ copy id g _ p
              (then_clear _ store id g _ p (clear_kind_lem load id g v p))))) in
      (
        h,
        bind_assoc5 (clear_kind b load id g) (λ h. clear_kind b store id h)
              (λ h. clear_kind b copy id h) (λ h. clear_kind b addr_of id h)
              (λ h. clear_kind b offset id h) (λ h. clear_kind b special id h)
            ∙ e,
        w,
        keeps,
        λ i l j. ground (arith, drops i l j, every_kind l),
      )
