-- ===== src/ConstraintGraph/Collapse/Quotient.antt =====
-- One round of `collapseSCCTo` (src/PointerAnalysis/Graph/ConstraintGraph/ConstraintGraph.h) gives the
-- graph in which the node and the super node are one.
use open_race.Prelude.{
  ℕ, ◌==◌, Bool, true, false, not, ◌&&◌, ◌||◌, none, some, List, [], ◌≡◌, ◌≢◌, refl, ap, ◌∙◌, sym,
  get_elem?, arith, ==_iff, inl, inr, Bool-cases,
}
use open_race.Trace.Build.States.{done}
use open_race.PointsTo.{BitVectors, Laws}
use open_race.ConstraintGraph.{
  Constraints, CgNode, ConstraintGraph, update_node, test_succ, test_pred, get_node, set_super_node,
  add_calls,
}
use open_race.ConstraintGraph.Edges.{part_of-modify_kept, super_at}
use open_race.ConstraintGraph.Inverse.{IsInverse, Keeps, Keeps-trans, update_node-Keeps}
use open_race.ConstraintGraph.Supers.{HasSupers, super_at_lt}
use open_race.ConstraintGraph.Collapse.{
  edges, merge_incoming, merge_outgoing, clear_constraints, take_over, collapse_node,
}
use open_race.ConstraintGraph.Collapse.Cleared.{node_at, clear_constraints_lem}
use open_race.ConstraintGraph.Collapse.Merged.{listed-edges, merge_incoming_lem, merge_outgoing_lem}
use open_race.ConstraintGraph.Collapse.Allowed.{listed, is_allowed, allowed_kept, super_kept}

-- The edge in the end, from its reading at each stage.
quotient_edge :
    (t tn nt nn sj si ni nj al al' e1 e1' e2 e3 : Bool)
    → e1 ≡ (t || ((sj && tn) && al))
    → e1' ≡ (nt || ((sj && nn) && al'))
    → e2 ≡ (e1 || ((si && e1') && al))
    → e3 ≡ (e2 && not (ni || nj))
    → (al && (sj && not al')) ≡ false
    → e3 ≡ (not (ni || nj) && (t || (al && ((sj && tn) || (si && (nt || (sj && nn)))))))
quotient_edge t tn nt nn sj si ni nj al al' e1 e1' e2 e3 p q r s h = ground arith

module _ (b : BitVectors) (laws : Laws b) where
  pub record WellFormed (g : ConstraintGraph b) : Type 0 where
    pub is_inverse : IsInverse b g
    pub has_supers : HasSupers b g
    pub rooted :
        (i : ℕ) (l : Constraints) (j : ℕ)
        → test_succ b g.nodes i l j ≡ true
        → (super_at b g.nodes i ≡ some none) × (super_at b g.nodes j ≡ some none)

  update_node-succ :
      (id : ℕ) (f : CgNode b → CgNode b) (g : ConstraintGraph b)
      → ((n : CgNode b) (l : Constraints) → (f n).succ_cons l ≡ n.succ_cons l)
      → (i : ℕ) (l : Constraints) (j : ℕ)
      → test_succ b (update_node b id f g).nodes i l j ≡ test_succ b g.nodes i l j
  unfolding update_node test_succ
  update_node-succ id f g h i l j =
      part_of-modify_kept (λ (n : CgNode b). b.test (n.succ_cons l) j) false id i f g.nodes
        (λ n. ap (λ (v : b.Bits). b.test v j) (h n l))

  update_node-pred :
      (id : ℕ) (f : CgNode b → CgNode b) (g : ConstraintGraph b)
      → ((n : CgNode b) (l : Constraints) → (f n).pred_cons l ≡ n.pred_cons l)
      → (i : ℕ) (l : Constraints) (j : ℕ)
      → test_pred b (update_node b id f g).nodes i l j ≡ test_pred b g.nodes i l j
  unfolding update_node test_pred
  update_node-pred id f g h i l j =
      part_of-modify_kept (λ (n : CgNode b). b.test (n.pred_cons l) j) false id i f g.nodes
        (λ n. ap (λ (v : b.Bits). b.test v j) (h n l))

  -- A change of a node that leaves its sets alone.
  pub update_node-edges :
      (id : ℕ) (f : CgNode b → CgNode b) (g : ConstraintGraph b)
      → ((n : CgNode b) (l : Constraints) → (f n).succ_cons l ≡ n.succ_cons l)
      → ((n : CgNode b) (l : Constraints) → (f n).pred_cons l ≡ n.pred_cons l)
      → IsInverse b g
      → IsInverse b (update_node b id f g)
        × ((i : ℕ) (l : Constraints) (j : ℕ)
            → test_succ b (update_node b id f g).nodes i l j ≡ test_succ b g.nodes i l j)
  update_node-edges id f g p q v = (
    record {
      inverse = λ i l j.
          update_node-succ id f g p i l j ∙ v.inverse i l j ∙ sym (update_node-pred id f g q j l i);
    },
    update_node-succ id f g p,
  )

  take_over_lem :
      (super id : ℕ) (n : CgNode b) (g : ConstraintGraph b)
      → IsInverse b g
      → IsInverse b (take_over b super id n g)
        × Keeps b g (take_over b super id n g)
        × ((i : ℕ) (l : Constraints) (j : ℕ)
            → test_succ b (take_over b super id n g).nodes i l j ≡ test_succ b g.nodes i l j)
  unfolding take_over
  take_over_lem super id n g v =
      let f = λ (s : CgNode b). record s {
        child_nodes = b.join s.child_nodes n.child_nodes;
        indirect_nodes = add_calls n.indirect_nodes s.indirect_nodes;
      } in
      let f' = λ (m : CgNode b). record m { indirect_nodes = []; child_nodes = b.empty } in
      let g1 = update_node b super f g in
      let (v1, same1) = update_node-edges super f g (λ m l. refl) (λ m l. refl) v in
      let (v2, same2) = update_node-edges id f' g1 (λ m l. refl) (λ m l. refl) v1 in
      (
        v2,
        Keeps-trans b g g1 (update_node b id f' g1)
            (update_node-Keeps b super f g (λ m. refl) (λ m. refl))
            (update_node-Keeps b id f' g1 (λ m. refl) (λ m. refl)),
        λ i l j. same2 i l j ∙ same1 i l j,
      )

  -- What an edge is after the node and the super node have become one.
  abbrev pub one_node : ConstraintGraph b → ℕ → ℕ → ℕ → Constraints → ℕ → Bool
  one_node g super id i l j =
      not (i == id || j == id)
      && (test_succ b g.nodes i l j
          || (is_allowed b g i l j
              && ((super == j && test_succ b g.nodes i l id)
                  || (super == i
                      && (test_succ b g.nodes id l j
                          || (super == j && test_succ b g.nodes id l id))))))

  -- The nodes that are read on the way.
  stages :
      (super id : ℕ) (g g1 g2 g3 : ConstraintGraph b) (n n1 n2 : CgNode b)
      → get_elem? g.nodes id ≡ some n
      → merge_incoming b (edges b n.pred_cons) super g ≡ done g1
      → get_elem? g1.nodes id ≡ some n1
      → merge_outgoing b (edges b n1.succ_cons) super g1 ≡ done g2
      → get_elem? g2.nodes id ≡ some n2
      → clear_constraints b id (take_over b super id n2 g2) ≡ done g3
      → collapse_node b super id g ≡ done (set_super_node b id super g3)
  unfolding collapse_node get_node
  stages super id g g1 g2 g3 n n1 n2 a e a1 e1 a2 e2 = rw (a, e, a1, e1, a2, e2) refl

  allowed_from :
      (g : ConstraintGraph b) (super id i : ℕ) (l : Constraints) (j : ℕ)
      → id ≢ super
      → (is_allowed b g i l j && (super == j && not (is_allowed b g id l j))) ≡ false
  allowed_from g super id i l j ne = ground (arith, ==_iff id j, ==_iff super j)

  listed-preds :
      (l : Constraints) (i id : ℕ) (ns : List (CgNode b)) (n : CgNode b)
      → get_elem? ns id ≡ some n
      → listed l i (edges b n.pred_cons) ≡ test_pred b ns id l i
  unfolding test_pred
  listed-preds l i id ns n h = ground (arith, listed-edges b laws l i n.pred_cons)

  listed-succs :
      (l : Constraints) (j id : ℕ) (ns : List (CgNode b)) (n : CgNode b)
      → get_elem? ns id ≡ some n
      → listed l j (edges b n.succ_cons) ≡ test_succ b ns id l j
  unfolding test_succ
  listed-succs l j id ns n h = ground (arith, listed-edges b laws l j n.succ_cons)

  module _ (super id : ℕ) (g : ConstraintGraph b) (v : WellFormed g)
      (root : super_at b g.nodes id ≡ some none) (root' : super_at b g.nodes super ≡ some none)
      (ne : id ≢ super) where
    abbrev pub Collapsed : Type 0
    Collapsed =
        (h : ConstraintGraph b) × (collapse_node b super id g ≡ done (set_super_node b id super h))
        × IsInverse b h
        × Keeps b g h
        × ((i : ℕ) (l : Constraints) (j : ℕ)
            → test_succ b h.nodes i l j ≡ one_node g super id i l j)

    -- The edges after the first loop.
    abbrev Incoming : ConstraintGraph b → Type 0
    Incoming g1 =
        (i : ℕ) (l : Constraints) (j : ℕ)
        → test_succ b g1.nodes i l j ≡ (
            test_succ b g.nodes i l j
            || ((super == j && test_succ b g.nodes i l id) && is_allowed b g i l j))

    -- The targets after the first loop have no super node.
    target_root :
        (g1 : ConstraintGraph b) (l : Constraints) (j : ℕ)
        → Incoming g1
        → test_succ b g1.nodes id l j ≡ true
        → super_at b g.nodes j ≡ some none
    target_root g1 l j adds h = elim (Bool-cases (test_succ b g.nodes id l j)) [
      | inl old ↦ (v.rooted id l j old).1
      | inr new ↦
          let e : super ≡ j = (==_iff super j).0 (ground (arith, adds id l j)) in rw (← e) root'
    ]

    -- After the second loop.
    clearing :
        (g1 g2 : ConstraintGraph b) (n n1 : CgNode b)
        → get_elem? g.nodes id ≡ some n
        → merge_incoming b (edges b n.pred_cons) super g ≡ done g1
        → get_elem? g1.nodes id ≡ some n1
        → merge_outgoing b (edges b n1.succ_cons) super g1 ≡ done g2
        → Incoming g1
        → IsInverse b g2
        → Keeps b g g2
        → ((i : ℕ) (l : Constraints) (j : ℕ)
            → test_succ b g2.nodes i l j ≡ (
                test_succ b g1.nodes i l j
                || ((super == i && test_succ b g1.nodes id l j) && is_allowed b g i l j)))
        → Collapsed
    clearing g1 g2 n n1 a e1 a1 e2 adds1 v2 keeps2 adds2 =
        let size = super_at_lt b id g.nodes none root in
        let (n2, a2) = node_at b laws id g2.nodes (omega (arith, keeps2.same_size)) in
        let (v3, keeps3, same3) = take_over_lem super id n2 g2 v2 in
        let l3 = Keeps-trans b g g2 (take_over b super id n2 g2) keeps2 keeps3 in
        let (h, e4, v4, keeps4, drops) =
          clear_constraints_lem b laws id (take_over b super id n2 g2) v3
            (omega (arith, l3.same_size)) in
        (
          h,
          stages super id g g1 g2 h n n1 n2 a e1 a1 e2 a2 e4,
          v4,
          Keeps-trans b g (take_over b super id n2 g2) h l3 keeps4,
          λ i l j.
              quotient_edge (test_succ b g.nodes i l j) (test_succ b g.nodes i l id)
                (test_succ b g.nodes id l j) (test_succ b g.nodes id l id) (super == j) (super == i)
                (i == id) (j == id) (is_allowed b g i l j) (is_allowed b g id l j)
                (test_succ b g1.nodes i l j) (test_succ b g1.nodes id l j)
                (test_succ b g2.nodes i l j) (test_succ b h.nodes i l j) (adds1 i l j)
                (adds1 id l j) (adds2 i l j)
                (drops i l j ∙ ap (λ (t : Bool). t && not (i == id || j == id)) (same3 i l j))
                (allowed_from g super id i l j ne),
        )

    outgoing :
        (g1 : ConstraintGraph b) (n : CgNode b)
        → get_elem? g.nodes id ≡ some n
        → merge_incoming b (edges b n.pred_cons) super g ≡ done g1
        → Incoming g1
        → IsInverse b g1
        → Keeps b g g1
        → Collapsed
    outgoing g1 n a e1 adds1 v1 keeps1 =
        let size = super_at_lt b id g.nodes none root in
        let (n1, a1) = node_at b laws id g1.nodes (omega (arith, keeps1.same_size)) in
        let (g2, e2, v2, keeps2, adds2) =
          merge_outgoing_lem b laws (edges b n1.succ_cons) super g1 v1
            (super_kept b g g1 keeps1 super ∙ root')
            (λ l j m.
              super_kept b g g1 keeps1 j
              ∙ target_root g1 l j adds1 (sym (listed-succs l j id g1.nodes n1 a1) ∙ m)) in
        clearing g1 g2 n n1 a e1 a1 e2 adds1 v2 (Keeps-trans b g g1 g2 keeps1 keeps2) (λ i l j.
          ground (
            arith,
            adds2 i l j,
            listed-succs l j id g1.nodes n1 a1,
            allowed_kept b g g1 keeps1 i l j,
          ))

    pub collapse_edges : Collapsed
    collapse_edges =
        let (n, a) = node_at b laws id g.nodes (super_at_lt b id g.nodes none root) in
        let into = λ (l : Constraints) (i : ℕ).
          listed-preds l i id g.nodes n a ∙ sym (v.is_inverse.inverse i l id) in
        let (g1, e1, v1, keeps1, adds1) =
          merge_incoming_lem b laws (edges b n.pred_cons) super g v.is_inverse root'
            (λ l i m. (v.rooted i l id (sym (into l i) ∙ m)).0) in
        outgoing g1 n a e1 (λ i l j. ground (arith, adds1 i l j, into l i)) v1 keeps1
