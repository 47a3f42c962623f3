-- ===== src/ConstraintGraph/Collapse/Merged.antt =====
-- The loops of `collapseSCCTo` (src/PointerAnalysis/Graph/ConstraintGraph/ConstraintGraph.h) that give
-- the edges of a node to the super node.
use open_race.Prelude.{
  ℕ, ◌==◌, Bool, true, not, ◌&&◌, ◌||◌, none, some, List, [], ◌∷◌, ◌++◌, ◌≡◌, inl, inr, refl, ap,
  ◌∙◌, arith, ==_iff, Bool-cases,
}
use open_race.Trace.Build.States.{done, contains}
use open_race.PointsTo.{BitVectors, Laws}
use open_race.ConstraintGraph.{
  Constraints, load, store, copy, addr_of, offset, special, same_kind, ConstraintGraph, test_succ,
  insert_constraint,
}
use open_race.ConstraintGraph.Edges.{super_at}
use open_race.ConstraintGraph.Inverse.{
  IsInverse, Keeps, Keeps-refl, Keeps-trans, insert_constraint-IsInverse,
}
use open_race.ConstraintGraph.Supers.{super_at_lt}
use open_race.ConstraintGraph.Collapse.{with_kind, edges, merge_incoming, merge_outgoing}
use open_race.ConstraintGraph.Collapse.Kinds.{same_kind-eq, every_kind}
use open_race.ConstraintGraph.Collapse.Allowed.{
  listed, same_kind_refl, listed-append, then_incoming, then_outgoing, is_allowed, allowed_kept,
  super_kept, get_super_node-root, node_of_super, allowed_edge, left_out_allowed,
}

module _ (b : BitVectors) where
  module _ (laws : Laws b) where
    pub test_succ-kind :
        (i j : ℕ) (k l : Constraints) (g : ConstraintGraph b)
        → same_kind k l ≡ true
        → test_succ b g.nodes i k j ≡ test_succ b g.nodes i l j
    test_succ-kind i j k l g h =
        ap (λ (m : Constraints). test_succ b g.nodes i m j) (same_kind-eq k l h)

    pub insert_at_roots :
        (p t : ℕ) (k : Constraints) (g : ConstraintGraph b)
        → IsInverse b g
        → super_at b g.nodes p ≡ some none
        → super_at b g.nodes t ≡ some none
        → (h : ConstraintGraph b) × (insert_constraint b p t k g
            ≡ done (is_allowed b g p k t && not (test_succ b g.nodes p k t), h))
          × IsInverse b h
          × Keeps b g h
          × ((i : ℕ) (l : Constraints) (j : ℕ)
              → test_succ b h.nodes i l j ≡ (
                  test_succ b g.nodes i l j
                  || ((p == i && (same_kind k l && t == j)) && is_allowed b g i l j)))
    insert_at_roots p t k g v root root' =
        let (n, at_n) = node_of_super b g.nodes t none root' in
        let (h, e, w, keeps, adds) =
          insert_constraint-IsInverse b laws p t k g n p t v at_n (get_super_node-root b g p root)
            (get_super_node-root b g t root') (super_at_lt b p g.nodes none root)
            (super_at_lt b t g.nodes none root') in
        (
          h,
          e
              ∙ ap (λ (x : Bool). done (not x && not (test_succ b g.nodes p k t), h))
                  (left_out_allowed b g n p k t at_n),
          w,
          keeps,
          λ i l j. ground (arith, adds i l j, allowed_edge b g n p t k i l j at_n),
        )

    pub merge_incoming_lem :
        (es : List (Constraints × ℕ)) (super : ℕ) (g : ConstraintGraph b)
        → IsInverse b g
        → super_at b g.nodes super ≡ some none
        → ((l : Constraints) (i : ℕ) → listed l i es ≡ true → super_at b g.nodes i ≡ some none)
        → (h : ConstraintGraph b) × (merge_incoming b es super g ≡ done h)
          × IsInverse b h
          × Keeps b g h
          × ((i : ℕ) (l : Constraints) (j : ℕ)
              → test_succ b h.nodes i l j ≡ (
                  test_succ b g.nodes i l j
                  || ((super == j && listed l i es) && is_allowed b g i l j)))
    unfolding merge_incoming
    merge_incoming_lem [] super g v root roots = (g, refl, v, Keeps-refl b g, λ i l j. ground arith)
    merge_incoming_lem ((k, p) ∷ es) super g v root roots =
        let (g1, e, v1, keeps, adds) =
          insert_at_roots p super k g v (roots k p (ground (arith, same_kind_refl k, ==_iff p p)))
            root in
        let (h, e', w, keeps', adds') =
          merge_incoming_lem es super g1 v1 (super_kept b g g1 keeps super ∙ root)
            (λ l i m. super_kept b g g1 keeps i ∙ roots l i (ground arith)) in
        (
          h,
          rw e e',
          w,
          Keeps-trans b g g1 h keeps keeps',
          λ i l j.
              then_incoming _ _ _ (p == i) (same_kind k l) (super == j) (listed l i es) _ _
                (adds i l j) (adds' i l j) (allowed_kept b g g1 keeps i l j),
        )

    pub merge_outgoing_lem :
        (es : List (Constraints × ℕ)) (super : ℕ) (g : ConstraintGraph b)
        → IsInverse b g
        → super_at b g.nodes super ≡ some none
        → ((l : Constraints) (i : ℕ) → listed l i es ≡ true → super_at b g.nodes i ≡ some none)
        → (h : ConstraintGraph b) × (merge_outgoing b es super g ≡ done h)
          × IsInverse b h
          × Keeps b g h
          × ((i : ℕ) (l : Constraints) (j : ℕ)
              → test_succ b h.nodes i l j ≡ (
                  test_succ b g.nodes i l j
                  || ((super == i && listed l j es) && is_allowed b g i l j)))
    unfolding merge_outgoing
    merge_outgoing_lem [] super g v root roots = (g, refl, v, Keeps-refl b g, λ i l j. ground arith)
    merge_outgoing_lem ((k, t) ∷ es) super g v root roots =
        let (g1, e, v1, keeps, adds) =
          insert_at_roots super t k g v root
            (roots k t (ground (arith, same_kind_refl k, ==_iff t t))) in
        let (h, e', w, keeps', adds') =
          merge_outgoing_lem es super g1 v1 (super_kept b g g1 keeps super ∙ root)
            (λ l i m. super_kept b g g1 keeps i ∙ roots l i (ground arith)) in
        (
          h,
          rw e e',
          w,
          Keeps-trans b g g1 h keeps keeps',
          λ i l j.
              then_outgoing _ _ _ (t == j) (same_kind k l) (super == i) (listed l j es) _ _
                (adds i l j) (adds' i l j) (allowed_kept b g g1 keeps i l j),
        )

    listed-with_kind :
        (l : Constraints) (j : ℕ) (k : Constraints) (ids : List ℕ)
        → listed l j (with_kind k ids) ≡ (same_kind k l && contains j ids)
    unfolding with_kind contains
    listed-with_kind l j k [] = ground arith
    listed-with_kind l j k (i ∷ ids) = ground (arith, listed-with_kind l j k ids)

    listed_kind :
        (l : Constraints) (j : ℕ) (k : Constraints) (cons : Constraints → b.Bits)
        (more : List (Constraints × ℕ))
        → listed l j (with_kind k (b.elements (cons k)) ++ more)
          ≡ ((same_kind k l && b.test (cons l) j) || listed l j more)
    listed_kind l j k cons more = elim (Bool-cases (same_kind k l)) [
      | inl same ↦ ground (
        arith,
        listed-append l j (with_kind k (b.elements (cons k))) more,
        listed-with_kind l j k (b.elements (cons k)),
        laws.contains-elements (cons k) j,
        ap (λ (m : Constraints). b.test (cons m) j) (same_kind-eq k l same),
      )
      | inr other ↦ ground (
        arith,
        listed-append l j (with_kind k (b.elements (cons k))) more,
        listed-with_kind l j k (b.elements (cons k)),
      )
    ]

    -- The edge iterators go over the edges of the sets.
    pub listed-edges :
        (l : Constraints) (j : ℕ) (cons : Constraints → b.Bits)
        → listed l j (edges b cons) ≡ b.test (cons l) j
    unfolding edges
    listed-edges l j cons =
        let part = λ (k : Constraints). with_kind k (b.elements (cons k)) in
        let es5 = part load ++ [] in
        let es4 = part store ++ es5 in
        let es3 = part copy ++ es4 in
        let es2 = part addr_of ++ es3 in
        let es1 = part offset ++ es2 in
        ground (
          arith,
          every_kind l,
          listed_kind l j load cons [],
          listed_kind l j store cons es5,
          listed_kind l j copy cons es4,
          listed_kind l j addr_of cons es3,
          listed_kind l j offset cons es2,
          listed_kind l j special cons es1,
        )
