-- ===== src/ConstraintGraph/Inverse.antt =====
-- The successor and the predecessor sets of the constraint graph are inverse to one another, so that
-- the assertion at the end of `insertConstraint` (src/PointerAnalysis/Graph/ConstraintGraph/
-- CGNodeBase.h) holds.
use open_race.Prelude.{
  ℕ, suc, ◌<◌, ◌==◌, ltb, Bool, true, false, not, ◌&&◌, ◌||◌, Option, none, some, List, ◌≡◌, inl,
  inr, refl, ◌∙◌, length, get_elem?, arith, Bool-cases, Option-cases, ==_iff,
}
use open_race.Trace.Build.States.{done}
use open_race.PointsTo.{BitVectors, Laws, modify}
use open_race.PointsTo.Inverse.{length-modify}
use open_race.ConstraintGraph.{
  Constraints, special, copy, same_kind, CgNodeKind, CgNode, ConstraintGraph, update_node, set_cons,
  add_succ, add_pred, test_succ, test_pred, link, merged, get_node, get_super_node,
  insert_constraint,
}
use open_race.ConstraintGraph.Edges.{
  part_of, part_of-modify_kept, super_at, follow_super-same, merged-modify, test_succ-add_succ,
  test_pred-add_pred,
}

module _ (b : BitVectors) where
  pub record IsInverse (g : ConstraintGraph b) : Type 0 where
    pub inverse :
        (i : ℕ) (k : Constraints) (j : ℕ) → test_succ b g.nodes i k j ≡ test_pred b g.nodes j k i

  -- What no insertion of an edge changes.
  abbrev pub fixed_part : CgNode b → Option (CgNodeKind × Option ℕ × Bool)
  fixed_part n = some (n.kind, n.super_node, n.is_immutable)

  abbrev pub fixed_at : List (CgNode b) → ℕ → Option (CgNodeKind × Option ℕ × Bool)
  fixed_at = part_of fixed_part none

  pub record Keeps (g h : ConstraintGraph b) : Type 0 where
    pub fixed : (i : ℕ) → fixed_at h.nodes i ≡ fixed_at g.nodes i
    pub same_size : length h.nodes ≡ length g.nodes
    pub same_merged : merged b h.nodes ≡ merged b g.nodes
    pub same_objects : h.obj_vec ≡ g.obj_vec

  -- The second graph has one edge more than the first one, where the test is true, and no edge more
  -- where it is false.
  abbrev pub Adds : Bool → ℕ → Constraints → ℕ → ConstraintGraph b → ConstraintGraph b → Type 0
  Adds added src k dst g h =
      (i : ℕ) (l : Constraints) (j : ℕ)
      → test_succ b h.nodes i l j
        ≡ (test_succ b g.nodes i l j || (added && (i == src && (same_kind k l && dst == j))))

  pub Keeps-refl : (g : ConstraintGraph b) → Keeps g g
  Keeps-refl g = record {
    fixed = λ i. refl;
    same_size = refl;
    same_merged = refl;
    same_objects = refl;
  }

  pub Keeps-trans : (g h k : ConstraintGraph b) → Keeps g h → Keeps h k → Keeps g k
  Keeps-trans g h k v w = record {
    fixed = λ i. w.fixed i ∙ v.fixed i;
    same_size = w.same_size ∙ v.same_size;
    same_merged = w.same_merged ∙ v.same_merged;
    same_objects = w.same_objects ∙ v.same_objects;
  }

  pub update_node-Keeps :
      (id : ℕ) (f : CgNode b → CgNode b) (g : ConstraintGraph b)
      → ((n : CgNode b) → fixed_part (f n) ≡ fixed_part n)
      → ((n : CgNode b) → (f n).super_node ≡ n.super_node)
      → Keeps g (update_node b id f g)
  unfolding update_node
  update_node-Keeps id f g p q = record {
    fixed = λ i. part_of-modify_kept fixed_part none id i f g.nodes p;
    same_size = length-modify id f g.nodes;
    same_merged = merged-modify b id f g.nodes q;
    same_objects = refl;
  }

  module _ (src : ℕ) (k : Constraints) (dst : ℕ) (g : ConstraintGraph b) where
    linked-Keeps : Keeps g (add_pred b dst k src (add_succ b src k dst g))
    unfolding add_pred add_succ
    linked-Keeps =
        Keeps-trans g (add_succ b src k dst g) (add_pred b dst k src (add_succ b src k dst g))
          (update_node-Keeps src
            (λ (n : CgNode b). record n { succ_cons = set_cons b k (λ v. b.set v dst) n.succ_cons })
            g (λ n. refl) (λ n. refl))
          (update_node-Keeps dst
            (λ (n : CgNode b). record n { pred_cons = set_cons b k (λ v. b.set v src) n.pred_cons })
            (add_succ b src k dst g) (λ n. refl) (λ n. refl))

    -- The edge is new on both sides, or on neither.
    linked :
        IsInverse g
        → link b src k dst g
          ≡ done
              (not (test_succ b g.nodes src k dst), add_pred b dst k src (add_succ b src k dst g))
    unfolding link add_succ update_node test_pred
    linked v =
        let f =
          λ (n : CgNode b). record n { succ_cons = set_cons b k (λ v. b.set v dst) n.succ_cons } in
        ground (
          arith,
          v.inverse src k dst,
          part_of-modify_kept (λ (n : CgNode b). b.test (n.pred_cons k) src) false src dst f g.nodes
              (λ n. refl),
        )

    module _ (laws : Laws b) where
      linked-succ :
          (i : ℕ) (l : Constraints) (j : ℕ)
          → test_succ b (add_pred b dst k src (add_succ b src k dst g)).nodes i l j ≡ (
              test_succ b g.nodes i l j
              || (i == src && (same_kind k l && (dst == j && ltb src (length g.nodes)))))
      unfolding add_pred add_succ update_node test_succ
      linked-succ i l j =
          let f = λ (n : CgNode b). record n {
            succ_cons = set_cons b k (λ v. b.set v dst) n.succ_cons;
          } in
          part_of-modify_kept (λ (n : CgNode b). b.test (n.succ_cons l) j) false dst i
            (λ (n : CgNode b). record n { pred_cons = set_cons b k (λ v. b.set v src) n.pred_cons })
            (modify src f g.nodes) (λ n. refl)
          ∙ test_succ-add_succ b laws src k dst i l j g.nodes

      linked-pred :
          (i : ℕ) (l : Constraints) (j : ℕ)
          → test_pred b (add_pred b dst k src (add_succ b src k dst g)).nodes i l j ≡ (
              test_pred b g.nodes i l j
              || (i == dst && (same_kind k l && (src == j && ltb dst (length g.nodes)))))
      unfolding add_pred add_succ update_node test_pred
      linked-pred i l j =
          let f = λ (n : CgNode b). record n {
            succ_cons = set_cons b k (λ v. b.set v dst) n.succ_cons;
          } in
          let same =
            part_of-modify_kept (λ (n : CgNode b). b.test (n.pred_cons l) j) false src i f g.nodes
              (λ n. refl) in
          ground (
            arith,
            test_pred-add_pred b laws dst k src i l j (modify src f g.nodes),
            same,
            length-modify src f g.nodes,
          )

      pub link_lem :
          IsInverse g
          → src < length g.nodes
          → dst < length g.nodes
          → (h : ConstraintGraph b) × (link b src k dst g
              ≡ done (not (test_succ b g.nodes src k dst), h))
            × IsInverse h
            × Keeps g h
            × Adds true src k dst g h
      link_lem v p q =
          let h = add_pred b dst k src (add_succ b src k dst g) in
          (
            h,
            linked v,
            record {
              inverse = λ i l j. ground (
                arith,
                linked-succ i l j,
                linked-pred j l i,
                v.inverse i l j,
                ==_iff i src,
                ==_iff src i,
                ==_iff j dst,
                ==_iff dst j,
              );
            },
            linked-Keeps,
            λ i l j. ground (arith, linked-succ i l j),
          )

  super_of_fixed :
      (g h : ConstraintGraph b) → Keeps g h → (i : ℕ) → super_at b h.nodes i ≡ super_at b g.nodes i
  super_of_fixed g h v i = elim (Option-cases (get_elem? h.nodes i)) [
    | inl out ↦ elim (Option-cases (get_elem? g.nodes i)) [
      | inl out' ↦ ground arith
      | inr (m, at_m) ↦ absurd (ground (arith, v.fixed i))
    ]
    | inr (n, at_n) ↦ elim (Option-cases (get_elem? g.nodes i)) [
      | inl out' ↦ absurd (ground (arith, v.fixed i))
      | inr (m, at_m) ↦ ground (arith, v.fixed i)
    ]
  ]

  -- An insertion of an edge changes no super node.
  pub get_super_node-kept :
      (g h : ConstraintGraph b)
      → Keeps g h
      → (id : ℕ) → get_super_node b h id ≡ get_super_node b g id
  unfolding get_super_node
  get_super_node-kept g h v id =
      rw v.same_merged
        (follow_super-same b (suc (merged b g.nodes)) h.nodes g.nodes id (super_of_fixed g h v))

  -- Whether `insertConstraint` leaves the edge out.
  abbrev pub is_left_out : CgNode b → ℕ → Constraints → ℕ → Bool
  is_left_out n src k dst =
      (not (same_kind k special) && n.is_immutable) || (src == dst && same_kind k copy)

  -- Where the sets are inverse, `insertConstraint` of two nodes with super nodes meets no assertion that
  -- fails and keeps the sets inverse; the edge goes between the super nodes, it is the only new one, and
  -- the result is whether it is new. An edge to an immutable node that is not special, and a copy edge
  -- from a super node to itself, are left out.
  pub insert_constraint-IsInverse :
      (laws : Laws b) (self node : ℕ) (k : Constraints) (g : ConstraintGraph b) (n : CgNode b)
      (src dst : ℕ)
      → IsInverse g
      → get_elem? g.nodes node ≡ some n
      → get_super_node b g self ≡ done src
      → get_super_node b g node ≡ done dst
      → src < length g.nodes
      → dst < length g.nodes
      → (h : ConstraintGraph b) × (insert_constraint b self node k g
          ≡ done (not (is_left_out n src k dst) && not (test_succ b g.nodes src k dst), h))
        × IsInverse h
        × Keeps g h
        × Adds (not (is_left_out n src k dst)) src k dst g h
  unfolding insert_constraint get_node
  insert_constraint-IsInverse laws self node k g n src dst v at_node s d p q =
      elim (Bool-cases (is_left_out n src k dst)) [
        | inl out ↦ (g, ground arith, v, Keeps-refl g, λ i l j. ground arith)
        | inr kept ↦
            let (h, e, w, keeps, adds) = link_lem src k dst g laws v p q in
            (h, ground arith, w, keeps, λ i l j. ground (arith, adds i l j))
      ]
