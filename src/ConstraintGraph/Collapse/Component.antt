-- ===== src/ConstraintGraph/Collapse/Component.antt =====
-- `collapseSCCTo` of src/PointerAnalysis/Graph/ConstraintGraph/ConstraintGraph.h, for a component.
use open_race.Prelude.{
  ℕ, ◌==◌, if◌then◌else◌, Bool, true, false, Option, none, some, ◌≡◌, ◌≢◌, refl, ap, ◌∙◌, sym,
  arith, ==_iff, inl, inr, Bool-cases,
}
use open_race.Trace.Build.States.{done}
use open_race.PointsTo.{BitVectors, Laws}
use open_race.ConstraintGraph.{
  Constraints, CgNode, ConstraintGraph, update_node, test_succ, get_super_node, set_super_node,
}
use open_race.ConstraintGraph.Edges.{part_of-modify_kept, super_at}
use open_race.ConstraintGraph.Inverse.{IsInverse, Keeps, get_super_node-kept}
use open_race.ConstraintGraph.Supers.{HasSupers, set_super_node-HasSupers, super_at-merge_into}
use open_race.ConstraintGraph.Collapse.{collapse_node}
use open_race.ConstraintGraph.Collapse.Allowed.{immutable_at, immutable_kept, super_kept}
use open_race.ConstraintGraph.Collapse.Quotient.{
  WellFormed, one_node, collapse_edges, update_node-edges,
}

module _ (b : BitVectors) (laws : Laws b) where
  pub HasSupers-kept : (g h : ConstraintGraph b) → Keeps b g h → HasSupers b g → HasSupers b h
  HasSupers-kept g h keeps v = record {
    find = λ i p.
        let (r, found, root) = v.find i (omega (arith, keeps.same_size)) in
        (r, get_super_node-kept b g h keeps i ∙ found, super_kept b g h keeps r ∙ root);
  }

  super_at-set :
      (a c i : ℕ) (g : ConstraintGraph b)
      → super_at b g.nodes a ≡ some none
      → super_at b (set_super_node b a c g).nodes i
        ≡ (if i == a then some (some c) else super_at b g.nodes i)
  unfolding set_super_node update_node
  super_at-set a c i g h = super_at-merge_into b a c i g.nodes h

  set_super_node-kept :
      (a c : ℕ) (g : ConstraintGraph b)
      → IsInverse b g
      → IsInverse b (set_super_node b a c g)
        × ((i : ℕ) (l : Constraints) (j : ℕ)
            → test_succ b (set_super_node b a c g).nodes i l j ≡ test_succ b g.nodes i l j)
        × ((i : ℕ) → immutable_at b (set_super_node b a c g).nodes i ≡ immutable_at b g.nodes i)
  unfolding set_super_node update_node
  set_super_node-kept a c g v =
      let f = λ (n : CgNode b). record n { super_node = some c } in
      let (w, same) = update_node-edges b laws a f g (λ n l. refl) (λ n l. refl) v in
      (
        w,
        same,
        λ i. part_of-modify_kept (λ (n : CgNode b). n.is_immutable) false a i f g.nodes (λ n. refl),
      )

  module _ (super id : ℕ) (g : ConstraintGraph b) (v : WellFormed b laws g)
      (root : super_at b g.nodes id ≡ some none) (root' : super_at b g.nodes super ≡ some none)
      (ne : id ≢ super) where
    source_root :
        (i : ℕ) (l : Constraints) (j : ℕ)
        → one_node b laws g super id i l j ≡ true
        → super_at b g.nodes i ≡ some none
    source_root i l j h = elim (Bool-cases (test_succ b g.nodes i l j)) [
      | inl edge ↦ (v.rooted i l j edge).0
      | inr lost ↦ elim (Bool-cases (test_succ b g.nodes i l id)) [
        | inl edge ↦ (v.rooted i l id edge).0
        | inr lost' ↦ let e : super ≡ i = (==_iff super i).0 (ground arith) in rw (← e) root'
      ]
    ]

    target_root :
        (i : ℕ) (l : Constraints) (j : ℕ)
        → one_node b laws g super id i l j ≡ true
        → super_at b g.nodes j ≡ some none
    target_root i l j h = elim (Bool-cases (test_succ b g.nodes i l j)) [
      | inl edge ↦ (v.rooted i l j edge).1
      | inr lost ↦ elim (Bool-cases (test_succ b g.nodes id l j)) [
        | inl edge ↦ (v.rooted id l j edge).1
        | inr lost' ↦ let e : super ≡ j = (==_iff super j).0 (ground arith) in rw (← e) root'
      ]
    ]

    ends :
        (i : ℕ) (l : Constraints) (j : ℕ)
        → one_node b laws g super id i l j ≡ true
        → ((i == id) ≡ false) × ((j == id) ≡ false)
    ends i l j h = (ground arith, ground arith)

    otherwise :
        {x : Option (Option ℕ)} (t : Bool)
        → x ≡ some none
        → t ≡ false
        → (if t then some (some super) else x) ≡ some none
    otherwise t h e = rw e h

    -- One round of the loop.
    pub collapse_node_lem :
        (h : ConstraintGraph b) × (collapse_node b super id g ≡ done h)
        × WellFormed b laws h
        × ((i r : ℕ)
            → get_super_node b g i ≡ done r
            → get_super_node b h i ≡ done (if r == id then super else r))
        × ((i : ℕ) (l : Constraints) (j : ℕ)
            → test_succ b h.nodes i l j ≡ one_node b laws g super id i l j)
        × ((i : ℕ) → immutable_at b h.nodes i ≡ immutable_at b g.nodes i)
        × ((i : ℕ)
            → super_at b h.nodes i ≡ (if i == id then some (some super) else super_at b g.nodes i))
    collapse_node_lem =
        let (h, e, w, keeps, edge) = collapse_edges b laws super id g v root root' ne in
        let rooted = super_kept b g h keeps id ∙ root in
        let (supers, moved) =
          set_super_node-HasSupers b id super h (HasSupers-kept g h keeps v.has_supers) rooted
            (super_kept b g h keeps super ∙ root') ne in
        let (w', same, mutable) = set_super_node-kept id super h w in
        let at : (i : ℕ)
            → super_at b (set_super_node b id super h).nodes i
              ≡ (if i == id then some (some super) else super_at b g.nodes i) =
          λ i.
            super_at-set id super i h rooted
            ∙ ap (λ (x : Option (Option ℕ)). if i == id then some (some super) else x)
                (super_kept b g h keeps i) in
        let edges = λ (i : ℕ) (l : Constraints) (j : ℕ). same i l j ∙ edge i l j in
        (
          set_super_node b id super h,
          e,
          record {
            is_inverse = w';
            has_supers = supers;
            rooted = λ i l j m.
                let one : one_node b laws g super id i l j ≡ true = sym (edges i l j) ∙ m in
                (
                  at i ∙ otherwise (i == id) (source_root i l j one) (ends i l j one).0,
                  at j ∙ otherwise (j == id) (target_root i l j one) (ends i l j one).1,
                );
          },
          λ i r found. moved i r (get_super_node-kept b g h keeps i ∙ found),
          edges,
          λ i. mutable i ∙ immutable_kept b g h keeps i,
          at,
        )
