-- ===== src/ConstraintGraph/Collapse/Whole.antt =====
-- `collapseSCCTo` of src/PointerAnalysis/Graph/ConstraintGraph/ConstraintGraph.h makes the nodes of a
-- component one node.
use open_race.Prelude.{
  ℕ, ◌==◌, if◌then◌else◌, true, false, none, some, List, [], ◌∷◌, ◌≡◌, ◌≢◌, refl, ap, ◌∙◌, sym,
  arith, ==_iff, inl, inr, Bool-cases,
}
use open_race.Trace.Build.States.{done, contains}
use open_race.PointsTo.{BitVectors, Laws}
use open_race.ConstraintGraph.{
  Constraints, ConstraintGraph, test_succ, get_super_node, get_node, has_super_node, assert,
}
use open_race.ConstraintGraph.Edges.{super_at}
use open_race.ConstraintGraph.Collapse.{collapse_all, assert_no_super, collapse_scc_to}
use open_race.ConstraintGraph.Collapse.Allowed.{immutable_at, is_allowed}
use open_race.ConstraintGraph.Collapse.Quotient.{WellFormed, one_node}
use open_race.ConstraintGraph.Collapse.Component.{collapse_node_lem}
use open_race.ConstraintGraph.Collapse.Moved.{
  rep, moved, rep_cons, rep_self, Distinct, one_node-kept, one_node-from,
}

module _ (b : BitVectors) (laws : Laws b) where
  -- The second graph is the first one with the nodes of the list and the super node made one node.
  pub record IsQuotient (scc : List ℕ) (super : ℕ) (g h : ConstraintGraph b) : Type 0 where
    pub well_formed : WellFormed b laws h
    -- `getSuperNode` gives the super node in place of a node of the list.
    pub supers :
        (i r : ℕ) → get_super_node b g i ≡ done r → get_super_node b h i ≡ done (rep scc super r)
    -- Each edge is there, but those that `insertConstraint` leaves out.
    pub kept :
        (i : ℕ) (l : Constraints) (j : ℕ)
        → test_succ b g.nodes i l j ≡ true
        → is_allowed b g (rep scc super i) l (rep scc super j) ≡ true
        → test_succ b h.nodes (rep scc super i) l (rep scc super j) ≡ true
    -- Each edge comes from an edge.
    pub only :
        (i : ℕ) (l : Constraints) (j : ℕ)
        → test_succ b h.nodes i l j ≡ true
        → (i' : ℕ) × (j' : ℕ) × (test_succ b g.nodes i' l j' ≡ true)
          × (rep scc super i' ≡ i)
          × (rep scc super j' ≡ j)

  IsQuotient-same :
      (scc scc' : List ℕ) (super : ℕ) (g h : ConstraintGraph b)
      → ((i : ℕ) → rep scc' super i ≡ rep scc super i)
      → IsQuotient scc super g h
      → IsQuotient scc' super g h
  IsQuotient-same scc scc' super g h same v = record {
    well_formed = v.well_formed;
    supers = λ i r found. rw (same r) (v.supers i r found);
    kept = λ i l j edge. rw (same i, same j) (v.kept i l j edge);
    only = λ i l j edge.
        let (i', j', edge', p, q) = v.only i l j edge in (i', j', edge', same i' ∙ p, same j' ∙ q);
  }

  allowed_before :
      (g : ConstraintGraph b) (ids : List ℕ) (super x : ℕ) (l : Constraints) (y : ℕ)
      → (contains y ids ≡ true → immutable_at b g.nodes y ≡ false)
      → is_allowed b g (rep ids super x) l (rep ids super y) ≡ true
      → is_allowed b g x l y ≡ true
  allowed_before g ids super x l y mutable h = elim (Bool-cases (contains y ids)) [
    | inl inside ↦ elim (Bool-cases (contains x ids)) [
      | inl inside' ↦ ground (arith, ==_iff super super, mutable inside)
      | inr outside ↦ ground (arith, mutable inside, apart x y outside inside)
    ]
    | inr outside ↦ elim (Bool-cases (contains x ids)) [
      | inl inside ↦ ground (arith, apart y x outside inside, ==_iff x y, ==_iff y x)
      | inr outside' ↦ ground arith
    ]
  ]
    where
      apart : (u w : ℕ) → contains u ids ≡ false → contains w ids ≡ true → (u == w) ≡ false
      apart u w out inside = ground (arith, ==_iff u w)

  allowed_same :
      (g h : ConstraintGraph b) (i : ℕ) (l : Constraints) (j : ℕ)
      → immutable_at b h.nodes j ≡ immutable_at b g.nodes j
      → is_allowed b g i l j ≡ true
      → is_allowed b h i l j ≡ true
  allowed_same g h i l j e a = ground arith

  not_in_rest :
      (id i : ℕ) (ids : List ℕ)
      → contains id ids ≡ false
      → contains i ids ≡ true
      → (i == id) ≡ false
  not_in_rest id i ids out inside = ground (arith, ==_iff i id)

  -- An edge of the graph between, on the way from one graph to the last one.
  kept_at :
      (ids : List ℕ) (super : ℕ) (g g1 h : ConstraintGraph b) (x u w : ℕ) (l : Constraints) (y : ℕ)
      → u ≡ rep ids super x
      → w ≡ rep ids super y
      → ((i : ℕ) → immutable_at b g1.nodes i ≡ immutable_at b g.nodes i)
      → (contains y ids ≡ true → immutable_at b g.nodes y ≡ false)
      → IsQuotient ids super g1 h
      → is_allowed b g u l w ≡ true
      → (is_allowed b g x l y ≡ true → test_succ b g1.nodes x l y ≡ true)
      → test_succ b h.nodes u l w ≡ true
  kept_at ids super g g1 h x u w l y p q immutables mutable v allowed edge =
      let last : is_allowed b g (rep ids super x) l (rep ids super y) ≡ true =
        rw (← p, ← q) allowed in
      rw (p, q)
        (v.kept x l y (edge (allowed_before g ids super x l y mutable last)) (
          allowed_same g g1 (rep ids super x) l (rep ids super y) (immutables (rep ids super y))
            last))

  -- The round for a node, then the rounds for the others.
  then_others :
      (id : ℕ) (ids : List ℕ) (super : ℕ) (g g1 h : ConstraintGraph b)
      → id ≢ super
      → ((i : ℕ) → contains i ids ≡ true → immutable_at b g.nodes i ≡ false)
      → ((i r : ℕ)
          → get_super_node b g i ≡ done r
          → get_super_node b g1 i ≡ done (moved id super r))
      → ((i : ℕ) (l : Constraints) (j : ℕ)
          → test_succ b g1.nodes i l j ≡ one_node b laws g super id i l j)
      → ((i : ℕ) → immutable_at b g1.nodes i ≡ immutable_at b g.nodes i)
      → IsQuotient ids super g1 h
      → IsQuotient (id ∷ ids) super g h
  then_others id ids super g g1 h ne mutable supers edges immutables v = record {
    well_formed = v.well_formed;
    supers = λ i r found.
        rw (rep_cons id ids super r) (v.supers i (moved id super r) (supers i r found));
    kept = λ i l j edge allowed.
        let x = moved id super i in
        let y = moved id super j in
        kept_at ids super g g1 h x (rep (id ∷ ids) super i) (rep (id ∷ ids) super j) l y
          (rep_cons id ids super i) (rep_cons id ids super j) immutables (mutable y) v allowed
          (λ first. edges x l y ∙ one_node-kept b laws g super id ne l i j edge first);
    only = λ i l j edge.
        let (x, y, edge1, p, q) = v.only i l j edge in
        let (i', j', edge', p', q') =
          one_node-from b laws g super id ne l x y (sym (edges x l y) ∙ edge1) in
        (
          i',
          j',
          edge',
          rep_cons id ids super i' ∙ ap (rep ids super) p' ∙ p,
          rep_cons id ids super j' ∙ ap (rep ids super) q' ∙ q,
        );
  }

  differ : (id super : ℕ) → id ≡ super → (id == super) ≢ false
  differ id super p = λ h. ground (arith, ==_iff id super)

  stays :
      (id super i : ℕ) (g : ConstraintGraph b)
      → (i == id) ≡ false
      → super_at b g.nodes i ≡ some none
      → (if i == id then some (some super) else super_at b g.nodes i) ≡ some none
  stays id super i g other root = rw other root

  -- The second loop.
  pub collapse_all_lem :
      (scc : List ℕ) (super : ℕ) (g : ConstraintGraph b)
      → WellFormed b laws g
      → super_at b g.nodes super ≡ some none
      → Distinct scc
      → ((i : ℕ) → contains i scc ≡ true → super_at b g.nodes i ≡ some none)
      → ((i : ℕ) → contains i scc ≡ true → immutable_at b g.nodes i ≡ false)
      → (h : ConstraintGraph b) × (collapse_all b scc super g ≡ done h) × IsQuotient scc super g h
  unfolding collapse_all contains
  collapse_all_lem [] super g v root distinct roots mutable = (
    g,
    refl,
    record {
      well_formed = v;
      supers = λ i r found. found;
      kept = λ i l j edge allowed. edge;
      only = λ i l j edge. (i, j, edge, refl, refl);
    },
  )
  collapse_all_lem (id ∷ ids) super g v root distinct roots mutable =
      let later : (i : ℕ) → contains i ids ≡ true → super_at b g.nodes i ≡ some none =
        λ i inside. roots i (ground arith) in
      let mutable_later : (i : ℕ) → contains i ids ≡ true → immutable_at b g.nodes i ≡ false =
        λ i inside. mutable i (ground arith) in
      elim (Bool-cases (id == super)) [
        | inl here ↦
            let p : id ≡ super = (==_iff id super).0 here in
            let (h, e, q) = collapse_all_lem ids super g v root distinct.1 later mutable_later in
            (
              h,
              rw here e,
              IsQuotient-same ids (id ∷ ids) super g h (λ i. rw p (rep_self ids super i)) q,
            )
        | inr other ↦
            let ne : id ≢ super = λ p. absurd (differ id super p other) in
            let (g1, e1, v1, supers, edges, immutables, at) =
              collapse_node_lem b laws super id g v (roots id (ground (arith, ==_iff id id))) root
                ne in
            let (h, e, q) =
              collapse_all_lem ids super g1 v1
                (at super
                  ∙ stays id super super g (ground (arith, ==_iff super id, ==_iff id super)) root)
                distinct.1
                (λ i inside.
                  at i
                  ∙ stays id super i g (not_in_rest id i ids distinct.0 inside) (later i inside))
                (λ i inside. immutables i ∙ mutable_later i inside) in
            (
              h,
              rw (other, e1) e,
              then_others id ids super g g1 h ne mutable_later supers edges immutables q,
            )
      ]

  assert_no_super_lem :
      (scc : List ℕ) (g : ConstraintGraph b)
      → ((i : ℕ) → contains i scc ≡ true → super_at b g.nodes i ≡ some none)
      → assert_no_super b scc g ≡ done tt
  unfolding assert_no_super contains get_node has_super_node assert
  assert_no_super_lem [] g roots = refl
  assert_no_super_lem (id ∷ ids) g roots = ground (
    arith,
    roots id (ground (arith, ==_iff id id)),
    assert_no_super_lem ids g (λ i inside. roots i (ground arith)),
  )

  -- Where the graph is well formed, and the super node and the nodes of a component are nodes without a
  -- super node, distinct and not immutable, `collapseSCCTo` meets no assertion that fails, and makes the
  -- nodes and the super node one node of a well-formed graph: `getSuperNode` gives the super node in
  -- place of each of them, each edge is kept, but a copy edge that becomes a loop and an edge to an
  -- immutable node, and each edge comes from an edge.
  pub collapse_scc_to-IsQuotient :
      (scc : List ℕ) (super : ℕ) (g : ConstraintGraph b)
      → WellFormed b laws g
      → super_at b g.nodes super ≡ some none
      → Distinct scc
      → ((i : ℕ) → contains i scc ≡ true → super_at b g.nodes i ≡ some none)
      → ((i : ℕ) → contains i scc ≡ true → immutable_at b g.nodes i ≡ false)
      → (h : ConstraintGraph b) × (collapse_scc_to b scc super g ≡ done h)
        × IsQuotient scc super g h
  unfolding collapse_scc_to
  collapse_scc_to-IsQuotient scc super g v root distinct roots mutable =
      let (h, e, q) = collapse_all_lem scc super g v root distinct roots mutable in
      (h, rw (assert_no_super_lem scc g roots) e, q)
