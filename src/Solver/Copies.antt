-- ===== src/Solver/Copies.antt =====
-- New copy edges, as `processLoad` and `processStore` of src/PointerAnalysis/Solver/SolverBase.h add
-- them.
use open_race.Prelude.{
  ℕ, ◌==◌, if◌then◌else◌, Bool, true, false, not, ◌&&◌, ◌||◌, none, some, List, [], ◌∷◌, ◌≡◌, inl,
  inr, refl, ap, ◌∙◌, sym, arith, ==_iff, Bool-cases,
}
use open_race.Trace.Build.States.{done}
use open_race.PointsTo.{BitVectors, Laws}
use open_race.ConstraintGraph.{
  Constraints, copy, index, same_kind, CgNode, ConstraintGraph, test_succ, get_super_node,
  add_constraints, add_edge, insert_constraint, report,
}
use open_race.ConstraintGraph.Edges.{super_at}
use open_race.ConstraintGraph.Inverse.{IsInverse, Keeps, Keeps-refl, Keeps-trans}
use open_race.ConstraintGraph.Collapse.Merged.{insert_at_roots}
use open_race.ConstraintGraph.Collapse.Allowed.{
  is_allowed, allowed_kept, super_kept, get_super_node-root,
}
use open_race.ConstraintGraph.Collapse.Quotient.{WellFormed}
use open_race.ConstraintGraph.Collapse.Component.{HasSupers-kept}

-- Whether the callback is called for an edge.
abbrev pub called : ℕ → ℕ → List (ℕ × ℕ) → Bool
called i j [] = false
called i j ((x, y) ∷ calls) = (x == i && y == j) || called i j calls

called_if :
    (i j p t : ℕ) (calls : List (ℕ × ℕ)) (is_new : Bool)
    → called i j (if is_new then (p, t) ∷ calls else calls)
      ≡ ((is_new && (p == i && t == j)) || called i j calls)
called_if i j p t calls true = refl
called_if i j p t calls false = refl

-- An edge after the first edge of a list and the rest.
then_edge :
    (tg th tk pi tj s ends al al' : Bool)
    → th ≡ (tg || ((pi && (s && tj)) && al))
    → tk ≡ (th || ((ends && s) && al'))
    → al' ≡ al
    → tk ≡ (tg || ((((pi && tj) || ends) && s) && al))
then_edge tg th tk pi tj s ends al al' e e' h = ground arith

then_call :
    (tg th tk here more al is_new calls : Bool)
    → th ≡ (tg || (here && al))
    → tk ≡ (th || more)
    → calls ≡ (tk && not th)
    → (here ≡ true → is_new ≡ (al && not tg))
    → ((is_new && here) || calls) ≡ (tk && not tg)
then_call tg th tk true more al is_new calls e e' c h = ground (arith, h refl)
then_call tg th tk false more al is_new calls e e' c h = ground arith

module _ (b : BitVectors) (laws : Laws b) where
  new_at :
      (g : ConstraintGraph b) (p t i j : ℕ)
      → (p == i && t == j) ≡ true
      → (is_allowed b g p copy t && not (test_succ b g.nodes p copy t))
        ≡ (is_allowed b g i copy j && not (test_succ b g.nodes i copy j))
  new_at g p t i j here =
      let e : p ≡ i = (==_iff p i).0 (ground arith) in
      let e' : t ≡ j = (==_iff t j).0 (ground arith) in rw (e, e') refl

  copy_copy : same_kind copy copy ≡ true
  unfolding same_kind index
  copy_copy = refl

  -- A call of the callback changes no node.
  same_nodes :
      (g h : ConstraintGraph b)
      → h.nodes ≡ g.nodes
      → h.obj_vec ≡ g.obj_vec
      → IsInverse b g
      → IsInverse b h × Keeps b g h
  same_nodes g h p q v = (
    record { inverse = λ i l j. rw p (v.inverse i l j) },
    record {
      fixed = λ i. rw p refl;
      same_size = rw p refl;
      same_merged = rw p refl;
      same_objects = q;
    },
  )

  add_edge-false :
      (p t : ℕ) (k : Constraints) (g h : ConstraintGraph b)
      → insert_constraint b p t k g ≡ done (false, h)
      → add_edge b p t k g ≡ done (false, h)
  unfolding add_edge
  add_edge-false p t k g h e = rw e refl

  add_edge-true :
      (p t : ℕ) (k : Constraints) (g h : ConstraintGraph b)
      → insert_constraint b p t k g ≡ done (true, h)
      → get_super_node b h p ≡ done p
      → get_super_node b h t ≡ done t
      → add_edge b p t k g ≡ done (true, report b p t k h)
  unfolding add_edge
  add_edge-true p t k g h e s s' = rw (e, s, s') refl

  reported :
      (p t : ℕ) (k : Constraints) (g : ConstraintGraph b)
      → ((report b p t k g).nodes ≡ g.nodes) × ((report b p t k g).obj_vec ≡ g.obj_vec)
  unfolding report
  reported p t k g = (ground arith, ground arith)

  -- The copy edge from one node to another one is there in the end, unless it is left out.
  abbrev pub Copied : ℕ → ℕ → ConstraintGraph b → Bool → ConstraintGraph b → Type 0
  Copied p t g is_new h =
      (is_new ≡ (is_allowed b g p copy t && not (test_succ b g.nodes p copy t)))
      × IsInverse b h
      × Keeps b g h
      × ((i : ℕ) (l : Constraints) (j : ℕ)
          → test_succ b h.nodes i l j ≡ (
              test_succ b g.nodes i l j
              || ((p == i && (same_kind copy l && t == j)) && is_allowed b g i l j)))

  add_copy_edge :
      (p t : ℕ) (g : ConstraintGraph b)
      → IsInverse b g
      → super_at b g.nodes p ≡ some none
      → super_at b g.nodes t ≡ some none
      → (is_new : Bool) × (h : ConstraintGraph b) × (add_edge b p t copy g ≡ done (is_new, h))
        × Copied p t g is_new h
  add_copy_edge p t g v root root' =
      let (h, e, w, keeps, adds) = insert_at_roots b laws p t copy g v root root' in
      elim (Bool-cases (is_allowed b g p copy t && not (test_succ b g.nodes p copy t))) [
        | inl is_new ↦
            let (nodes, objects) = reported p t copy h in
            let (w', keeps') = same_nodes h (report b p t copy h) nodes objects w in
            let root_h = super_kept b g h keeps p ∙ root in
            let root_h' = super_kept b g h keeps t ∙ root' in
            (
              true,
              report b p t copy h,
              add_edge-true p t copy g h (e ∙ ap (λ (x : Bool). done (x, h)) is_new)
                  (get_super_node-root b h p root_h) (get_super_node-root b h t root_h'),
              (
                sym is_new,
                w',
                Keeps-trans b g h (report b p t copy h) keeps keeps',
                λ i l j. ap (λ (ns : List (CgNode b)). test_succ b ns i l j) nodes ∙ adds i l j,
              ),
            )
        | inr old ↦ (
          false,
          h,
          add_edge-false p t copy g h (e ∙ ap (λ (x : Bool). done (x, h)) old),
          (sym old, w, keeps, adds),
        )
      ]

  same_kind-copy : (l : Constraints) → same_kind copy l ≡ same_kind l copy
  unfolding same_kind
  same_kind-copy l = ground (arith, ==_iff (index copy) (index l), ==_iff (index l) (index copy))

  add_constraints-copy :
      (p t : ℕ) (g : ConstraintGraph b)
      → add_constraints b p t copy g ≡ (if p == t then done (false, g) else add_edge b p t copy g)
  unfolding add_constraints index
  add_constraints-copy p t g = ground arith

  pub add_copy :
      (p t : ℕ) (g : ConstraintGraph b)
      → IsInverse b g
      → super_at b g.nodes p ≡ some none
      → super_at b g.nodes t ≡ some none
      → (is_new : Bool) × (h : ConstraintGraph b) × (add_constraints b p t copy g
          ≡ done (is_new, h))
        × Copied p t g is_new h
  add_copy p t g v root root' = elim (Bool-cases (p == t)) [
    | inl same ↦ (
      false,
      g,
      add_constraints-copy p t g ∙ rw same refl,
      (
        ground (arith, copy_copy),
        v,
        Keeps-refl b g,
        λ i l j. ground (arith, ==_iff p t, ==_iff p i, ==_iff t j, ==_iff i j, same_kind-copy l),
      ),
    )
    | inr apart ↦
        let (is_new, h, e, copied) = add_copy_edge p t g v root root' in
        (is_new, h, add_constraints-copy p t g ∙ rw apart e, copied)
  ]

  -- What the loops of `processLoad` and `processStore` do for a list of edges: the graph is well formed
  -- again, no node is changed otherwise, and the callback is called for just the new edges.
  pub record Copies (ends : List (ℕ × ℕ)) (g : ConstraintGraph b) (changed : Bool)
      (calls : List (ℕ × ℕ)) (h : ConstraintGraph b) : Type 0 where
    pub well_formed : WellFormed b laws h
    pub keeps : Keeps b g h
    pub edges :
        (i : ℕ) (l : Constraints) (j : ℕ)
        → test_succ b h.nodes i l j ≡ (
            test_succ b g.nodes i l j
            || ((called i j ends && same_kind copy l) && is_allowed b g i l j))
    pub new_calls :
        (i j : ℕ)
        → called i j calls ≡ (test_succ b h.nodes i copy j && not (test_succ b g.nodes i copy j))
    pub none_changed : changed ≡ false → calls ≡ []

  pub Copied-WellFormed :
      (p t : ℕ) (g h : ConstraintGraph b) (is_new : Bool)
      → WellFormed b laws g
      → super_at b g.nodes p ≡ some none
      → super_at b g.nodes t ≡ some none
      → Copied p t g is_new h
      → WellFormed b laws h
  Copied-WellFormed p t g h is_new v root root' (_, w, keeps, adds) = record {
    is_inverse = w;
    has_supers = HasSupers-kept b laws g h keeps v.has_supers;
    rooted = λ i l j edge. elim (Bool-cases (test_succ b g.nodes i l j)) [
      | inl old ↦
          let (r, r') = v.rooted i l j old in
          (super_kept b g h keeps i ∙ r, super_kept b g h keeps j ∙ r')
      | inr new ↦
          let at_i : p ≡ i = (==_iff p i).0 (ground (arith, adds i l j)) in
          let at_j : t ≡ j = (==_iff t j).0 (ground (arith, adds i l j)) in
          (
            super_kept b g h keeps i ∙ rw (← at_i) root,
            super_kept b g h keeps j ∙ rw (← at_j) root',
          )
    ];
  }

  pub add_further :
      (p t : ℕ) (ends : List (ℕ × ℕ)) (g h k : ConstraintGraph b) (is_new changed : Bool)
      (calls : List (ℕ × ℕ))
      → Copied p t g is_new h
      → Copies ends h changed calls k
      → Copies ((p, t) ∷ ends) g (is_new || changed) (if is_new then (p, t) ∷ calls else calls) k
  add_further p t ends g h k is_new changed calls (new, w, keeps, adds) c = record {
    well_formed = c.well_formed;
    keeps = Keeps-trans b g h k keeps c.keeps;
    edges = λ i l j.
        then_edge (test_succ b g.nodes i l j) (test_succ b h.nodes i l j)
          (test_succ b k.nodes i l j) (p == i) (t == j) (same_kind copy l) (called i j ends)
          (is_allowed b g i l j) (is_allowed b h i l j) (adds i l j) (c.edges i l j)
          (allowed_kept b g h keeps i l j);
    new_calls = λ i j.
        called_if i j p t calls is_new
        ∙ then_call (test_succ b g.nodes i copy j) (test_succ b h.nodes i copy j)
            (test_succ b k.nodes i copy j) (p == i && t == j)
            ((called i j ends && same_kind copy copy) && is_allowed b h i copy j)
            (is_allowed b g i copy j) is_new (called i j calls)
            (ground (arith, adds i copy j, copy_copy)) (c.edges i copy j) (c.new_calls i j)
            (λ here. new ∙ new_at g p t i j here);
    none_changed = λ e. ground (arith, c.none_changed);
  }

  -- The loop over no edge.
  pub add_nothing : (g : ConstraintGraph b) → WellFormed b laws g → Copies [] g false [] g
  add_nothing g v = record {
    well_formed = v;
    keeps = Keeps-refl b g;
    edges = λ i l j. ground arith;
    new_calls = λ i j. ground arith;
    none_changed = λ e. refl;
  }
