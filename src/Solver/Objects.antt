-- ===== src/Solver/Objects.antt =====
-- `processLoad` and `processStore` of src/PointerAnalysis/Solver/SolverBase.h.
use open_race.Prelude.{
  ℕ, ◌<◌, if◌then◌else◌, Bool, false, ◌||◌, none, some, List, [], ◌∷◌, ◌≡◌, refl, ap, ◌∙◌, length,
  get_elem?, arith,
}
use open_race.Trace.Build.States.{done}
use open_race.PointsTo.{BitVectors, Laws}
use open_race.ConstraintGraph.{ConstraintGraph, get_super_node, get_object_node}
use open_race.ConstraintGraph.Edges.{super_at}
use open_race.ConstraintGraph.Inverse.{Keeps, get_super_node-kept}
use open_race.ConstraintGraph.Collapse.Allowed.{super_kept}
use open_race.ConstraintGraph.Collapse.Quotient.{WellFormed}
use open_race.Solver.{load_objects, store_objects, process_load, process_store, assert_no_super}
use open_race.Solver.Copies.{Copies, Copied-WellFormed, add_copy, add_further, add_nothing}

module _ (b : BitVectors) (laws : Laws b) where
  -- The nodes that stand for the nodes of objects.
  abbrev pub Resolved : List ℕ → List ℕ → ConstraintGraph b → Type 0
  Resolved [] [] g = Unit
  Resolved [] (r ∷ rs) g = ⊥
  Resolved (o ∷ os) [] g = ⊥
  Resolved (o ∷ os) (r ∷ rs) g =
      ((id : ℕ) × (get_elem? g.obj_vec o ≡ some id)
        × (get_super_node b g id ≡ done r)
        × (super_at b g.nodes r ≡ some none))
      × Resolved os rs g

  abbrev pub into : ℕ → List ℕ → List (ℕ × ℕ)
  into dst [] = []
  into dst (r ∷ rs) = (r, dst) ∷ into dst rs

  abbrev pub out_of : ℕ → List ℕ → List (ℕ × ℕ)
  out_of src [] = []
  out_of src (r ∷ rs) = (src, r) ∷ out_of src rs

  Resolved-kept :
      (os rs : List ℕ) (g h : ConstraintGraph b) → Keeps b g h → Resolved os rs g → Resolved os rs h
  Resolved-kept [] [] g h keeps r = tt
  Resolved-kept [] (r ∷ rs) g h keeps v = v
  Resolved-kept (o ∷ os) [] g h keeps v = v
  Resolved-kept (o ∷ os) (r ∷ rs) g h keeps ((id, object, found, root), rest) = (
    (
      id,
      ap (λ (xs : List ℕ). get_elem? xs o) keeps.same_objects ∙ object,
      get_super_node-kept b g h keeps id ∙ found,
      super_kept b g h keeps r ∙ root,
    ),
    Resolved-kept os rs g h keeps rest,
  )

  load_objects-Copies :
      (os rs : List ℕ) (dst : ℕ) (g : ConstraintGraph b)
      → WellFormed b laws g
      → super_at b g.nodes dst ≡ some none
      → Resolved os rs g
      → (changed : Bool) × (calls : List (ℕ × ℕ)) × (h : ConstraintGraph b) × (load_objects b os dst
            g
          ≡ done (changed, calls, h))
        × Copies b laws (into dst rs) g changed calls h
  unfolding load_objects get_object_node
  load_objects-Copies [] [] dst g v root r = (false, [], g, refl, add_nothing b laws g v)
  load_objects-Copies [] (r ∷ rs) dst g v root bad = absurd bad
  load_objects-Copies (o ∷ os) [] dst g v root bad = absurd bad
  load_objects-Copies (o ∷ os) (r ∷ rs) dst g v root ((id, object, found, root'), rest) =
      let (is_new, g1, e1, copied) = add_copy b laws r dst g v.is_inverse root' root in
      let keeps = copied.2 in
      let (changed, calls, h, e, c) =
        load_objects-Copies os rs dst g1
          (Copied-WellFormed b laws r dst g g1 is_new v root' root copied)
          (super_kept b g g1 keeps dst ∙ root) (Resolved-kept os rs g g1 keeps rest) in
      (
        is_new || changed,
        if is_new then (r, dst) ∷ calls else calls,
        h,
        rw (object, found, e1, e) refl,
        add_further b laws r dst (into dst rs) g g1 h is_new changed calls copied c,
      )

  store_objects-Copies :
      (os rs : List ℕ) (src : ℕ) (g : ConstraintGraph b)
      → WellFormed b laws g
      → super_at b g.nodes src ≡ some none
      → Resolved os rs g
      → (changed : Bool) × (calls : List (ℕ × ℕ)) × (h : ConstraintGraph b) × (store_objects b os
            src g
          ≡ done (changed, calls, h))
        × Copies b laws (out_of src rs) g changed calls h
  unfolding store_objects get_object_node
  store_objects-Copies [] [] src g v root r = (false, [], g, refl, add_nothing b laws g v)
  store_objects-Copies [] (r ∷ rs) src g v root bad = absurd bad
  store_objects-Copies (o ∷ os) [] src g v root bad = absurd bad
  store_objects-Copies (o ∷ os) (r ∷ rs) src g v root ((id, object, found, root'), rest) =
      let (is_new, g1, e1, copied) = add_copy b laws src r g v.is_inverse root root' in
      let keeps = copied.2 in
      let (changed, calls, h, e, c) =
        store_objects-Copies os rs src g1
          (Copied-WellFormed b laws src r g g1 is_new v root root' copied)
          (super_kept b g g1 keeps src ∙ root) (Resolved-kept os rs g g1 keeps rest) in
      (
        is_new || changed,
        if is_new then (src, r) ∷ calls else calls,
        h,
        rw (object, found, e1, e) refl,
        add_further b laws src r (out_of src rs) g g1 h is_new changed calls copied c,
      )

  -- The targets of points-to sets are objects that have nodes.
  abbrev pub AreObjects : List ℕ → ConstraintGraph b → Type 0
  AreObjects [] g = Unit
  AreObjects (o ∷ os) g =
      ((id : ℕ) × (get_elem? g.obj_vec o ≡ some id) × (id < length g.nodes)) × AreObjects os g

  resolve :
      (os : List ℕ) (g : ConstraintGraph b)
      → WellFormed b laws g
      → AreObjects os g
      → (rs : List ℕ) × Resolved os rs g
  resolve [] g v objects = ([], tt)
  resolve (o ∷ os) g v ((id, object, below), rest) =
      let (r, found, root) = v.has_supers.find id below in
      let (rs, resolved) = resolve os g v rest in (r ∷ rs, ((id, object, found, root), resolved))

  assert_root :
      (id : ℕ) (g : ConstraintGraph b)
      → super_at b g.nodes id ≡ some none
      → assert_no_super b id g ≡ done tt
  unfolding assert_no_super
  assert_root id g root = ground arith

  -- Where the graph is well formed, the ends have no super node and the targets of the source are
  -- objects, `processLoad` meets no assertion that fails. It adds just the copy edges from the super
  -- nodes of the targets' nodes to the destination, but those that `insertConstraint` leaves out, and
  -- calls the callback for just the new ones; the graph is well formed again.
  pub process_load-Copies :
      (src dst : ℕ) (pts : List b.Bits) (g : ConstraintGraph b) (v : b.Bits)
      → WellFormed b laws g
      → super_at b g.nodes src ≡ some none
      → super_at b g.nodes dst ≡ some none
      → get_elem? pts src ≡ some v
      → AreObjects (b.elements v) g
      → (rs : List ℕ) × (changed : Bool) × (calls : List (ℕ × ℕ)) × (h : ConstraintGraph b)
        × (process_load b src dst pts g ≡ done (changed, calls, h))
        × Resolved (b.elements v) rs g
        × Copies b laws (into dst rs) g changed calls h
  unfolding process_load
  process_load-Copies src dst pts g v w root root' at_src objects =
      let (rs, resolved) = resolve (b.elements v) g w objects in
      let (changed, calls, h, e, c) =
        load_objects-Copies (b.elements v) rs dst g w root' resolved in
      (
        rs,
        changed,
        calls,
        h,
        rw (assert_root src g root, assert_root dst g root', at_src) e,
        resolved,
        c,
      )

  -- Where the graph is well formed, the ends have no super node and the targets of the destination are
  -- objects, `processStore` meets no assertion that fails. It adds just the copy edges from the source
  -- to the super nodes of the targets' nodes, but those that `insertConstraint` leaves out, and calls
  -- the callback for just the new ones; the graph is well formed again.
  pub process_store-Copies :
      (src dst : ℕ) (pts : List b.Bits) (g : ConstraintGraph b) (v : b.Bits)
      → WellFormed b laws g
      → super_at b g.nodes src ≡ some none
      → super_at b g.nodes dst ≡ some none
      → get_elem? pts dst ≡ some v
      → AreObjects (b.elements v) g
      → (rs : List ℕ) × (changed : Bool) × (calls : List (ℕ × ℕ)) × (h : ConstraintGraph b)
        × (process_store b src dst pts g ≡ done (changed, calls, h))
        × Resolved (b.elements v) rs g
        × Copies b laws (out_of src rs) g changed calls h
  unfolding process_store
  process_store-Copies src dst pts g v w root root' at_dst objects =
      let (rs, resolved) = resolve (b.elements v) g w objects in
      let (changed, calls, h, e, c) =
        store_objects-Copies (b.elements v) rs src g w root resolved in
      (
        rs,
        changed,
        calls,
        h,
        rw (assert_root src g root, assert_root dst g root', at_dst) e,
        resolved,
        c,
      )
