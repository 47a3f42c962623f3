-- ===== src/ConstraintGraph/Collapse/Allowed.antt =====
-- What `insertConstraint` of src/PointerAnalysis/Graph/ConstraintGraph/CGNodeBase.h leaves out, for nodes
-- without a super node.
use open_race.Prelude.{
  ℕ, ◌==◌, Bool, true, false, not, ◌&&◌, ◌||◌, Option, none, some, List, [], ◌∷◌, ◌++◌, ◌≡◌, inl,
  inr, refl, ap, get_elem?, arith, ==_iff, Bool-cases, Option-cases,
}
use open_race.Trace.Build.States.{done}
use open_race.PointsTo.{BitVectors}
use open_race.ConstraintGraph.{
  Constraints, copy, special, index, same_kind, CgNode, ConstraintGraph, get_super_node,
}
use open_race.ConstraintGraph.Edges.{part_of, super_at}
use open_race.ConstraintGraph.Inverse.{is_left_out, Keeps}
use open_race.ConstraintGraph.Supers.{follow_super-root}
use open_race.ConstraintGraph.Collapse.Kinds.{same_kind-eq}

-- Whether an edge with the kind and the other end is in the list.
abbrev pub listed : Constraints → ℕ → List (Constraints × ℕ) → Bool
listed l j [] = false
listed l j ((k, i) ∷ es) = (same_kind k l && i == j) || listed l j es

pub same_kind_refl : (k : Constraints) → same_kind k k ≡ true
unfolding same_kind
same_kind_refl k = ground (arith, ==_iff (index k) (index k))

pub listed-append :
    (l : Constraints) (j : ℕ) (xs ys : List (Constraints × ℕ))
    → listed l j (xs ++ ys) ≡ (listed l j xs || listed l j ys)
listed-append l j [] ys = refl
listed-append l j ((k, i) ∷ xs) ys = ground (arith, listed-append l j xs ys)

-- The edges after the first edge of a list and the rest.
pub then_incoming :
    (t t1 t2 p k s rest al al1 : Bool)
    → t1 ≡ (t || ((p && (k && s)) && al))
    → t2 ≡ (t1 || ((s && rest) && al1))
    → al1 ≡ al
    → t2 ≡ (t || ((s && ((k && p) || rest)) && al))
then_incoming t t1 t2 p k s rest al al1 e e' h = ground arith

pub then_outgoing :
    (t t1 t2 p k s rest al al1 : Bool)
    → t1 ≡ (t || ((s && (k && p)) && al))
    → t2 ≡ (t1 || ((s && rest) && al1))
    → al1 ≡ al
    → t2 ≡ (t || ((s && ((k && p) || rest)) && al))
then_outgoing t t1 t2 p k s rest al al1 e e' h = ground arith

module _ (b : BitVectors) where
  abbrev pub immutable_at : List (CgNode b) → ℕ → Bool
  immutable_at = part_of (λ (n : CgNode b). n.is_immutable) false

  -- Whether `insertConstraint` does not leave the edge out.
  abbrev pub is_allowed : ConstraintGraph b → ℕ → Constraints → ℕ → Bool
  is_allowed g i l j =
      not ((not (same_kind l special) && immutable_at g.nodes j) || (i == j && same_kind l copy))

  pub immutable_kept :
      (g h : ConstraintGraph b)
      → Keeps b g h
      → (i : ℕ) → immutable_at h.nodes i ≡ immutable_at g.nodes i
  immutable_kept g h v i = elim (Option-cases (get_elem? h.nodes i)) [
    | inl out ↦ elim (Option-cases (get_elem? g.nodes i)) [
      | inl out' ↦ ground arith
      | inr (m, at_m) ↦ absurd (ground (arith, v.fixed i))
    ]
    | inr (n, at_n) ↦ elim (Option-cases (get_elem? g.nodes i)) [
      | inl out' ↦ absurd (ground (arith, v.fixed i))
      | inr (m, at_m) ↦ ground (arith, v.fixed i)
    ]
  ]

  pub allowed_kept :
      (g h : ConstraintGraph b)
      → Keeps b g h
      → (i : ℕ) (l : Constraints) (j : ℕ) → is_allowed h i l j ≡ is_allowed g i l j
  allowed_kept g h v i l j =
      ap (λ (m : Bool). not ((not (same_kind l special) && m) || (i == j && same_kind l copy)))
        (immutable_kept g h v j)

  pub super_kept :
      (g h : ConstraintGraph b)
      → Keeps b g h
      → (i : ℕ) → super_at b h.nodes i ≡ super_at b g.nodes i
  super_kept g h v i = elim (Option-cases (get_elem? h.nodes i)) [
    | inl out ↦ elim (Option-cases (get_elem? g.nodes i)) [
      | inl out' ↦ ground arith
      | inr (m, at_m) ↦ absurd (ground (arith, v.fixed i))
    ]
    | inr (n, at_n) ↦ elim (Option-cases (get_elem? g.nodes i)) [
      | inl out' ↦ absurd (ground (arith, v.fixed i))
      | inr (m, at_m) ↦ ground (arith, v.fixed i)
    ]
  ]

  pub get_super_node-root :
      (g : ConstraintGraph b) (i : ℕ)
      → super_at b g.nodes i ≡ some none
      → get_super_node b g i ≡ done i
  unfolding get_super_node
  get_super_node-root g i h = follow_super-root b _ i g.nodes h

  pub node_of_super :
      (ns : List (CgNode b)) (i : ℕ) (x : Option ℕ)
      → super_at b ns i ≡ some x
      → (n : CgNode b) × (get_elem? ns i ≡ some n)
  node_of_super ns i x h = elim (Option-cases (get_elem? ns i)) [
    | inl out ↦ absurd (ground arith)
    | inr found ↦ found
  ]

  immutable_of_node :
      (ns : List (CgNode b)) (i j : ℕ) (n : CgNode b)
      → get_elem? ns i ≡ some n
      → (i == j) ≡ true
      → immutable_at ns j ≡ n.is_immutable
  immutable_of_node ns i j n h e = let p : i ≡ j = (==_iff i j).0 e in rw (← p) (ground arith)

  pub allowed_edge :
      (g : ConstraintGraph b) (n : CgNode b) (p t : ℕ) (k : Constraints) (i : ℕ) (l : Constraints)
      (j : ℕ)
      → get_elem? g.nodes t ≡ some n
      → (not (is_left_out b n p k t) && (i == p && (same_kind k l && t == j)))
        ≡ ((p == i && (same_kind k l && t == j)) && is_allowed g i l j)
  allowed_edge g n p t k i l j h = elim (Bool-cases (p == i && (same_kind k l && t == j))) [
    | inl same ↦
        let e : k ≡ l = same_kind-eq k l (ground arith) in
        ground (
          arith,
          ap (λ (m : Constraints). same_kind m special) e,
          ap (λ (m : Constraints). same_kind m copy) e,
          immutable_of_node g.nodes t j n h,
          ==_iff p i,
          ==_iff i p,
          ==_iff t j,
          ==_iff p t,
          ==_iff i j,
        )
    | inr other ↦ ground (arith, ==_iff p i, ==_iff i p)
  ]

  pub left_out_allowed :
      (g : ConstraintGraph b) (n : CgNode b) (p : ℕ) (k : Constraints) (t : ℕ)
      → get_elem? g.nodes t ≡ some n
      → is_left_out b n p k t
        ≡ ((not (same_kind k special) && immutable_at g.nodes t) || (p == t && same_kind k copy))
  left_out_allowed g n p k t h = ground (arith, immutable_of_node g.nodes t t n h, ==_iff t t)
