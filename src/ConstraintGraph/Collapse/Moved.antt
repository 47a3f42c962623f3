-- ===== src/ConstraintGraph/Collapse/Moved.antt =====
-- Where the ends of edges move to in `collapseSCCTo` of
-- src/PointerAnalysis/Graph/ConstraintGraph/ConstraintGraph.h.
use open_race.Prelude.{
  ℕ, ◌==◌, if◌then◌else◌, true, false, ◌&&◌, List, [], ◌∷◌, ◌≡◌, ◌≢◌, ap, ◌∙◌, sym, arith, ==_iff,
  inl, inr, Bool-cases,
}
use open_race.Trace.Build.States.{contains}
use open_race.PointsTo.{BitVectors, Laws}
use open_race.ConstraintGraph.{Constraints, ConstraintGraph, test_succ}
use open_race.ConstraintGraph.Collapse.Allowed.{is_allowed}
use open_race.ConstraintGraph.Collapse.Quotient.{one_node}

-- The node that stands for a node when a list of nodes has been collapsed to a super node.
abbrev pub rep : List ℕ → ℕ → ℕ → ℕ
rep scc super i = if contains i scc then super else i

abbrev pub moved : ℕ → ℕ → ℕ → ℕ
moved id super i = if i == id then super else i

rep-super : (ids : List ℕ) (super : ℕ) → rep ids super super ≡ super
rep-super ids super = ground arith

pub rep_cons :
    (id : ℕ) (ids : List ℕ) (super i : ℕ)
    → rep (id ∷ ids) super i ≡ rep ids super (moved id super i)
unfolding contains
rep_cons id ids super i = elim (Bool-cases (i == id)) [
  | inl here ↦ rw here (ground (arith, ==_iff id i, ==_iff i id, rep-super ids super))
  | inr other ↦ rw other (ground (arith, ==_iff id i, ==_iff i id))
]

pub rep_self : (ids : List ℕ) (super i : ℕ) → rep (super ∷ ids) super i ≡ rep ids super i
unfolding contains
rep_self ids super i = ground (arith, ==_iff super i)

abbrev pub Distinct : List ℕ → Type 0
Distinct [] = Unit
Distinct (id ∷ ids) = (contains id ids ≡ false) × Distinct ids

module _ (b : BitVectors) (laws : Laws b) where
  module _ (g : ConstraintGraph b) (super id : ℕ) (ne : id ≢ super) (l : Constraints) where
    at_ends :
        (m n x y : ℕ)
        → m ≡ x
        → n ≡ y
        → is_allowed b g m l n ≡ true
        → (is_allowed b g x l y ≡ true → one_node b laws g super id x l y ≡ true)
        → one_node b laws g super id m l n ≡ true
    at_ends m n x y p q allowed kept =
        let allowed' : is_allowed b g x l y ≡ true = rw (← p, ← q) allowed in
        rw (p, q) (kept allowed')

    pub one_node-kept :
        (i j : ℕ)
        → test_succ b g.nodes i l j ≡ true
        → is_allowed b g (moved id super i) l (moved id super j) ≡ true
        → one_node b laws g super id (moved id super i) l (moved id super j) ≡ true
    one_node-kept i j edge allowed = elim (Bool-cases (i == id)) [
      | inl at_i ↦ elim (Bool-cases (j == id)) [
        | inl at_j ↦
            let p : i ≡ id = (==_iff i id).0 at_i in
            let q : j ≡ id = (==_iff j id).0 at_j in
            let edge' : test_succ b g.nodes id l id ≡ true =
              ap (λ (x : ℕ). test_succ b g.nodes x l id) (sym p)
              ∙ ap (λ (x : ℕ). test_succ b g.nodes i l x) (sym q)
              ∙ edge in
            at_ends (moved id super i) (moved id super j) super super (ground arith) (ground arith)
              allowed (λ a. ground (arith, ==_iff super id, ==_iff super super))
        | inr other ↦
            let p : i ≡ id = (==_iff i id).0 at_i in
            let edge' : test_succ b g.nodes id l j ≡ true =
              ap (λ (x : ℕ). test_succ b g.nodes x l j) (sym p) ∙ edge in
            at_ends (moved id super i) (moved id super j) super j (ground arith) (ground arith)
              allowed (λ a. ground (arith, ==_iff super id, ==_iff super super))
      ]
      | inr other ↦ elim (Bool-cases (j == id)) [
        | inl at_j ↦
            let q : j ≡ id = (==_iff j id).0 at_j in
            let edge' : test_succ b g.nodes i l id ≡ true =
              ap (λ (x : ℕ). test_succ b g.nodes i l x) (sym q) ∙ edge in
            at_ends (moved id super i) (moved id super j) i super (ground arith) (ground arith)
              allowed (λ a. ground (arith, ==_iff super id, ==_iff super super))
        | inr other' ↦
            at_ends (moved id super i) (moved id super j) i j (ground arith) (ground arith) allowed
              (λ a. ground arith)
      ]
    ]

    pub one_node-from :
        (i j : ℕ)
        → one_node b laws g super id i l j ≡ true
        → (i' : ℕ) × (j' : ℕ) × (test_succ b g.nodes i' l j' ≡ true)
          × (moved id super i' ≡ i)
          × (moved id super j' ≡ j)
    one_node-from i j h = elim (Bool-cases (test_succ b g.nodes i l j)) [
      | inl edge ↦ (i, j, edge, ground arith, ground arith)
      | inr lost ↦ elim (Bool-cases (super == j && test_succ b g.nodes i l id)) [
        | inl edge ↦
            (i, id, ground arith, ground arith, ground (arith, ==_iff id id, ==_iff super j))
        | inr lost' ↦ elim (Bool-cases (test_succ b g.nodes id l j)) [
          | inl edge ↦ (id, j, edge, ground (arith, ==_iff id id, ==_iff super i), ground arith)
          | inr lost'' ↦ (
            id,
            id,
            ground arith,
            ground (arith, ==_iff id id, ==_iff super i),
            ground (arith, ==_iff id id, ==_iff super j),
          )
        ]
      ]
    ]
