-- ===== src/ConstraintGraph/Supers.antt =====
-- The super nodes of the constraint graph, `getSuperNode` and `setSuperNode` of
-- src/PointerAnalysis/Graph/ConstraintGraph/CGNodeBase.h: the loop of `getSuperNode` ends.
use open_race.Prelude.{
  ℕ, zero, suc, ◌<◌, ◌==◌, if◌then◌else◌, Option, none, some, List, [], ◌∷◌, ◌≡◌, ◌≢◌, ◌⊎◌, inl,
  inr, refl, length, get_elem?, arith, Option-cases, ==_iff, Bool-cases,
}
use open_race.Trace.Build.States.{done}
use open_race.PointsTo.{BitVectors, modify}
use open_race.PointsTo.Inverse.{length-modify}
use open_race.ConstraintGraph.{
  CgNode, ConstraintGraph, update_node, merged, follow_super, get_super_node, set_super_node,
}
use open_race.ConstraintGraph.Edges.{super_at}

module _ (b : BitVectors) where
  abbrev pub merge_into : ℕ → ℕ → List (CgNode b) → List (CgNode b)
  unfolding modify
  merge_into a c = modify a (λ (n : CgNode b). record n { super_node = some c })

  pub super_at-merge_into :
      (a c i : ℕ) (ns : List (CgNode b))
      → super_at b ns a ≡ some none
      → super_at b (merge_into a c ns) i ≡ (if i == a then some (some c) else super_at b ns i)
  unfolding modify
  super_at-merge_into a c i [] h = absurd (ground arith)
  super_at-merge_into zero c zero (n ∷ ns) h = refl
  super_at-merge_into zero c (suc i) (n ∷ ns) h = ground arith
  super_at-merge_into (suc a) c zero (n ∷ ns) h = ground arith
  super_at-merge_into (suc a) c (suc i) (n ∷ ns) h = ground (arith, super_at-merge_into a c i ns h)

  merged-merge_into :
      (a c : ℕ) (ns : List (CgNode b))
      → super_at b ns a ≡ some none
      → merged b (merge_into a c ns) ≡ suc (merged b ns)
  unfolding modify merged
  merged-merge_into a c [] h = absurd (ground arith)
  merged-merge_into zero c (n ∷ ns) h = ground arith
  merged-merge_into (suc a) c (n ∷ ns) h = elim (Option-cases n.super_node) [
    | inl root ↦ ground (arith, merged-merge_into a c ns h)
    | inr (m, up) ↦ ground (arith, merged-merge_into a c ns h)
  ]

  -- The loop by what it reads.
  follow_super-zero : (i r : ℕ) (ns : List (CgNode b)) → follow_super b zero ns i ≢ done r
  unfolding follow_super
  follow_super-zero i r ns = λ h. cc

  pub follow_super-root :
      (f i : ℕ) (ns : List (CgNode b))
      → super_at b ns i ≡ some none
      → follow_super b (suc f) ns i ≡ done i
  unfolding follow_super
  follow_super-root f i ns h = ground arith

  follow_super-up :
      (f i m : ℕ) (ns : List (CgNode b))
      → super_at b ns i ≡ some (some m)
      → follow_super b (suc f) ns i ≡ follow_super b f ns m
  unfolding follow_super
  follow_super-up f i m ns h = ground arith

  super_at-cases :
      (f i r : ℕ) (ns : List (CgNode b))
      → follow_super b (suc f) ns i ≡ done r
      → (super_at b ns i ≡ some none) ⊎ ((m : ℕ) × (super_at b ns i ≡ some (some m)))
  unfolding follow_super
  super_at-cases f i r ns h = elim (Option-cases (get_elem? ns i)) [
    | inl out ↦ absurd (ground arith)
    | inr (n, at_n) ↦ elim (Option-cases n.super_node) [
      | inl root ↦ inl (ground arith)
      | inr (m, up) ↦ inr (m, ground arith)
    ]
  ]

  -- The loop after a root has got another root as its super node.
  follow_super-merge_into :
      (f i r a c : ℕ) (ns : List (CgNode b))
      → super_at b ns a ≡ some none
      → super_at b ns c ≡ some none
      → a ≢ c
      → follow_super b f ns i ≡ done r
      → follow_super b (suc f) (merge_into a c ns) i ≡ done (if r == a then c else r)
  follow_super-merge_into zero i r a c ns p q ne h = absurd (follow_super-zero i r ns h)
  follow_super-merge_into (suc f) i r a c ns p q ne h = elim (super_at-cases f i r ns h) [
    | inl root ↦ elim (Bool-cases (i == a)) [
      | inl here ↦ ground (
        arith,
        follow_super-root f i ns root,
        follow_super-up (suc f) i c (merge_into a c ns),
        follow_super-root f c (merge_into a c ns),
        super_at-merge_into a c i ns p,
        super_at-merge_into a c c ns p,
      )
      | inr other ↦ ground (
        arith,
        follow_super-root f i ns root,
        follow_super-root (suc f) i (merge_into a c ns),
        super_at-merge_into a c i ns p,
      )
    ]
    | inr (m, up) ↦ ground (
      arith,
      follow_super-up f i m ns up,
      follow_super-up (suc f) i m (merge_into a c ns),
      super_at-merge_into a c i ns p,
      follow_super-merge_into f m r a c ns p q ne,
    )
  ]

  pub super_at_lt :
      (i : ℕ) (ns : List (CgNode b)) (x : Option ℕ) → super_at b ns i ≡ some x → i < length ns
  super_at_lt i [] x h = absurd (ground arith)
  super_at_lt zero (n ∷ ns) x h = omega arith
  super_at_lt (suc i) (n ∷ ns) x h = omega (arith, super_at_lt i ns x h)

  -- Each node has a super node, found by the loop, that has none itself.
  pub record HasSupers (g : ConstraintGraph b) : Type 0 where
    pub find :
        (i : ℕ)
        → i < length g.nodes
        → (r : ℕ) × (get_super_node b g i ≡ done r) × (super_at b g.nodes r ≡ some none)

  -- Where each node has a super node, that is so again after a node without a super node has got another
  -- node without one, and `getSuperNode` ends and gives that other node in place of the first one, and
  -- the same node as before for all else.
  pub set_super_node-HasSupers :
      (a c : ℕ) (g : ConstraintGraph b)
      → HasSupers g
      → super_at b g.nodes a ≡ some none
      → super_at b g.nodes c ≡ some none
      → a ≢ c
      → HasSupers (set_super_node b a c g)
        × ((i r : ℕ)
            → get_super_node b g i ≡ done r
            → get_super_node b (set_super_node b a c g) i ≡ done (if r == a then c else r))
  unfolding get_super_node set_super_node update_node
  set_super_node-HasSupers a c g v p q ne =
      let ns = g.nodes in
      let moved : (i r : ℕ)
          → follow_super b (suc (merged b ns)) ns i ≡ done r
          → follow_super b (suc (merged b (merge_into a c ns))) (merge_into a c ns) i
            ≡ done (if r == a then c else r) =
        λ i r h.
          rw (merged-merge_into a c ns p)
            (follow_super-merge_into (suc (merged b ns)) i r a c ns p q ne h) in
      (
        record {
          find = λ i l.
              let (r, found, root) = v.find i (
                omega (
                  arith,
                  length-modify a (λ (n : CgNode b). record n { super_node = some c }) ns,
                )) in
              (
                if r == a then c else r,
                moved i r found,
                ground (
                  arith,
                  super_at-merge_into a c r ns p,
                  super_at-merge_into a c c ns p,
                  ==_iff c a,
                ),
              );
        },
        moved,
      )
