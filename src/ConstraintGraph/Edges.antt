-- ===== src/ConstraintGraph/Edges.antt =====
-- The edges of the constraint graph: `insertConstraint` of
-- src/PointerAnalysis/Graph/ConstraintGraph/CGNodeBase.h, and the super nodes that it does not change.
use open_race.Prelude.{
  ℕ, zero, suc, ◌==◌, ltb, ◌&&◌, ◌||◌, Option, none, some, List, [], ◌∷◌, ◌≡◌, inl, inr, refl,
  length, get_elem?, arith, Option-cases,
}
use open_race.PointsTo.{BitVectors, Laws, modify}
use open_race.ConstraintGraph.{
  Constraints, same_kind, CgNode, set_cons, test_succ, test_pred, merged, follow_super,
}

-- A part of the node with an id, or a default.
abbrev pub part_of {ℓ κ} : {A : Type ℓ} {B : Type κ} → (A → B) → B → List A → ℕ → B
part_of p default ns id = elim (get_elem? ns id) [ none ↦ default | some n ↦ p n ]

pub part_of-modify_kept {ℓ κ} :
    {A : Type ℓ} {B : Type κ} (p : A → B) (default : B) (k i : ℕ) (f : A → A) (ns : List A)
    → ((n : A) → p (f n) ≡ p n)
    → part_of p default (modify k f ns) i ≡ part_of p default ns i
unfolding modify
part_of-modify_kept p d k i f [] h = refl
part_of-modify_kept p d zero zero f (n ∷ ns) h = h n
part_of-modify_kept p d zero (suc i) f (n ∷ ns) h = refl
part_of-modify_kept p d (suc k) zero f (n ∷ ns) h = refl
part_of-modify_kept p d (suc k) (suc i) f (n ∷ ns) h = part_of-modify_kept p d k i f ns h

module _ (b : BitVectors) where
  abbrev pub super_at : List (CgNode b) → ℕ → Option (Option ℕ)
  super_at = part_of (λ (n : CgNode b). some n.super_node) none

  pub follow_super-same :
      (fuel : ℕ) (ns ms : List (CgNode b)) (id : ℕ)
      → ((i : ℕ) → super_at ns i ≡ super_at ms i)
      → follow_super b fuel ns id ≡ follow_super b fuel ms id
  unfolding follow_super
  follow_super-same zero ns ms id h = refl
  follow_super-same (suc fuel) ns ms id h = elim (Option-cases (get_elem? ns id)) [
    | inl out ↦ elim (Option-cases (get_elem? ms id)) [
      | inl out' ↦ ground arith
      | inr (m, at_m) ↦ absurd (ground (arith, h id))
    ]
    | inr (n, at_n) ↦ elim (Option-cases (get_elem? ms id)) [
      | inl out' ↦ absurd (ground (arith, h id))
      | inr (m, at_m) ↦
          let e : n.super_node ≡ m.super_node = ground (arith, h id) in
          elim (Option-cases n.super_node) [
            | inl root ↦ ground arith
            | inr (up, found) ↦ ground (arith, follow_super-same fuel ns ms up h)
          ]
    ]
  ]

  pub merged-modify :
      (k : ℕ) (f : CgNode b → CgNode b) (ns : List (CgNode b))
      → ((n : CgNode b) → (f n).super_node ≡ n.super_node)
      → merged b (modify k f ns) ≡ merged b ns
  unfolding merged modify
  merged-modify k f [] h = refl
  merged-modify zero f (n ∷ ns) h = ground (arith, h n)
  merged-modify (suc k) f (n ∷ ns) h = ground (arith, merged-modify k f ns h)

  module _ (laws : Laws b) where
    pub test_succ-add_succ :
        (id : ℕ) (k : Constraints) (target i : ℕ) (l : Constraints) (j : ℕ) (ns : List (CgNode b))
        → test_succ b
            (modify id
              (λ (n : CgNode b). record n {
                succ_cons = set_cons b k (λ v. b.set v target) n.succ_cons;
              })
              ns)
            i
            l
            j
          ≡ (test_succ b ns i l j
              || (i == id && (same_kind k l && (target == j && ltb id (length ns)))))
    unfolding test_succ modify set_cons
    test_succ-add_succ id k t i l j [] = ground arith
    test_succ-add_succ zero k t zero l j (n ∷ ns) =
        ground (arith, laws.test-set (n.succ_cons l) t j)
    test_succ-add_succ zero k t (suc i) l j (n ∷ ns) = ground arith
    test_succ-add_succ (suc id) k t zero l j (n ∷ ns) = ground arith
    test_succ-add_succ (suc id) k t (suc i) l j (n ∷ ns) =
        ground (arith, test_succ-add_succ id k t i l j ns)

    pub test_pred-add_pred :
        (id : ℕ) (k : Constraints) (source i : ℕ) (l : Constraints) (j : ℕ) (ns : List (CgNode b))
        → test_pred b
            (modify id
              (λ (n : CgNode b). record n {
                pred_cons = set_cons b k (λ v. b.set v source) n.pred_cons;
              })
              ns)
            i
            l
            j
          ≡ (test_pred b ns i l j
              || (i == id && (same_kind k l && (source == j && ltb id (length ns)))))
    unfolding test_pred modify set_cons
    test_pred-add_pred id k t i l j [] = ground arith
    test_pred-add_pred zero k t zero l j (n ∷ ns) =
        ground (arith, laws.test-set (n.pred_cons l) t j)
    test_pred-add_pred zero k t (suc i) l j (n ∷ ns) = ground arith
    test_pred-add_pred (suc id) k t zero l j (n ∷ ns) = ground arith
    test_pred-add_pred (suc id) k t (suc i) l j (n ∷ ns) =
        ground (arith, test_pred-add_pred id k t i l j ns)
