-- ===== src/PointsTo/BitVector.antt =====
-- The points-to sets without an inverse, in src/PointerAnalysis/Solver/PointsTo/BitVectorPTS.h.
use open_race.Prelude.{
  ℕ, ◌<◌, ◌==◌, ltb, leb, if◌then◌else◌, Bool, true, false, not, ◌&&◌, ◌||◌, Option, none, some,
  List, [], ◌∷◌, ◌++◌, ◌≡◌, inl, inr, length, get_elem?, arith, Option-cases,
}
use open_race.PointsTo.{BitVectors, Laws, modify, test_at, reset_below}
use open_race.PointsTo.Inverse.{
  length-modify, test_at-modify_join, get_elem?-some, test_at-get_elem?,
}

module _ (b : BitVectors) where
  unfoldable pub on_new_node_creation : ℕ → List b.Bits → Option (List b.Bits)
  on_new_node_creation id vs = if id == length vs then some (vs ++ b.empty ∷ []) else none

  -- The assertion on the last target.
  unfoldable pub is_last_below : Option ℕ → ℕ → Bool
  is_last_below none size = true
  is_last_below (some last) size = ltb last size

  -- `unionWith`, with whether the set changes.
  unfoldable pub union_with : ℕ → ℕ → List b.Bits → Option (Bool × List b.Bits)
  unfolding modify is_last_below
  union_with src dst vs = elim (get_elem? vs src) [
    | none ↦ none
    | some v ↦ elim (get_elem? vs dst) [
      | none ↦ none
      | some w ↦
          if is_last_below (b.find_last (b.join v w)) (length vs)
          then some (b.changes v w, modify src (λ u. b.join u w) vs)
          else none
    ]
  ]

  -- `insert`, with whether the target is new.
  unfoldable pub insert : ℕ → ℕ → List b.Bits → Option (Bool × List b.Bits)
  unfolding modify test_at
  insert src idx vs =
      if ltb src (length vs) && ltb idx (length vs)
      then some (not (test_at b vs src idx), modify src (λ v. b.set v idx) vs)
      else none

  unfoldable pub has : ℕ → ℕ → List b.Bits → Option Bool
  unfolding test_at
  has src idx vs =
      if ltb src (length vs) && ltb idx (length vs) then some (test_at b vs src idx) else none

  unfoldable pub clear : ℕ → List b.Bits → Option (List b.Bits)
  unfolding modify
  clear id vs = if ltb id (length vs) then some (modify id (λ v. b.empty) vs) else none

  unfoldable pub intersect_with : ℕ → ℕ → List b.Bits → Option Bool
  intersect_with src dst vs = elim (get_elem? vs src) [
    | none ↦ none
    | some v ↦ elim (get_elem? vs dst) [ none ↦ none | some w ↦ some (b.intersects v w) ]
  ]

  unfoldable pub intersect_with_no_special_node : ℕ → ℕ → ℕ → List b.Bits → Option Bool
  unfolding reset_below
  intersect_with_no_special_node start src dst vs = elim (get_elem? vs src) [
    | none ↦ none
    | some v ↦ elim (get_elem? vs dst) [
      | none ↦ none
      | some w ↦ some (not (b.is_empty (reset_below b start (b.meet v w))))
    ]
  ]

  unfoldable pub equal : ℕ → ℕ → List b.Bits → Option Bool
  equal src dst vs = elim (get_elem? vs src) [
    | none ↦ none
    | some v ↦ elim (get_elem? vs dst) [ none ↦ none | some w ↦ some (b.equal v w) ]
  ]

  unfoldable pub contains_set : ℕ → ℕ → List b.Bits → Option Bool
  contains_set src dst vs = elim (get_elem? vs src) [
    | none ↦ none
    | some v ↦ elim (get_elem? vs dst) [ none ↦ none | some w ↦ some (b.contains_all v w) ]
  ]

  unfoldable pub is_empty : ℕ → List b.Bits → Option Bool
  is_empty id vs = elim (get_elem? vs id) [ none ↦ none | some v ↦ some (b.is_empty v) ]

  unfoldable pub count : ℕ → List b.Bits → Option ℕ
  count id vs = elim (get_elem? vs id) [ none ↦ none | some v ↦ some (b.count v) ]

  abbrev pub clear_all : List b.Bits
  clear_all = []

  union_with-some :
      (src dst : ℕ) (vs : List b.Bits) (v w : b.Bits)
      → get_elem? vs src ≡ some v
      → get_elem? vs dst ≡ some w
      → is_last_below (b.find_last (b.join v w)) (length vs) ≡ true
      → union_with src dst vs ≡ some (b.changes v w, modify src (λ u. b.join u w) vs)
  unfolding union_with
  union_with-some src dst vs v w at_src at_dst below = ground arith

  -- Every target is a node.
  abbrev pub InRange : List b.Bits → Type 0
  InRange vs = (i j : ℕ) → (test_at b vs i j && leb (length vs) j) ≡ false

  -- Where every target is a node, `unionWith` of two nodes meets no assertion that fails, just the
  -- targets of the second node are added to the first one, and every target is a node again.
  pub union_with-InRange :
      (laws : Laws b) (src dst : ℕ) (vs : List b.Bits)
      → InRange vs
      → src < length vs
      → dst < length vs
      → (changed : Bool) × (us : List b.Bits) × (union_with src dst vs ≡ some (changed, us))
        × InRange us
        × ((i j : ℕ) → test_at b us i j ≡ (test_at b vs i j || (i == src && test_at b vs dst j)))
  unfolding is_last_below
  union_with-InRange laws src dst vs r h k =
      let (v, at_src) = get_elem?-some b laws src vs h in
      let (w, at_dst) = get_elem?-some b laws dst vs k in
      let us = modify src (λ u. b.join u w) vs in
      let size = length-modify src (λ u. b.join u w) vs in
      let adds : (i j : ℕ)
          → test_at b us i j ≡ (test_at b vs i j || (i == src && test_at b vs dst j)) =
        λ i j. ground (
          arith,
          test_at-modify_join b laws src i j w vs,
          test_at-get_elem? b laws dst j vs w at_dst,
        ) in
      let below : is_last_below (b.find_last (b.join v w)) (length vs) ≡ true =
        elim (Option-cases (b.find_last (b.join v w))) [
          | inl nothing ↦ ground arith
          | inr (last, found) ↦ ground (
            arith,
            laws.find_last_test (b.join v w) last found,
            laws.test-join v w last,
            test_at-get_elem? b laws src last vs v at_src,
            test_at-get_elem? b laws dst last vs w at_dst,
            r src last,
            r dst last,
          )
        ] in
      (
        b.changes v w,
        us,
        union_with-some src dst vs v w at_src at_dst below,
        λ i j. ground (arith, adds i j, r i j, r dst j, size),
        adds,
      )
