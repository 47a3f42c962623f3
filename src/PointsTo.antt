-- ===== src/PointsTo.antt =====
-- The points-to sets with their inverse, in src/PointerAnalysis/Solver/PointsTo/PointedByPts.h. The
-- class llvm::SparseBitVector is a parameter.
pub mod Inverse
pub mod BitVector
use open_race.Prelude.{
  ℕ, zero, suc, ◌+◌, ◌==◌, ltb, if◌then◌else◌, Bool, true, false, not, ◌&&◌, ◌||◌, Option, none,
  some, List, [], ◌∷◌, ◌++◌, ◌≡◌, ◌↔◌, length, get_elem?,
}
use open_race.Trace.Build.States.{contains}

-- The operations of SparseBitVector that the code calls; `changes` is what `|=` returns.
pub record BitVectors : Type 1 where
  pub Bits : Type 0
  pub empty : Bits
  pub test : Bits → ℕ → Bool
  pub set : Bits → ℕ → Bits
  pub reset : Bits → ℕ → Bits
  pub join : Bits → Bits → Bits
  pub meet : Bits → Bits → Bits
  pub changes : Bits → Bits → Bool
  pub equal : Bits → Bits → Bool
  pub intersects : Bits → Bits → Bool
  pub contains_all : Bits → Bits → Bool
  pub is_empty : Bits → Bool
  pub count : Bits → ℕ
  pub elements : Bits → List ℕ
  pub find_last : Bits → Option ℕ

-- Their documented behaviour.
pub record Laws (b : BitVectors) : Type 0 where
  pub test-empty : (i : ℕ) → b.test b.empty i ≡ false
  pub test-set : (v : b.Bits) (i j : ℕ) → b.test (b.set v i) j ≡ (b.test v j || i == j)
  pub test-join : (v w : b.Bits) (j : ℕ) → b.test (b.join v w) j ≡ (b.test v j || b.test w j)
  pub test-reset : (v : b.Bits) (i j : ℕ) → b.test (b.reset v i) j ≡ (b.test v j && not (i == j))
  pub unchanged :
      (v w : b.Bits) (j : ℕ) → b.changes v w ≡ false → b.test w j ≡ true → b.test v j ≡ true
  pub changed :
      (v w : b.Bits) → b.changes v w ≡ true → (j : ℕ) × (b.test w j ≡ true) × (b.test v j ≡ false)
  pub find_last_test : (v : b.Bits) (i : ℕ) → b.find_last v ≡ some i → b.test v i ≡ true
  pub contains-elements : (v : b.Bits) (j : ℕ) → contains j (b.elements v) ≡ b.test v j

-- An element of a vector is replaced, where there is one.
unfoldable pub modify {ℓ} : {A : Type ℓ} → ℕ → (A → A) → List A → List A
modify i f [] = []
modify zero f (x ∷ xs) = f x ∷ xs
modify (suc i) f (x ∷ xs) = x ∷ modify i f xs

module _ (b : BitVectors) where
  pub record Pts : Type 0 where
    pub points_to : List b.Bits
    pub pointed_by : List b.Bits

  unfoldable pub test_at : List b.Bits → ℕ → ℕ → Bool
  test_at vs i j = elim (get_elem? vs i) [ none ↦ false | some v ↦ b.test v j ]

  abbrev pub clear_all : Pts
  clear_all = record { points_to = []; pointed_by = [] }

  -- `none` in an operation means that an assertion fails.
  unfoldable pub on_new_node_creation : ℕ → Pts → Option Pts
  on_new_node_creation id s =
      if id == length s.points_to && length s.points_to == length s.pointed_by
      then some (record {
        points_to = s.points_to ++ b.empty ∷ [];
        pointed_by = s.pointed_by ++ b.empty ∷ [];
      })
      else none

  -- The loop over the targets of `unionWith`.
  unfoldable pub add_pointed_by : ℕ → ℕ → List ℕ → List b.Bits → Option (List b.Bits)
  unfolding test_at modify
  add_pointed_by src dst [] vs = some vs
  add_pointed_by src dst (id ∷ ids) vs =
      let next = add_pointed_by src dst ids (modify id (λ v. b.set v src) vs) in
      if test_at vs id dst then next else none

  -- `unionWith`, with whether the set changes.
  unfoldable pub union_with : ℕ → ℕ → Pts → Option (Bool × Pts)
  unfolding add_pointed_by modify
  union_with src dst s = elim (get_elem? s.points_to src) [
    | none ↦ none
    | some v ↦ elim (get_elem? s.points_to dst) [
      | none ↦ none
      | some w ↦ elim (add_pointed_by src dst (b.elements w) s.pointed_by) [
        | none ↦ none
        | some pointed ↦ some (
          b.changes v w,
          record { points_to = modify src (λ u. b.join u w) s.points_to; pointed_by = pointed },
        )
      ]
    ]
  ]

  -- `insert`, with whether the target is new.
  unfoldable pub insert : ℕ → ℕ → Pts → Option (Bool × Pts)
  unfolding modify test_at
  insert src idx s =
      if ltb src (length s.points_to) && ltb idx (length s.points_to)
      then some (
        not (test_at s.points_to src idx),
        record {
          points_to = modify src (λ v. b.set v idx) s.points_to;
          pointed_by = modify idx (λ v. b.set v src) s.pointed_by;
        },
      )
      else none

  unfoldable pub has : ℕ → ℕ → Pts → Option Bool
  unfolding test_at
  has src idx s =
      if ltb src (length s.points_to) && ltb idx (length s.points_to)
      then some (test_at s.points_to src idx)
      else none

  unfoldable pub clear : ℕ → Pts → Option Pts
  unfolding modify
  clear id s =
      if ltb id (length s.points_to)
      then some (record s { points_to = modify id (λ v. b.empty) s.points_to })
      else none

  unfoldable pub is_empty : ℕ → Pts → Option Bool
  is_empty id s = elim (get_elem? s.points_to id) [ none ↦ none | some v ↦ some (b.is_empty v) ]

  unfoldable pub equal : ℕ → ℕ → Pts → Option Bool
  equal src dst s = elim (get_elem? s.points_to src) [
    | none ↦ none
    | some v ↦ elim (get_elem? s.points_to dst) [ none ↦ none | some w ↦ some (b.equal v w) ]
  ]

  unfoldable pub intersect_with : ℕ → ℕ → Pts → Option Bool
  intersect_with src dst s = elim (get_elem? s.points_to src) [
    | none ↦ none
    | some v ↦ elim (get_elem? s.points_to dst) [ none ↦ none | some w ↦ some (b.intersects v w) ]
  ]

  -- The loop over the special nodes below a bound.
  unfoldable pub reset_below : ℕ → b.Bits → b.Bits
  reset_below zero v = v
  reset_below (suc i) v = b.reset (reset_below i v) i

  unfoldable pub intersect_with_no_special_node : ℕ → ℕ → ℕ → Pts → Option Bool
  unfolding reset_below
  intersect_with_no_special_node start src dst s = elim (get_elem? s.points_to src) [
    | none ↦ none
    | some v ↦ elim (get_elem? s.points_to dst) [
      | none ↦ none
      | some w ↦ some (not (b.is_empty (reset_below start (b.meet v w))))
    ]
  ]

  -- `contains`: whether the first set is a superset of the second one.
  unfoldable pub contains_set : ℕ → ℕ → Pts → Option Bool
  contains_set src dst s = elim (get_elem? s.points_to src) [
    | none ↦ none
    | some v ↦ elim (get_elem? s.points_to dst) [ none ↦ none | some w ↦ some (b.contains_all v w) ]
  ]

  unfoldable pub count : ℕ → Pts → Option ℕ
  count id s = elim (get_elem? s.points_to id) [ none ↦ none | some v ↦ some (b.count v) ]

  unfoldable pub get_pointed_by : ℕ → Pts → Option b.Bits
  get_pointed_by id s = if ltb id (length s.points_to) then get_elem? s.pointed_by id else none

  unfoldable pub get_points_to : ℕ → Pts → Option b.Bits
  get_points_to id s = get_elem? s.points_to id
