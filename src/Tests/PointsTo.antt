-- ===== src/Tests/PointsTo.antt =====
-- The theorems on points-to sets, with lists of numbers for the bit vectors.
use open_race.Prelude.{
  ℕ, zero, suc, ◌==◌, if◌then◌else◌, Bool, true, false, not, ◌&&◌, ◌||◌, Option, none, some, List,
  [], ◌∷◌, ◌++◌, ◌≡◌, refl, inl, inr, length, arith, Bool-cases, ==_iff,
}
use open_race.Trace.Build.States.{contains}
use open_race.PointsTo.{BitVectors, Laws, Pts, test_at}
use open_race.PointsTo.Inverse.{IsInverse}
use open_race.PointsTo.BitVector.{InRange}

unfoldable pub drop : ℕ → List ℕ → List ℕ
drop i [] = []
drop i (x ∷ xs) = if x == i then drop i xs else x ∷ drop i xs

unfoldable pub within : List ℕ → List ℕ → Bool
unfolding contains
within [] ys = true
within (x ∷ xs) ys = contains x ys && within xs ys

unfoldable pub meeting : List ℕ → List ℕ → List ℕ
unfolding contains
meeting [] ys = []
meeting (x ∷ xs) ys = if contains x ys then x ∷ meeting xs ys else meeting xs ys

unfoldable pub is_nil : List ℕ → Bool
is_nil [] = true
is_nil (x ∷ xs) = false

-- The first one, which need not be the greatest.
unfoldable pub head : List ℕ → Option ℕ
head [] = none
head (x ∷ xs) = some x

abbrev pub lists : BitVectors
lists = record {
  Bits = List ℕ;
  empty = [];
  test = λ v i. contains i v;
  set = λ v i. i ∷ v;
  reset = λ v i. drop i v;
  join = λ v w. v ++ w;
  meet = meeting;
  changes = λ v w. not (within w v);
  equal = λ v w. within v w && within w v;
  intersects = λ v w. not (is_nil (meeting v w));
  contains_all = λ v w. within w v;
  is_empty = is_nil;
  count = length;
  elements = λ v. v;
  find_last = head;
}

contains-append : (v w : List ℕ) (j : ℕ) → contains j (v ++ w) ≡ (contains j v || contains j w)
unfolding contains
contains-append [] w j = refl
contains-append (x ∷ v) w j = ground (arith, contains-append v w j)

contains-head : (v : List ℕ) (i : ℕ) → head v ≡ some i → contains i v ≡ true
unfolding contains head
contains-head [] i h = cc
contains-head (x ∷ v) i h = ground (arith, ==_iff x i)

contains-drop : (v : List ℕ) (i j : ℕ) → contains j (drop i v) ≡ (contains j v && not (i == j))
unfolding contains drop
contains-drop [] i j = refl
contains-drop (x ∷ v) i j = ground (arith, contains-drop v i j, ==_iff x i, ==_iff x j, ==_iff i j)

within-contains :
    (v w : List ℕ) (j : ℕ) → not (within w v) ≡ false → contains j w ≡ true → contains j v ≡ true
unfolding contains within
within-contains v [] j h m = cc
within-contains v (x ∷ w) j h m = ground (arith, within-contains v w j, ==_iff x j)

missing_element :
    (v w : List ℕ)
    → not (within w v) ≡ true
    → (j : ℕ) × (contains j w ≡ true) × (contains j v ≡ false)
unfolding contains within
missing_element v [] h = absurd (ground arith)
missing_element v (x ∷ w) h = elim (Bool-cases (contains x v)) [
  | inl old ↦ let (j, m, n) = missing_element v w (ground arith) in (j, ground arith, n)
  | inr new ↦ (x, ground (arith, ==_iff x x), new)
]

pub lists-Laws : Laws lists
unfolding contains
lists-Laws = record {
  test-empty = λ i. refl;
  test-set = λ v i j. ground arith;
  test-join = contains-append;
  test-reset = contains-drop;
  unchanged = within-contains;
  changed = missing_element;
  find_last_test = contains-head;
  contains-elements = λ v j. refl;
}

-- Node 0 points to node 1.
abbrev pts : Pts lists
pts = record { points_to = (1 ∷ []) ∷ [] ∷ []; pointed_by = [] ∷ (0 ∷ []) ∷ [] }

pts-inverse : (i j : ℕ) → test_at lists pts.points_to i j ≡ test_at lists pts.pointed_by j i
unfolding test_at contains
pts-inverse zero zero = refl
pts-inverse zero (suc zero) = refl
pts-inverse zero (suc (suc j)) = ground arith
pts-inverse (suc zero) zero = refl
pts-inverse (suc zero) (suc zero) = refl
pts-inverse (suc zero) (suc (suc j)) = refl
pts-inverse (suc (suc i)) zero = refl
pts-inverse (suc (suc i)) (suc zero) = ground arith
pts-inverse (suc (suc i)) (suc (suc j)) = refl

pts-IsInverse : IsInverse lists lists-Laws pts
pts-IsInverse = record { same_size = refl; inverse = pts-inverse }

abbrev inserted : Pts lists
inserted = record { points_to = (1 ∷ []) ∷ (0 ∷ []) ∷ []; pointed_by = (1 ∷ []) ∷ (0 ∷ []) ∷ [] }

abbrev cleared : Pts lists
cleared = record { points_to = [] ∷ [] ∷ []; pointed_by = [] ∷ (0 ∷ []) ∷ [] }

vectors-InRange : InRange lists ((1 ∷ []) ∷ [] ∷ [])
unfolding test_at contains
vectors-InRange zero j = ground arith
vectors-InRange (suc zero) j = refl
vectors-InRange (suc (suc i)) j = refl
