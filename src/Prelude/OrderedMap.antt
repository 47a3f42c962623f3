-- ===== src/Prelude/OrderedMap.antt =====
-- std::map with numbers as keys (thread ids, object ids, addresses): an association list in
-- ascending order of the keys, so that iterating it visits the keys in the map's order.
use open_race.Prelude.Tests.{ltb, ◌==◌, if◌then◌else◌}
use Prim.Native.Nat.{ℕ, ◌<◌}
use mathlib.Core.Path.{◌≡◌, refl}
use mathlib.Core.Option.{Option, none, some}
use mathlib.Core.List.{List, [], ◌∷◌}
use native.Mathlib.Omega.{arith}

module _ {ℓ} {V : Type ℓ} where
  -- `find`
  unfoldable pub find : ℕ → List (ℕ × V) → Option V
  find k [] = none
  find k ((j, v) ∷ m) = if j == k then some v else find k m

  -- `m[k] = v`
  unfoldable pub assign : ℕ → V → List (ℕ × V) → List (ℕ × V)
  assign k v [] = (k, v) ∷ []
  assign k v ((j, w) ∷ m) =
      if ltb k j then (k, v) ∷ (j, w) ∷ m else if j == k then (k, v) ∷ m else (j, w) ∷ assign k v m

  -- `m[k]`, which is `d` where the key is missing
  unfoldable pub at_or : ℕ → V → List (ℕ × V) → V
  at_or k d m = elim (find k m) [ none ↦ d | some v ↦ v ]

  -- The keys ascend, all above `n`.
  abbrev pub Above : ℕ → List (ℕ × V) → Type 0
  Above n [] = Unit
  Above n ((j, v) ∷ m) = (n < j) × Above j m

  abbrev pub IsOrdered : List (ℕ × V) → Type 0
  IsOrdered [] = Unit
  IsOrdered ((j, v) ∷ m) = Above j m

  pub find-assign :
      (k j : ℕ) (v : V) (m : List (ℕ × V))
      → find j (assign k v m) ≡ (if k == j then some v else find j m)
  unfolding find assign
  find-assign k j v [] = refl
  find-assign k j v ((i, w) ∷ m) = ground (arith, find-assign k j v m)

  pub assign-Above :
      (n k : ℕ) (v : V) (m : List (ℕ × V)) → n < k → Above n m → Above n (assign k v m)
  unfolding assign
  assign-Above n k v [] h a = (h, tt)
  assign-Above n k v ((i, w) ∷ m) h a = ground (arith, assign-Above i k v m)

  pub assign-IsOrdered : (k : ℕ) (v : V) (m : List (ℕ × V)) → IsOrdered m → IsOrdered (assign k v m)
  unfolding assign
  assign-IsOrdered k v [] h = tt
  assign-IsOrdered k v ((i, w) ∷ m) h = ground (arith, assign-Above i k v m)

  pub find_of_Above : (n : ℕ) (m : List (ℕ × V)) → Above n m → find n m ≡ none
  unfolding find
  find_of_Above n [] a = refl
  find_of_Above n ((j, v) ∷ m) a = ground (arith, find_below n j m)
    where
      find_below : (n j : ℕ) (m : List (ℕ × V)) → n < j → Above j m → find n m ≡ none
      find_below n j [] h a = refl
      find_below n j ((i, w) ∷ m) h a = ground (arith, find_below n i m)
