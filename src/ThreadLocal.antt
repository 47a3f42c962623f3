-- ===== src/ThreadLocal.antt =====
-- src/Analysis/ThreadLocalAnalysis.cpp
use open_race.Prelude.{
  ℕ, ◌≤◌, ltb, if◌then◌else◌, Bool, true, false, List, [], ◌∷◌, ◌≡◌, refl, ◌↔◌, arith,
}
use open_race.LockSet.Correct.{count, IsAscending, Above-IsAscending, count_of_Above}

module _ (is_thread_local : ℕ → Bool) where
  -- The loop over the two ascending multisets of accessed objects. `is_thread_local` is LLVM's
  -- answer for an object: its value is a global variable that is thread local.
  unfoldable pub is_thread_local_access : List ℕ → List ℕ → Bool
  is_thread_local_access [] os = true
  is_thread_local_access (w ∷ ws) [] = true
  is_thread_local_access (w ∷ ws) (o ∷ os) =
      let left = is_thread_local_access ws (o ∷ os) in
      let right = is_thread_local_access (w ∷ ws) os in
      let both = is_thread_local_access ws os in
      if ltb w o then left else if ltb o w then right else if is_thread_local w then both else false

  count-cons : (x y : ℕ) (xs : List ℕ) → x ≡ y → 1 ≤ count y (x ∷ xs)
  unfolding count
  count-cons x y xs e = ground arith

  all_local :
      (ws os : List ℕ) (x : ℕ)
      → IsAscending ws
      → IsAscending os
      → is_thread_local_access ws os ≡ true
      → 1 ≤ count x ws
      → 1 ≤ count x os
      → is_thread_local x ≡ true
  unfolding is_thread_local_access count
  all_local [] os x u v h a b = absurd (omega arith)
  all_local (w ∷ ws) [] x u v h a b = absurd (omega arith)
  all_local (w ∷ ws) (o ∷ os) x u v h a b = ground (
    arith,
    all_local ws (o ∷ os) x,
    all_local (w ∷ ws) os x,
    all_local ws os x,
    Above-IsAscending w ws u,
    Above-IsAscending o os v,
    count_of_Above x o os v,
    count_of_Above x w ws u,
  )

  local_complete :
      (ws os : List ℕ)
      → ((x : ℕ) → 1 ≤ count x ws → 1 ≤ count x os → is_thread_local x ≡ true)
      → is_thread_local_access ws os ≡ true
  unfolding is_thread_local_access count
  local_complete [] os h = refl
  local_complete (w ∷ ws) [] h = refl
  local_complete (w ∷ ws) (o ∷ os) h = ground (
    arith,
    local_complete ws (o ∷ os) (λ x a b. h x (ground arith) b),
    local_complete (w ∷ ws) os (λ x a b. h x a (ground arith)),
    local_complete ws os (λ x a b. h x (ground arith) (ground arith)),
    h w,
  )

-- The accesses are thread local exactly where every object that both access is a thread local
-- variable.
pub is_thread_local_access-count :
    (is_thread_local : ℕ → Bool) (ws os : List ℕ)
    → IsAscending ws
    → IsAscending os
    → (is_thread_local_access is_thread_local ws os ≡ true)
      ↔ ((x : ℕ) → 1 ≤ count x ws → 1 ≤ count x os → is_thread_local x ≡ true)
is_thread_local_access-count is_thread_local ws os u v =
    ((λ h x a b. all_local is_thread_local ws os x u v h a b), local_complete is_thread_local ws os)
