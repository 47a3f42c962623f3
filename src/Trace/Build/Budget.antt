-- ===== src/Trace/Build/Budget.antt =====
-- The test for recursive threads, and the number of nested calls and threads that can still begin.
use open_race.Prelude.{
  ℕ, suc, ◌+◌, ◌*◌, ◌≤◌, ◌<◌, ◌==◌, if◌then◌else◌, true, false, List, [], ◌∷◌, map, ◌≡◌, inl, inr,
  refl, sym, length, arith, Bool-cases, ==_iff,
}
use native.Mathlib.Nat.{mul-le-mul_right, suc-mul}
use open_race.Trace.Build.States.{Spawn, State, contains}
use open_race.Trace.Build.{Answers, counts_to, is_recursive_thread_spawn}

-- The functions that the threads from one up to the main thread start in.
abbrev pub entries : (ℕ → ℕ) → List Spawn → List ℕ
entries function_of spawns = map (λ s. function_of s.entry) spawns

counts_to-contains :
    (function_of : ℕ → ℕ) (func : ℕ) (spawns : List Spawn)
    → counts_to function_of func 2 1 spawns ≡ contains func (entries function_of spawns)
unfolding counts_to contains
counts_to-contains function_of func [] = refl
counts_to-contains function_of func (s ∷ spawns) = elim (Bool-cases (function_of s.entry == func)) [
  | inl same ↦ rw same
  | inr other ↦ rw other (counts_to-contains function_of func spawns)
]

-- A thread that would start in the function that the thread or one above it starts in is refused, the
-- second one with the function already, and no other thread is.
pub is_recursive_thread_spawn-contains :
    (a : Answers) (s : State) (entry : ℕ)
    → is_recursive_thread_spawn a s entry 2
      ≡ contains (a.function_of entry) (entries a.function_of s.spawns)
unfolding is_recursive_thread_spawn
is_recursive_thread_spawn-contains a s entry =
    counts_to-contains a.function_of (a.function_of entry) s.spawns

-- How many of the functions are not among those seen.
unfoldable pub unseen : List ℕ → List ℕ → ℕ
unfolding contains
unseen [] seen = 0
unseen (f ∷ funcs) seen = if contains f seen then unseen funcs seen else suc (unseen funcs seen)

pub unseen_le : (funcs seen : List ℕ) → unseen funcs seen ≤ length funcs
unfolding unseen
unseen_le [] seen = omega arith
unseen_le (f ∷ funcs) seen = ground (arith, unseen_le funcs seen)

pub unseen-cons_le :
    (funcs : List ℕ) (x : ℕ) (seen : List ℕ) → unseen funcs (x ∷ seen) ≤ unseen funcs seen
unfolding unseen contains
unseen-cons_le [] x seen = omega arith
unseen-cons_le (f ∷ funcs) x seen = ground (arith, unseen-cons_le funcs x seen)

pub unseen-cons_lt :
    (funcs : List ℕ) (x : ℕ) (seen : List ℕ)
    → contains x funcs ≡ true
    → contains x seen ≡ false
    → unseen funcs (x ∷ seen) < unseen funcs seen
unfolding unseen contains
unseen-cons_lt [] x seen h fresh = cc
unseen-cons_lt (f ∷ funcs) x seen h fresh = elim (Bool-cases (f == x)) [
  | inl same ↦
      let q : f ≡ x = (==_iff f x).0 same in
      ground (arith, unseen-cons_le funcs x seen, (==_iff x f).1 (sym q))
  | inr other ↦ ground (arith, unseen-cons_lt funcs x seen, unseen-cons_le funcs x seen)
]

-- The nested calls and threads that a building can still begin.
unfoldable pub budget : (ℕ → ℕ) → List ℕ → List Spawn → List ℕ → ℕ
unfolding unseen
budget function_of funcs spawns callstack =
    unseen funcs (entries function_of spawns) * suc (length funcs) + unseen funcs callstack

pub budget-child :
    (function_of : ℕ → ℕ) (funcs : List ℕ) (spawn : Spawn) (spawns : List Spawn)
    (callstack : List ℕ)
    → contains (function_of spawn.entry) funcs ≡ true
    → contains (function_of spawn.entry) (entries function_of spawns) ≡ false
    → budget function_of funcs (spawn ∷ spawns) [] < budget function_of funcs spawns callstack
unfolding budget
budget-child function_of funcs spawn spawns callstack h fresh =
    let above = entries function_of spawns in
    let fewer = unseen-cons_lt funcs (function_of spawn.entry) above h fresh in
    let scaled = mul-le-mul_right (suc (length funcs)) fewer in
    omega (
      arith,
      scaled,
      suc-mul (unseen funcs (function_of spawn.entry ∷ above)) (suc (length funcs)),
      unseen_le funcs [],
    )

pub budget-call :
    (function_of : ℕ → ℕ) (funcs : List ℕ) (func : ℕ) (spawns : List Spawn) (callstack : List ℕ)
    → contains func funcs ≡ true
    → contains func callstack ≡ false
    → budget function_of funcs spawns (func ∷ callstack) < budget function_of funcs spawns callstack
unfolding budget
budget-call function_of funcs func spawns callstack h fresh =
    omega (arith, unseen-cons_lt funcs func callstack h fresh)
