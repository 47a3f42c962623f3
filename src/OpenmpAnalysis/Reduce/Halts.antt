-- ===== src/OpenmpAnalysis/Reduce/Halts.antt =====
-- The search for the blocks of a reduce in src/Analysis/OpenMPAnalysis.cpp ends, although a block that
-- stands on the worklist twice is expanded twice.
use open_race.Prelude.{
  ℕ, zero, suc, ◌+◌, ◌*◌, ◌≤◌, ◌<◌, ◌==◌, true, false, some, List, [], ◌∷◌, ◌++◌, ◌≡◌, ◌≢◌, ◌⊎◌,
  inl, inr, refl, length, arith, ap, Bool-cases, List-cases, ==_iff,
}
use native.Mathlib.Nat.{mul-le-mul_right, suc-mul}
use open_race.Trace.Build.States.{contains, out_of_fuel}
use open_race.Trace.Build.Budget.{unseen, unseen_le, unseen-cons_le, unseen-cons_lt}
use open_race.OpenmpAnalysis.Reduce.{Blocks, push_unvisited, guarded, compute_guarded_blocks}
use open_race.OpenmpAnalysis.Reduce.Correct.{contains-push_unvisited}

length-push_unvisited :
    (visited bs worklist : List ℕ)
    → length (push_unvisited visited bs worklist) ≤ length worklist + length bs
unfolding push_unvisited
length-push_unvisited visited [] worklist = omega arith
length-push_unvisited visited (b ∷ bs) worklist = ground (
  arith,
  length-push_unvisited visited bs worklist,
  length-push_unvisited visited bs (b ∷ worklist),
)

-- A visited block at the head of the worklist may add this many blocks.
bonus : ℕ → List ℕ → List ℕ → ℕ
bonus width visited [] = 0
bonus width visited (b ∷ worklist) = elim (contains b visited) [ true ↦ width | false ↦ 0 ]

bonus_le : (width : ℕ) (visited worklist : List ℕ) → bonus width visited worklist ≤ width
unfolding bonus
bonus_le width visited [] = omega arith
bonus_le width visited (b ∷ worklist) = ground arith

-- What is added stands on top of the worklist, and is not visited.
bonus-push_unvisited :
    (width : ℕ) (visited bs worklist : List ℕ)
    → (push_unvisited visited bs worklist ≡ worklist)
      ⊎ (bonus width visited (push_unvisited visited bs worklist) ≡ 0)
unfolding push_unvisited bonus
bonus-push_unvisited width visited [] worklist = inl refl
bonus-push_unvisited width visited (b ∷ bs) worklist = ground (
  arith,
  bonus-push_unvisited width visited bs worklist,
  bonus-push_unvisited width visited bs (b ∷ worklist),
)

-- The rounds that are left, with the blocks `all`.
unfoldable pub rounds_left : List ℕ → ℕ → List ℕ → List ℕ → ℕ
unfolding bonus
rounds_left all width worklist visited =
    unseen all visited * (width + width) + (length worklist + bonus width visited worklist)

module _ (succs : ℕ → List ℕ) (exit_block : ℕ) (all : List ℕ) (width : ℕ)
    (narrow : (b : ℕ) → length (succs b) ≤ width)
    (inside : (b c : ℕ) → contains c (succs b) ≡ true → contains c all ≡ true) where
  abbrev Known : List ℕ → Type 0
  Known worklist = (c : ℕ) → contains c worklist ≡ true → contains c all ≡ true

  -- A round takes the head of the worklist, and may add to the rest.
  rounds_left-step :
      (b : ℕ) (worklist bs visited : List ℕ)
      → contains b all ≡ true
      → length bs ≤ width
      → rounds_left all width (push_unvisited (b ∷ visited) bs worklist) (b ∷ visited)
        < rounds_left all width (b ∷ worklist) visited
  unfolding rounds_left bonus
  rounds_left-step b worklist bs visited known few =
      let visited' = b ∷ visited in
      let pushed = push_unvisited visited' bs worklist in
      let longer = length-push_unvisited visited' bs worklist in
      let most = bonus_le width visited' pushed in
      let scaled = mul-le-mul_right (width + width) (unseen-cons_le all b visited) in
      elim (Bool-cases (contains b visited)) [
        | inl old ↦
            let b0 : bonus width visited (b ∷ worklist) ≡ width = ground arith in
            elim (bonus-push_unvisited width visited' bs worklist) [
              | inl same ↦
                  let l0 : length pushed ≡ length worklist = ap length same in
                  omega (arith, scaled, most, l0, b0)
              | inr top ↦ omega (arith, scaled, longer, few, top, b0)
            ]
        | inr new ↦
            let fewer = mul-le-mul_right (width + width) (unseen-cons_lt all b visited known new) in
            omega (arith, fewer, suc-mul (unseen all visited') (width + width), longer, few, most)
      ]

  guarded-halts :
      (fuel : ℕ) (worklist visited blocks : List ℕ)
      → Known worklist
      → rounds_left all width worklist visited ≤ fuel
      → guarded succs exit_block fuel worklist visited blocks ≢ out_of_fuel
  unfolding guarded contains
  guarded-halts zero [] visited blocks known enough = λ e. cc
  guarded-halts zero (b ∷ worklist) visited blocks known enough = absurd (
      omega (
        arith,
        enough,
        rounds_left-step b worklist [] visited (known b (ground (arith, ==_iff b b))) (omega arith),
      ))
  guarded-halts (suc fuel) [] visited blocks known enough = λ e. cc
  guarded-halts (suc fuel) (b ∷ worklist) visited blocks known enough =
      let here : contains b all ≡ true = known b (ground (arith, ==_iff b b)) in
      let out =
        guarded-halts fuel worklist (b ∷ visited) blocks (λ c h. known c (ground arith))
          (omega (arith, enough, rounds_left-step b worklist [] visited here (omega arith))) in
      let further =
        guarded-halts fuel (push_unvisited (b ∷ visited) (succs b) worklist) (b ∷ visited)
          (blocks ++ b ∷ [])
          (λ c h. elim ((contains-push_unvisited (b ∷ visited) (succs b) worklist c).0 h) [
            | inl waits ↦ known c (ground arith)
            | inr (next, fresh) ↦ inside b c next
          ])
          (omega (arith, enough, rounds_left-step b worklist (succs b) visited here (narrow b))) in
      λ e. elim (Bool-cases (b == exit_block)) [
        | inl leaves ↦ out (ground arith)
        | inr goes_on ↦ elim (List-cases (succs b)) [
          | inl none_left ↦ ground arith
          | inr (x, xs, some_left) ↦ further (ground arith)
        ]
      ]

-- The search for the blocks of a reduce does not run out of fuel: with the blocks of the function, to
-- which the switch and every block lead, and at most `width` successors of each of them, a fuel of
-- 2 * width rounds for each block, one for each block of the switch and `width` more is enough.
pub compute_guarded_blocks-halts :
    (o : Blocks) (all : List ℕ) (width fuel reduce : ℕ) (first : List ℕ) (exit_block : ℕ)
    → ((b : ℕ) → length (o.successors b) ≤ width)
    → ((b c : ℕ) → contains c (o.successors b) ≡ true → contains c all ≡ true)
    → o.switch_after reduce ≡ some (first, exit_block)
    → ((c : ℕ) → contains c first ≡ true → contains c all ≡ true)
    → length all * (width + width) + (length first + width) ≤ fuel
    → compute_guarded_blocks o fuel reduce ≢ out_of_fuel
unfolding compute_guarded_blocks contains rounds_left
compute_guarded_blocks-halts o all width fuel reduce first exit_block narrow inside switch known
      enough =
    let start = push_unvisited [] first [] in
    let most = bonus_le width [] start in
    let longest = length-push_unvisited [] first [] in
    let scaled = mul-le-mul_right (width + width) (unseen_le all []) in
    let halts =
      guarded-halts o.successors exit_block all width narrow inside fuel start [] []
        (λ c h. known c (ground (arith, contains-push_unvisited [] first [] c)))
        (omega (arith, enough, most, longest, scaled)) in
    λ e. halts (ground arith)
