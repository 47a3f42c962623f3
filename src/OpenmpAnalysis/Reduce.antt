-- ===== src/OpenmpAnalysis/Reduce.antt =====
-- ReduceAnalysis and LastprivateAnalysis in src/Analysis/OpenMPAnalysis.cpp, and inSameReduce. Basic
-- blocks are numbers.
pub mod Correct
pub mod Halts
use open_race.Prelude.{
  ℕ, zero, suc, ◌==◌, if◌then◌else◌, Bool, true, false, ◌&&◌, ◌||◌, Option, none, some, List, [],
  ◌∷◌, ◌++◌,
}
use open_race.Trace.Build.States.{contains, Built, done, fails, out_of_fuel, ◌>>=◌}
use open_race.Ir.{same_tag, openmp_reduce}
use open_race.Trace.Event.{Event}

-- What LLVM answers: the successors and the default destination of the switch behind a reduce, if
-- there is one, the successors of a block and the block of an instruction.
pub record Blocks : Type 0 where
  pub switch_after : ℕ → Option (List ℕ × ℕ)
  pub successors : ℕ → List ℕ
  pub block_of : ℕ → ℕ

-- `std::copy_if` of the successors that are not visited. The back of the worklist is its head.
unfoldable pub push_unvisited : List ℕ → List ℕ → List ℕ → List ℕ
unfolding contains
push_unvisited visited [] worklist = worklist
push_unvisited visited (b ∷ bs) worklist =
    if contains b visited
    then push_unvisited visited bs worklist
    else push_unvisited visited bs (b ∷ worklist)

module _ (succs : ℕ → List ℕ) (exit_block : ℕ) where
  -- The worklist loop of `computeGuardedBlocks`.
  unfoldable pub guarded : ℕ → List ℕ → List ℕ → List ℕ → Built (List ℕ)
  unfolding push_unvisited
  guarded zero [] visited blocks = done blocks
  guarded zero (b ∷ worklist) visited blocks = out_of_fuel
  guarded (suc fuel) [] visited blocks = done blocks
  guarded (suc fuel) (b ∷ worklist) visited blocks = elim (b == exit_block) [
    | true ↦ guarded fuel worklist (b ∷ visited) blocks
    | false ↦ elim (succs b) [
      | [] ↦ fails
      | _ ∷ _ ↦
          guarded fuel (push_unvisited (b ∷ visited) (succs b) worklist) (b ∷ visited)
            (blocks ++ b ∷ [])
    ]
  ]

-- `reduceBlocks`
abbrev pub Cache : Type 0
Cache = List (ℕ × List ℕ)

unfoldable pub find_blocks : ℕ → Cache → Option (List ℕ)
find_blocks reduce [] = none
find_blocks reduce ((r, blocks) ∷ cache) =
    let rest = find_blocks reduce cache in if r == reduce then some blocks else rest

module _ (o : Blocks) (fuel : ℕ) where
  unfoldable pub compute_guarded_blocks : ℕ → Built (List ℕ)
  unfolding guarded push_unvisited
  compute_guarded_blocks reduce = elim (o.switch_after reduce) [
    | none ↦ fails
    | some (first, exit_block) ↦
        guarded o.successors exit_block fuel (push_unvisited [] first []) [] []
  ]

  -- `getReduceBlocks`, with the cache after it.
  unfoldable pub get_reduce_blocks : ℕ → Cache → Built (List ℕ × Cache)
  unfolding compute_guarded_blocks find_blocks
  get_reduce_blocks reduce cache = elim (find_blocks reduce cache) [
    | some blocks ↦ done (blocks, cache)
    | none ↦ do blocks ← compute_guarded_blocks reduce; done (blocks, (reduce, blocks) ∷ cache)
  ]

  unfoldable pub reduce_contains : ℕ → ℕ → Cache → Built (Bool × Cache)
  unfolding get_reduce_blocks contains
  reduce_contains reduce inst cache = do
    (blocks, cache') ← get_reduce_blocks reduce cache
    done (contains (o.block_of inst) blocks, cache')

  -- `inSameReduce`, with the cache after it, from an event of the first event's thread on.
  unfoldable pub in_same_reduce : Event → Event → List Event → Cache → Built (Bool × Cache)
  unfolding reduce_contains
  in_same_reduce e1 e2 [] cache = done (false, cache)
  in_same_reduce e1 e2 (e ∷ es) cache =
      if e.pid.eid == e1.pid.eid
      then done (false, cache)
      else if same_tag e.tag openmp_reduce
      then (do
        (contains1, cache1) ← reduce_contains e.inst e1.inst cache
        (contains2, cache2) ← reduce_contains e.inst e2.inst cache1
        if contains1 && contains2
            then done (true, cache2)
            else if contains1 || contains2
            then done (false, cache2)
            else in_same_reduce e1 e2 es cache2)
      else in_same_reduce e1 e2 es cache
