-- ===== src/OpenmpAnalysis/Reduce/Correct.antt =====
-- The blocks of a reduce that ReduceAnalysis of src/Analysis/OpenMPAnalysis.cpp finds are those that
-- paths from its switch reach before the exit block.
use open_race.Prelude.{
  ℕ, zero, suc, ◌==◌, true, false, ◌||◌, some, List, [], ◌∷◌, ◌++◌, ◌≡◌, ◌↔◌, ◌⊎◌, inl, inr, subst,
  arith, Bool-cases, ==_iff,
}
use open_race.Trace.Build.States.{contains, done}
use open_race.OpenmpAnalysis.Reduce.{Blocks, push_unvisited, guarded, compute_guarded_blocks}

-- A path through the successors from a block of the switch that does not go on from the exit block.
pub data Reaches (succs : ℕ → List ℕ) (exit_block : ℕ) (first : List ℕ) : ℕ → Type 0 where
  start : {b : ℕ} → contains b first ≡ true → Reaches succs exit_block first b
  next :
      {b c : ℕ}
      → Reaches succs exit_block first b
      → (b == exit_block) ≡ false
      → contains c (succs b) ≡ true
      → Reaches succs exit_block first c

pub contains-push_unvisited :
    (visited bs worklist : List ℕ) (b : ℕ)
    → (contains b (push_unvisited visited bs worklist) ≡ true)
      ↔ ((contains b worklist ≡ true) ⊎ ((contains b bs ≡ true) × (contains b visited ≡ false)))
unfolding push_unvisited contains
contains-push_unvisited visited [] worklist b = ground arith
contains-push_unvisited visited (c ∷ bs) worklist b = ground (
  arith,
  contains-push_unvisited visited bs worklist b,
  contains-push_unvisited visited bs (c ∷ worklist) b,
  ==_iff c b,
)

contains-append : (xs : List ℕ) (x b : ℕ) → contains b (xs ++ x ∷ []) ≡ (contains b xs || x == b)
unfolding contains
contains-append [] x b = ground arith
contains-append (y ∷ xs) x b = ground (arith, contains-append xs x b)

module _ (succs : ℕ → List ℕ) (exit_block : ℕ) (first : List ℕ) where
  record Inv (worklist visited blocks : List ℕ) : Type 0 where
    waits : (b : ℕ) → contains b worklist ≡ true → Reaches succs exit_block first b
    seen : (b : ℕ) → contains b visited ≡ true → Reaches succs exit_block first b
    starts :
        (b : ℕ)
        → contains b first ≡ true
        → (contains b visited ≡ true) ⊎ (contains b worklist ≡ true)
    closed :
        (b c : ℕ)
        → contains b visited ≡ true
        → (b == exit_block) ≡ false
        → contains c (succs b) ≡ true
        → (contains c visited ≡ true) ⊎ (contains c worklist ≡ true)
    listed :
        (b : ℕ)
        → (contains b blocks ≡ true) ↔ ((contains b visited ≡ true) × ((b == exit_block) ≡ false))

  reached :
      (b c : ℕ) (worklist visited blocks : List ℕ)
      → Inv (b ∷ worklist) visited blocks
      → contains c (b ∷ visited) ≡ true
      → Reaches succs exit_block first c
  unfolding contains
  reached b c worklist visited blocks v h = elim (Bool-cases (b == c)) [
    | inl same ↦
        subst (Reaches succs exit_block first) ((==_iff b c).0 same)
          (v.waits b (ground (arith, ==_iff b b)))
    | inr other ↦ v.seen c (ground arith)
  ]

  Inv-exit :
      (b : ℕ) (worklist visited blocks : List ℕ)
      → (b == exit_block) ≡ true
      → Inv (b ∷ worklist) visited blocks
      → Inv worklist (b ∷ visited) blocks
  unfolding contains
  Inv-exit b worklist visited blocks e v = record {
    waits = λ c h. v.waits c (ground arith);
    seen = λ c h. reached b c worklist visited blocks v h;
    starts = λ c h. ground (arith, v.starts c h);
    closed = λ c d h out k. ground (arith, v.closed c d, ==_iff b c);
    listed = λ c. ground (arith, v.listed c, ==_iff b c);
  }

  Inv-step :
      (b : ℕ) (worklist visited blocks : List ℕ)
      → (b == exit_block) ≡ false
      → Inv (b ∷ worklist) visited blocks
      → Inv (push_unvisited (b ∷ visited) (succs b) worklist) (b ∷ visited) (blocks ++ b ∷ [])
  unfolding contains
  Inv-step b worklist visited blocks e v =
      let added = λ (c : ℕ). contains-push_unvisited (b ∷ visited) (succs b) worklist c in
      let here : Reaches succs exit_block first b = v.waits b (ground (arith, ==_iff b b)) in
      record {
        waits = λ c h. elim ((added c).0 h) [
          | inl waiting ↦ v.waits c (ground arith)
          | inr (fresh, unvisited) ↦ next here e fresh
        ];
        seen = λ c h. reached b c worklist visited blocks v h;
        starts = λ c h. ground (arith, v.starts c h, added c);
        closed = λ c d h out k. ground (arith, v.closed c d, ==_iff b c, added d);
        listed = λ c. ground (arith, v.listed c, ==_iff b c, contains-append blocks b c);
      }

  Inv-guarded :
      (fuel : ℕ) (worklist visited blocks found : List ℕ)
      → Inv worklist visited blocks
      → guarded succs exit_block fuel worklist visited blocks ≡ done found
      → (last : List ℕ) × Inv [] last found
  unfolding guarded
  Inv-guarded zero [] visited blocks found v h = (visited, subst (Inv [] visited) (ground arith) v)
  Inv-guarded zero (b ∷ worklist) visited blocks found v h = cc
  Inv-guarded (suc fuel) [] visited blocks found v h =
      (visited, subst (Inv [] visited) (ground arith) v)
  Inv-guarded (suc fuel) (b ∷ worklist) visited blocks found v h =
      elim (Bool-cases (b == exit_block)) [
        | inl out ↦
            Inv-guarded fuel worklist (b ∷ visited) blocks found
              (Inv-exit b worklist visited blocks out v) (ground arith)
        | inr goes_on ↦
            Inv-guarded fuel (push_unvisited (b ∷ visited) (succs b) worklist) (b ∷ visited)
              (blocks ++ b ∷ []) found (Inv-step b worklist visited blocks goes_on v) (ground arith)
      ]

  found_of_Reaches :
      (last found : List ℕ) (b : ℕ)
      → Inv [] last found
      → Reaches succs exit_block first b
      → contains b last ≡ true
  unfolding contains
  found_of_Reaches last found b v (start h) = ground (arith, v.starts b h)
  found_of_Reaches last found c v (next {b} r out h) =
      ground (arith, v.closed b c (found_of_Reaches last found b v r) out h)

-- The blocks that the search for a reduce instruction gives are the blocks that paths from its switch
-- reach, less the exit block, where no path goes on.
pub compute_guarded_blocks-Reaches :
    (o : Blocks) (fuel reduce : ℕ) (first : List ℕ) (exit_block : ℕ) (blocks : List ℕ) (b : ℕ)
    → o.switch_after reduce ≡ some (first, exit_block)
    → compute_guarded_blocks o fuel reduce ≡ done blocks
    → (contains b blocks ≡ true)
      ↔ (Reaches o.successors exit_block first b × ((b == exit_block) ≡ false))
unfolding compute_guarded_blocks contains
compute_guarded_blocks-Reaches o fuel reduce first exit_block blocks b switch h =
    let put = λ (c : ℕ). contains-push_unvisited [] first [] c in
    let v0 : Inv o.successors exit_block first (push_unvisited [] first []) [] [] = record {
      waits = λ c k. start (ground (arith, put c));
      seen = λ c k. cc;
      starts = λ c k. ground (arith, put c);
      closed = λ c d k out e. cc;
      listed = λ c. ground arith;
    } in
    let (last, v) =
      Inv-guarded o.successors exit_block first fuel (push_unvisited [] first []) [] [] blocks v0
        (ground arith) in
    (
      λ k. (v.seen b (ground (arith, v.listed b)), ground (arith, v.listed b)),
      λ (r, out).
          ground
            (arith, v.listed b, found_of_Reaches o.successors exit_block first last blocks b v r),
    )
