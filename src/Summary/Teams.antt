-- ===== src/Summary/Teams.antt =====
-- The forks and joins of the summary of a function, src/IR/Builder.cpp, and the classes of its IR.
use open_race.Prelude.{
  All, ℕ, suc, ◌==◌, ◌&&◌, ◌||◌, if◌then◌else◌, Bool, true, false, some, List, [], ◌∷◌, ◌++◌, ◌+◌,
  ◌≡◌, refl, sym, inl, inr, arith, Bool-cases, Option-cases, subst,
}
use open_race.Ir.{
  Tag, Ir, same_tag, place, is_between, load, store, openmp_fork, openmp_join, openmp_fork_teams,
  openmp_join_teams,
}
use open_race.Summary.{
  Access, Inst, load_inst, store_inst, call_inst, other_inst, has_thread_local_operand, only,
  access_step, step, block_summary, generate_function_summary,
}
use open_race.Summary.Emitted.{class_count, is_single, is_team, team, Emits, call_step-Emits}

-- What holds of nothing, of the IR of an access, of a call and of a team, and of appended lists, holds
-- of a summary.
module _ (Keeps : List Ir → Type 0) (nil : Keeps [])
    (append : (xs ys : List Ir) → Keeps xs → Keeps ys → Keeps (xs ++ ys))
    (access : (t : Tag) (x : ℕ) → (same_tag t load || same_tag t store) ≡ true → Keeps (only t x))
    (single : (t : Tag) (x : ℕ) → is_single t ≡ true → Keeps (only t x))
    (teams : (m : Bool) (f j : Tag) (x y : ℕ) → is_team f j ≡ true → Keeps (team m f j x y)) where
  access_step-Keeps :
      (t : Tag) (a : Access) (irs : List Ir) (skip : Bool)
      → (same_tag t load || same_tag t store) ≡ true
      → access_step t a ≡ some (irs, skip)
      → Keeps irs
  unfolding access_step
  access_step-Keeps t a irs skip h e =
      elim (Bool-cases (a.is_atomic || a.is_volatile || has_thread_local_operand a)) [
        | inl left_out ↦
            let e' : some ([], false) ≡ some (irs, skip) = rw left_out at e in
            let q : [] ≡ irs = cc in subst Keeps q nil
        | inr plain ↦
            let e' : some (only t a.inst, false) ≡ some (irs, skip) = rw plain at e in
            let q : only t a.inst ≡ irs = cc in subst Keeps q (access t a.inst h)
      ]

  step-Keeps :
      (i : Inst) (next : List Inst) (irs : List Ir) (skip : Bool)
      → step i next ≡ some (irs, skip)
      → Keeps irs
  unfolding step Emits same_tag
  step-Keeps (load_inst a) next irs skip e = access_step-Keeps load a irs skip refl e
  step-Keeps (store_inst a) next irs skip e = access_step-Keeps store a irs skip refl e
  step-Keeps (call_inst c) next irs skip e = elim (call_step-Emits c next irs skip e).0 [
    | inl none_there ↦ subst Keeps (sym none_there) nil
    | inr (inl (t, x, one, h)) ↦ subst Keeps (sym one) (single t x h)
    | inr (inr (m, f, j, x, y, four, h)) ↦ subst Keeps (sym four) (teams m f j x y h)
  ]
  step-Keeps other_inst next irs skip e = let q : [] ≡ irs = cc in subst Keeps q nil

  block_summary-Keeps :
      (skip : Bool) (is : List Inst) (s : List Ir) → block_summary skip is ≡ some s → Keeps s
  unfolding block_summary
  block_summary-Keeps skip [] s e = let q : [] ≡ s = cc in subst Keeps q nil
  block_summary-Keeps true (i ∷ is) s e = block_summary-Keeps false is s e
  block_summary-Keeps false (i ∷ is) s e = elim (Option-cases (step i is)) [
    | inl absent ↦ absurd (ground arith)
    | inr ((irs, skip), there) ↦ elim (Option-cases (block_summary skip is)) [
      | inl absent ↦ absurd (ground arith)
      | inr (rest, further) ↦
          let q : irs ++ rest ≡ s = ground arith in
          subst Keeps q (
            append irs rest (step-Keeps i is irs skip there)
              (block_summary-Keeps skip is rest further))
    ]
  ]

  pub generate_function_summary-Keeps :
      (blocks : List (List Inst)) (s : List Ir)
      → generate_function_summary blocks ≡ some s
      → Keeps s
  unfolding generate_function_summary
  generate_function_summary-Keeps [] s e = let q : [] ≡ s = cc in subst Keeps q nil
  generate_function_summary-Keeps (block ∷ blocks) s e =
      elim (Option-cases (block_summary false block)) [
        | inl absent ↦ absurd (ground arith)
        | inr (irs, there) ↦ elim (Option-cases (generate_function_summary blocks)) [
          | inl absent ↦ absurd (ground arith)
          | inr (rest, further) ↦
              let q : irs ++ rest ≡ s = ground arith in
              subst Keeps q (
                append irs rest (block_summary-Keeps false block irs there)
                  (generate_function_summary-Keeps blocks rest further))
        ]
      ]

-- The number of IRs with a type and an instruction.
unfoldable pub count_ir : Tag → ℕ → List Ir → ℕ
unfolding same_tag
count_ir t x [] = 0
count_ir t x (ir ∷ irs) =
    let rest = count_ir t x irs in if same_tag ir.tag t && ir.inst == x then suc rest else rest

count_ir-++ :
    (t : Tag) (x : ℕ) (irs more : List Ir)
    → count_ir t x (irs ++ more) ≡ count_ir t x irs + count_ir t x more
unfolding count_ir
count_ir-++ t x [] more = omega arith
count_ir-++ t x (ir ∷ irs) more = ground (arith, count_ir-++ t x irs more)

All-++ : (P : Ir → Type 0) (xs ys : List Ir) → All P xs → All P ys → All P (xs ++ ys)
All-++ P [] ys a b = b
All-++ P (x ∷ xs) ys (p, a) b = (p, All-++ P xs ys a b)

-- In the summary of a function, each fork of OpenMP has a join of its own, and so has each fork of
-- teams: for each instruction there are as many of the one as of the other.
pub generate_function_summary-joined :
    (blocks : List (List Inst)) (s : List Ir) (x : ℕ)
    → generate_function_summary blocks ≡ some s
    → (count_ir openmp_fork x s ≡ count_ir openmp_join x s)
      × (count_ir openmp_fork_teams x s ≡ count_ir openmp_join_teams x s)
unfolding count_ir same_tag is_single is_team place
generate_function_summary-joined blocks s x e =
    generate_function_summary-Keeps
      (λ irs.
        (count_ir openmp_fork x irs ≡ count_ir openmp_join x irs)
        × (count_ir openmp_fork_teams x irs ≡ count_ir openmp_join_teams x irs))
      (refl, refl)
      (λ xs ys (a, b) (c, d). (
        ground (arith, count_ir-++ openmp_fork x xs ys, count_ir-++ openmp_join x xs ys),
        ground
            (arith, count_ir-++ openmp_fork_teams x xs ys, count_ir-++ openmp_join_teams x xs ys),
      ))
      (λ t y h. (ground arith, ground arith)) (λ t y h. (ground arith, ground arith))
      (λ m f j y z h. (ground arith, ground arith)) blocks s e

-- Each IR in the summary of a function is of exactly one of the classes of reads, writes, forks,
-- joins, locks, unlocks, barriers and calls.
pub generate_function_summary-one_class :
    (blocks : List (List Inst)) (s : List Ir)
    → generate_function_summary blocks ≡ some s
    → All (λ ir. class_count ir.tag ≡ 1) s
unfolding same_tag class_count is_single is_team place is_between
generate_function_summary-one_class blocks s e =
    generate_function_summary-Keeps (All (λ ir. class_count ir.tag ≡ 1)) tt
      (λ xs ys a b. All-++ _ xs ys a b) (λ t y h. (ground arith, tt)) (λ t y h. (ground arith, tt))
      (λ m f j y z h. (ground arith, (ground arith, (ground arith, (ground arith, tt))))) blocks s e
