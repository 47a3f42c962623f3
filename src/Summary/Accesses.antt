-- ===== src/Summary/Accesses.antt =====
-- The memory accesses of a function and those of its summary, src/IR/Builder.cpp.
use open_race.Prelude.{
  if◌then◌else◌, Bool, true, false, ◌||◌, some, List, [], ◌∷◌, ◌++◌, ◌≡◌, refl, sym, ap, ◌∙◌, inl,
  inr, arith, Bool-cases, Option-cases,
}
use open_race.Ir.{same_tag, place, Tag, Ir, load, store, is_mem_access}
use open_race.Summary.{
  Access, Inst, load_inst, store_inst, call_inst, other_inst, has_thread_local_operand, only,
  access_step, step, block_summary, generate_function_summary,
}
use open_race.Summary.Emitted.{is_single, is_team, starts_with_call, Emits, call_step-Emits}

-- The loads and stores that are not atomic, not volatile and not of a thread local variable.
abbrev pub plain_access : Tag → Access → List Ir
plain_access tag a =
    if a.is_atomic || a.is_volatile || has_thread_local_operand a then [] else only tag a.inst

abbrev pub plain_accesses : List Inst → List Ir
plain_accesses [] = []
plain_accesses (load_inst a ∷ is) = plain_access load a ++ plain_accesses is
plain_accesses (store_inst a ∷ is) = plain_access store a ++ plain_accesses is
plain_accesses (_ ∷ is) = plain_accesses is

abbrev pub accesses_of_blocks : List (List Inst) → List Ir
accesses_of_blocks [] = []
accesses_of_blocks (block ∷ blocks) = plain_accesses block ++ accesses_of_blocks blocks

-- The accesses among the IR of a summary.
abbrev pub mem_accesses : List Ir → List Ir
mem_accesses [] = []
mem_accesses (ir ∷ irs) =
    let rest = mem_accesses irs in if is_mem_access ir.tag then ir ∷ rest else rest

mem_accesses-++ : (xs ys : List Ir) → mem_accesses (xs ++ ys) ≡ mem_accesses xs ++ mem_accesses ys
mem_accesses-++ [] ys = refl
mem_accesses-++ (x ∷ xs) ys = ground (arith, mem_accesses-++ xs ys)

Emits-mem_accesses : (irs : List Ir) → Emits irs → mem_accesses irs ≡ []
unfolding Emits is_single is_team same_tag is_mem_access place
Emits-mem_accesses irs (inl e) = rw e
Emits-mem_accesses irs (inr (inl (t, x, e, h))) = rw e (ground arith)
Emits-mem_accesses irs (inr (inr (m, f, j, x, y, e, h))) = rw e (ground arith)

access_step-plain :
    (t : Tag) (a : Access) (irs : List Ir) (skip : Bool)
    → is_mem_access t ≡ true
    → access_step t a ≡ some (irs, skip)
    → (mem_accesses irs ≡ plain_access t a) × (skip ≡ false)
unfolding access_step
access_step-plain t a irs skip h e =
    elim (Bool-cases (a.is_atomic || a.is_volatile || has_thread_local_operand a)) [
      | inl left_out ↦
          let e' : some ([], false) ≡ some (irs, skip) = rw left_out at e in ground arith
      | inr plain ↦
          let e' : some (only t a.inst, false) ≡ some (irs, skip) = rw plain at e in ground arith
    ]

plain_accesses-∷ :
    (i : Inst) (is : List Inst)
    → plain_accesses (i ∷ is) ≡ plain_accesses (i ∷ []) ++ plain_accesses is
plain_accesses-∷ (load_inst a) is = ground arith
plain_accesses-∷ (store_inst a) is = ground arith
plain_accesses-∷ (call_inst c) is = refl
plain_accesses-∷ other_inst is = refl

step-accesses :
    (i : Inst) (next : List Inst) (irs : List Ir) (skip : Bool)
    → step i next ≡ some (irs, skip)
    → (mem_accesses irs ≡ plain_accesses (i ∷ [])) × ((skip ≡ true) → starts_with_call next ≡ true)
unfolding step is_mem_access place
step-accesses (load_inst a) next irs skip e =
    let (same, on) = access_step-plain load a irs skip refl e in (ground arith, λ h. cc)
step-accesses (store_inst a) next irs skip e =
    let (same, on) = access_step-plain store a irs skip refl e in (ground arith, λ h. cc)
step-accesses (call_inst c) next irs skip e =
    let (added, skipped) = call_step-Emits c next irs skip e in
    (Emits-mem_accesses irs added, skipped)
step-accesses other_inst next irs skip e = let q : [] ≡ irs = cc in (rw (sym q), λ h. cc)

block_summary-accesses :
    (skip : Bool) (is : List Inst) (s : List Ir)
    → ((skip ≡ true) → starts_with_call is ≡ true)
    → block_summary skip is ≡ some s
    → mem_accesses s ≡ plain_accesses is
unfolding block_summary
block_summary-accesses skip [] s k e = let q : [] ≡ s = cc in rw (sym q)
block_summary-accesses true (call_inst c ∷ is) s k e = block_summary-accesses false is s (λ h. cc) e
block_summary-accesses true (load_inst a ∷ is) s k e = let h = k refl in cc
block_summary-accesses true (store_inst a ∷ is) s k e = let h = k refl in cc
block_summary-accesses true (other_inst ∷ is) s k e = let h = k refl in cc
block_summary-accesses false (i ∷ is) s k e = elim (Option-cases (step i is)) [
  | inl absent ↦ absurd (ground arith)
  | inr ((irs, skip), there) ↦ elim (Option-cases (block_summary skip is)) [
    | inl absent ↦ absurd (ground arith)
    | inr (rest, further) ↦
        let q : irs ++ rest ≡ s = ground arith in
        let (here, later) = step-accesses i is irs skip there in
        ap mem_accesses (sym q)
        ∙ mem_accesses-++ irs rest
        ∙ (ap (λ z. z ++ mem_accesses rest) here
            ∙ (ap (λ z. plain_accesses (i ∷ []) ++ z)
                  (block_summary-accesses skip is rest later further)
                ∙ sym (plain_accesses-∷ i is)))
  ]
]

-- The accesses in the summary of a function are the loads and stores that are not atomic, not
-- volatile and not of a thread local variable, in the order of the code.
pub generate_function_summary-accesses :
    (blocks : List (List Inst)) (s : List Ir)
    → generate_function_summary blocks ≡ some s
    → mem_accesses s ≡ accesses_of_blocks blocks
unfolding generate_function_summary
generate_function_summary-accesses [] s e = let q : [] ≡ s = cc in rw (sym q)
generate_function_summary-accesses (block ∷ blocks) s e =
    elim (Option-cases (block_summary false block)) [
      | inl absent ↦ absurd (ground arith)
      | inr (irs, there) ↦ elim (Option-cases (generate_function_summary blocks)) [
        | inl absent ↦ absurd (ground arith)
        | inr (rest, further) ↦
            let q : irs ++ rest ≡ s = ground arith in
            ap mem_accesses (sym q)
            ∙ (mem_accesses-++ irs rest
                ∙ cc (
                  block_summary-accesses false block irs (λ h. cc) there,
                  generate_function_summary-accesses blocks rest further,
                ))
      ]
    ]
