-- ===== src/Summary/Emitted.antt =====
-- What a call adds to the summary of src/IR/Builder.cpp.
use Prim.Native.String.{String}
use open_race.Prelude.{
  ℕ, ◌+◌, ◌==◌, if◌then◌else◌, Bool, true, false, not, ◌&&◌, ◌||◌, some, List, [], ◌∷◌, ◌++◌, ◌≡◌,
  refl, ◌⊎◌, inl, inr, arith, Bool-cases, Option-cases,
}
use open_race.Ir.{
  call, Tag, Ir, same_tag, is_between, is_read, is_write, is_fork, is_join, is_lock, is_unlock,
  is_barrier, is_call, is_mem_access, openmp_fork, openmp_join, openmp_fork_teams,
  openmp_join_teams,
}
use open_race.Summary.Names.{is_openmp, is_no_effect}
use open_race.Summary.{
  get_name, resolve_target_function, load_inst, store_inst, call_inst, other_inst, Call, Inst,
  Action, nothing, unknown, emits, twins, recognizers, recognize, only, forked, get_next_call,
  get_twin, skip_region, twin_step, act, named_step, call_step,
}

abbrev pub weight : Bool → ℕ
weight b = if b then 1 else 0

-- The number of the IR classes of which a type is.
unfoldable pub class_count : Tag → ℕ
unfolding is_read is_write is_fork is_join is_lock is_unlock is_barrier is_call
class_count t =
    weight (is_read t)
    + (weight (is_write t)
        + (weight (is_fork t)
            + (weight (is_join t)
                + (weight (is_lock t)
                    + (weight (is_unlock t) + (weight (is_barrier t) + weight (is_call t)))))))

-- A type of one class that is no access and no fork or join of a team.
unfoldable pub is_single : Tag → Bool
unfolding is_mem_access same_tag class_count
is_single t =
    class_count t == 1
    && not (is_mem_access t)
    && not (same_tag t openmp_fork || same_tag t openmp_join)
    && not (same_tag t openmp_fork_teams || same_tag t openmp_join_teams)

unfoldable pub is_team : Tag → Tag → Bool
unfolding same_tag
is_team f j =
    same_tag f openmp_fork && same_tag j openmp_join
    || same_tag f openmp_fork_teams && same_tag j openmp_join_teams

abbrev pub is_action : Action → Bool
is_action nothing = true
is_action unknown = true
is_action (emits t) = is_single t
is_action (twins _ f j _) = is_team f j

abbrev pub are_actions : List ((String → Bool) × Action) → Bool
are_actions [] = true
are_actions ((test, action) ∷ table) = is_action action && are_actions table

recognize-is_action :
    (name : String) (table : List ((String → Bool) × Action))
    → are_actions table ≡ true
    → is_action (recognize name table) ≡ true
unfolding recognize
recognize-is_action name [] h = refl
recognize-is_action name ((test, action) ∷ table) h = ground (arith, recognize-is_action name table)

recognizers-are_actions : are_actions recognizers ≡ true
unfolding recognizers is_between is_single is_team
recognizers-are_actions = refl

-- The team of a fork of OpenMP: both forks, then both joins.
abbrev pub team : Bool → Tag → Tag → ℕ → ℕ → List Ir
team m f j x y = forked m f x ++ (only f y ++ (only j x ++ only j y))

-- A call adds nothing, one IR that is no access and no part of a team, or a team.
unfoldable pub Emits : List Ir → Type 0
Emits irs =
    (irs ≡ [])
    ⊎ (((t : Tag) × (x : ℕ) × (irs ≡ only t x) × (is_single t ≡ true))
        ⊎ ((m : Bool) × (f : Tag) × (j : Tag) × (x : ℕ) × (y : ℕ) × (irs ≡ team m f j x y)
            × (is_team f j ≡ true)))

-- The instruction after a skipped one is a call.
abbrev pub starts_with_call : List Inst → Bool
starts_with_call (call_inst _ ∷ _) = true
starts_with_call _ = false

module _ (c : Call) where
  twin_step-Emits :
      (m : Bool) (f j : Tag) (is_twin : String → Bool) (next : List Inst) (irs : List Ir)
      (skip : Bool)
      → is_team f j ≡ true
      → twin_step m f j is_twin c next ≡ some (irs, skip)
      → Emits irs × ((skip ≡ true) → starts_with_call next ≡ true)
  unfolding Emits twin_step get_twin get_next_call skip_region
  twin_step-Emits m f j is_twin (call_inst d ∷ _) irs skip h e = elim (Option-cases d.called) [
    | inl absent ↦ ground arith
    | inr (g, there) ↦ elim (Option-cases g.name) [
      | inl absent ↦ let e' = rw (there, absent) at e in (inl cc, λ s. refl)
      | inr (name, named) ↦ elim (Bool-cases (is_twin name)) [
        | inl t ↦
            let e' = rw (there, named, t) at e in
            (inr (inr (m, f, j, c.inst, d.inst, cc, h)), λ s. refl)
        | inr t ↦ let e' = rw (there, named, t) at e in (inl cc, λ s. refl)
      ]
    ]
  ]
  twin_step-Emits m f j is_twin [] irs skip h e = cc
  twin_step-Emits m f j is_twin (load_inst _ ∷ _) irs skip h e = (inl cc, λ s. cc)
  twin_step-Emits m f j is_twin (store_inst _ ∷ _) irs skip h e = (inl cc, λ s. cc)
  twin_step-Emits m f j is_twin (other_inst ∷ _) irs skip h e = (inl cc, λ s. cc)

  act-Emits :
      (action : Action) (name : String) (next : List Inst) (irs : List Ir) (skip : Bool)
      → is_action action ≡ true
      → act action c name next ≡ some (irs, skip)
      → Emits irs × ((skip ≡ true) → starts_with_call next ≡ true)
  unfolding Emits act is_between is_single class_count
  act-Emits nothing name next irs skip k e = (inl cc, λ s. cc)
  act-Emits (emits t) name next irs skip k e = (inr (inl (t, c.inst, cc, k)), λ s. cc)
  act-Emits (twins m f j is_twin) name next irs skip k e =
      twin_step-Emits m f j is_twin next irs skip k e
  act-Emits unknown name next irs skip k e =
      elim (Bool-cases (is_openmp name && not (is_no_effect name))) [
        | inl absent ↦ ground arith
        | inr there ↦ let e' = rw there at e in (inr (inl (call, c.inst, cc, refl)), λ s. cc)
      ]

  pub call_step-Emits :
      (next : List Inst) (irs : List Ir) (skip : Bool)
      → call_step c next ≡ some (irs, skip)
      → Emits irs × ((skip ≡ true) → starts_with_call next ≡ true)
  unfolding Emits call_step named_step is_between is_single class_count
  call_step-Emits next irs skip e = elim (Bool-cases c.is_indirect) [
    | inl indirect ↦ let e' = rw indirect at e in (inr (inl (call, c.inst, cc, refl)), λ s. cc)
    | inr direct ↦ elim (Option-cases (resolve_target_function c)) [
      | inl absent ↦ let e' = rw (direct, absent) at e in (inl cc, λ s. cc)
      | inr (f, there) ↦ elim (Bool-cases (f.is_intrinsic || f.is_debug_info_for_profiling)) [
        | inl skipped ↦ let e' = rw (direct, there, skipped) at e in (inl cc, λ s. cc)
        | inr known ↦
            act-Emits (recognize (get_name f) recognizers) (get_name f) next irs skip
              (recognize-is_action (get_name f) recognizers recognizers-are_actions)
              (rw (direct, there, known) at e)
      ]
    ]
  ]
