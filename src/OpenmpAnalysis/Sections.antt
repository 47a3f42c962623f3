-- ===== src/OpenmpAnalysis/Sections.antt =====
-- insideCompatibleSections in src/Analysis/OpenMPAnalysis.cpp.
pub mod Beyond
use open_race.Prelude.{
  ℕ, ◌==◌, leb, if◌then◌else◌, Bool, true, false, not, ◌&&◌, ◌||◌, Option, none, some, List, [],
  ◌∷◌, ◌++◌,
}
use open_race.Trace.Event.{Event}

-- What LLVM answers: the block of an instruction, and whether the name of a block starts with
-- `.omp.sections.case`.
pub record Cases : Type 0 where
  pub block_of : ℕ → ℕ
  pub is_case : ℕ → Bool

-- The block of the last section event is not the block of this event.
unfoldable pub is_new_block : Cases → Event → List Event → Bool
is_new_block o e [] = true
is_new_block o e (s ∷ []) = not (o.block_of e.inst == o.block_of s.inst)
is_new_block o e (s ∷ t ∷ sections) = is_new_block o e (t ∷ sections)

module _ (o : Cases) (last : ℕ) where
  -- The loop that collects the section events.
  unfoldable pub collect_sections : List Event → List Event → List Event
  unfolding is_new_block
  collect_sections sections [] = sections
  collect_sections sections (e ∷ es) =
      let sections' =
        if is_new_block o e sections && o.is_case (o.block_of e.inst)
        then sections ++ e ∷ []
        else sections in
      if leb e.pid.eid last then collect_sections sections' es else sections'

-- `std::find` of an event, by its id.
unfoldable pub is_section : List Event → Event → Bool
is_section [] e = false
is_section (s ∷ sections) e = s.pid.eid == e.pid.eid || is_section sections e

unfoldable pub events_at : Event → List Event → List Event
events_at s [] = []
events_at s (e ∷ es) = let rest = events_at s es in if e.pid.eid == s.pid.eid then e ∷ es else rest

-- Both sections are found: whether they are the same.
unfoldable pub both : Option Event → Option Event → Option Bool
both (some s1) (some s2) = some (s1.pid.eid == s2.pid.eid)
both (some s1) none = none
both none sec2 = none

-- `*currSecEv`, of the section events from the current one on; the outer `none` where it is read
-- beyond the last.
unfoldable pub section_for : ℕ → Event → List Event → Option Event → Option (Option Event)
section_for id e [] sec = if id == e.pid.eid then none else some sec
section_for id e (s ∷ sections) sec = some (if id == e.pid.eid then some s else sec)

abbrev pub rest : List Event → List Event
rest [] = []
rest (s ∷ sections) = sections

module _ (all : List Event) (id1 id2 last : ℕ) where
  -- The nested loops, from an event on. `none` where an event or a section event is read beyond the
  -- last.
  unfoldable pub walk : List Event → List Event → Option Event → Option Event → Option Bool
  unfolding is_section section_for both
  walk [] sections sec1 sec2 = none
  walk (e ∷ es) sections sec1 sec2 = elim (section_for id1 e sections sec1) [
    | none ↦ none
    | some sec1' ↦ elim (section_for id2 e sections sec2) [
      | none ↦ none
      | some sec2' ↦
          let inner = walk es sections sec1' sec2' in
          let outer = walk es (rest sections) sec1' sec2' in
          elim (both sec1' sec2') [
            | some answer ↦ some answer
            | none ↦ elim es [
              | [] ↦ none
              | c ∷ _ ↦
                  if is_section all c
                  then if leb c.pid.eid last then outer else some false
                  else inner
            ]
          ]
    ]
  ]

-- `insideCompatibleSections`, for the events of the first event's thread and the ids of both events.
unfoldable pub inside_compatible_sections : Cases → List Event → ℕ → ℕ → Option Bool
unfolding collect_sections events_at walk
inside_compatible_sections o events id1 id2 =
    let last = if leb id1 id2 then id2 else id1 in
    elim (collect_sections o last [] events) [
      | [] ↦ some false
      | s ∷ sections ↦ elim (events_at s events) [
        | [] ↦ none
        | e ∷ es ↦
            let answer = walk (s ∷ sections) id1 id2 last (e ∷ es) (s ∷ sections) none none in
            if leb e.pid.eid last then answer else some false
      ]
    ]
