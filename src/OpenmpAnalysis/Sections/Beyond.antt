-- ===== src/OpenmpAnalysis/Sections/Beyond.antt =====
-- When insideCompatibleSections of src/Analysis/OpenMPAnalysis.cpp reads an event beyond the last.
use open_race.Prelude.{
  ℕ, ◌==◌, leb, if◌then◌else◌, true, false, Option, none, some, List, [], ◌∷◌, All, ◌≡◌, inl, inr,
  refl, arith, List-cases, ==_iff,
}
use open_race.Trace.Event.{Event}
use open_race.OpenmpAnalysis.Sections.{
  Cases, collect_sections, is_section, events_at, section_for, both, walk,
  inside_compatible_sections,
}

module _ (all : List Event) (id1 id2 last : ℕ)
    (early : (c : Event) → is_section all c ≡ true → leb c.pid.eid last ≡ true) where
  walk-none :
      (es sections : List Event) (sec2 : Option Event)
      → All (λ e. (id1 == e.pid.eid) ≡ false) es
      → walk all id1 id2 last es sections none sec2 ≡ none
  unfolding walk section_for both
  walk-none [] sections sec2 h = refl
  walk-none (e ∷ []) [] sec2 (h, k) = ground arith
  walk-none (e ∷ []) (s ∷ sections) sec2 (h, k) = ground arith
  walk-none (e ∷ c ∷ es) [] sec2 (h, k) = ground (arith, walk-none (c ∷ es) [] sec2 k, early c)
  walk-none (e ∷ c ∷ es) (s ∷ sections) sec2 (h, k) = ground (
    arith,
    early c,
    walk-none (c ∷ es) (s ∷ sections) sec2 k,
    walk-none (c ∷ es) (s ∷ sections) (some s) k,
    walk-none (c ∷ es) sections sec2 k,
    walk-none (c ∷ es) sections (some s) k,
  )

events_at-head :
    (s : Event) (events : List Event) (e : Event) (es : List Event)
    → events_at s events ≡ e ∷ es
    → s.pid.eid ≡ e.pid.eid
unfolding events_at
events_at-head s [] e es h = cc
events_at-head s (x ∷ events) e es h =
    ground (arith, events_at-head s events e es, ==_iff x.pid.eid s.pid.eid)

-- Where section events are collected, none of them behind both events, and the first event does not
-- stand among the events from the first of them on, the loop reads beyond the last event.
pub inside_compatible_sections-beyond :
    (o : Cases) (events : List Event) (id1 id2 : ℕ) (s : Event) (sections : List Event)
    → collect_sections o (if leb id1 id2 then id2 else id1) [] events ≡ s ∷ sections
    → ((c : Event)
        → is_section (s ∷ sections) c ≡ true
        → leb c.pid.eid (if leb id1 id2 then id2 else id1) ≡ true)
    → All (λ e. (id1 == e.pid.eid) ≡ false) (events_at s events)
    → inside_compatible_sections o events id1 id2 ≡ none
unfolding inside_compatible_sections is_section
inside_compatible_sections-beyond o events id1 id2 s sections collected early away =
    let last = if leb id1 id2 then id2 else id1 in
    elim (List-cases (events_at s events)) [
      | inl lost ↦ ground arith
      | inr (e, es, q) ↦
          let here : is_section (s ∷ sections) e ≡ true =
            ground (arith, ==_iff s.pid.eid e.pid.eid, events_at-head s events e es q) in
          let in_time : leb e.pid.eid last ≡ true = early e here in
          let beyond =
            walk-none (s ∷ sections) id1 id2 last early (e ∷ es) (s ∷ sections) none
              (rw q at away) in
          ground arith
    ]
