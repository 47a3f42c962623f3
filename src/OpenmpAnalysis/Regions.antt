-- ===== src/OpenmpAnalysis/Regions.antt =====
-- The regions of a thread that getRegions of src/Analysis/OpenMPAnalysis.cpp finds, by counts of the
-- events that start and end them.
use open_race.Prelude.{
  ℕ, suc, ◌+◌, ◌≤◌, ◌<◌, ◌==◌, ltb, true, false, Option, none, some, List, [], ◌∷◌, ◌≡◌, inl, inr,
  sym, ◌∙◌, arith, Bool-cases, Option-cases, ap, ==_iff,
}
use open_race.Ir.{Tag, place, same_tag}
use open_race.Trace.Event.{Event, Thread}
use open_race.Trace.Build.Grows.{IsNumbered}
use open_race.OpenmpAnalysis.Counts.{
  count_below, count_all, place_by_counts, place_by_counts-none, placed, placed-skip, placed-open,
  placed-later, placed-close, placed-last,
}
use open_race.OpenmpAnalysis.{
  Region, contains, regions_from, get_regions, find_region, get_region_id,
}

place_of : Option (ℕ × Region) → Option ℕ
place_of none = none
place_of (some (i, r)) = some i

abbrev IsLater : ℕ → Option ℕ → Type 0
IsLater e none = Unit
IsLater e (some s) = e < s

module _ (start_tag end_tag : Tag) (distinct : same_tag start_tag end_tag ≡ false) (tid : ℕ) where
  -- Regions that start later do not contain an event.
  find_region-none :
      (from : Option ℕ) (start e i : ℕ) (es : List Event) (rs : List Region)
      → IsNumbered tid start es
      → regions_from start_tag end_tag from es ≡ some rs
      → e < start
      → IsLater e from
      → find_region i e rs ≡ none
  unfolding regions_from find_region contains
  find_region-none none start e i [] rs n h l k = ground arith
  find_region-none (some s) start e i [] rs n h l k = ground arith
  find_region-none none start e i (x ∷ es) rs (p, n) h l k =
      elim (Bool-cases (same_tag x.tag start_tag)) [
        | inl starts ↦
            find_region-none (some x.pid.eid) (start + 1) e i es rs n (ground arith)
              (omega (arith, l)) (ground arith)
        | inr goes_on ↦
            find_region-none none (start + 1) e i es rs n (ground arith) (omega (arith, l)) tt
      ]
  find_region-none (some s) start e i (x ∷ es) rs (p, n) h l k =
      elim (Option-cases (regions_from start_tag end_tag none es)) [
        | inl stops ↦
            find_region-none (some s) (start + 1) e i es rs n (ground arith) (omega (arith, l)) k
        | inr (rest, goes_on) ↦ elim (Bool-cases (same_tag x.tag end_tag)) [
          | inl ends ↦ ground (
            arith,
            find_region-none none (start + 1) e (i + 1) es rest n goes_on (omega (arith, l)) tt,
          )
          | inr other ↦
              find_region-none (some s) (start + 1) e i es rs n (ground arith) (omega (arith, l)) k
        ]
      ]

same_tag_trans : (a b c : Tag) → same_tag a b ≡ true → same_tag a c ≡ same_tag b c
unfolding same_tag
same_tag_trans a b c h = ap (λ z. z == place c) ((==_iff (place a) (place b)).0 h)

abbrev IsBegun : ℕ → Option ℕ → Type 0
IsBegun e none = Unit
IsBegun e (some s) = s ≤ e

module _ (start_tag end_tag : Tag) (distinct : same_tag start_tag end_tag ≡ false) (tid e : ℕ) where
  find_region-placed :
      (from : Option ℕ) (start i : ℕ) (es : List Event) (rs : List Region)
      → IsNumbered tid start es
      → regions_from start_tag end_tag from es ≡ some rs
      → IsBegun e from
      → place_of (find_region i e rs) ≡ placed start_tag end_tag tid e i from es
  unfolding regions_from find_region contains place_of count_below count_all
  find_region-placed none start i [] rs n h k = ground (arith, place_by_counts-none i 0 0)
  find_region-placed (some s) start i [] rs n h k = ground (arith, place_by_counts-none i 1 0)
  find_region-placed none start i (x ∷ es) rs (p, n) h k =
      elim (Bool-cases (same_tag x.tag start_tag)) [
        | inl starts ↦ elim (Bool-cases (ltb e start)) [
          | inl later ↦
              let before : e < start = ground arith in
              let outside =
                find_region-none start_tag end_tag distinct tid none start e i (x ∷ es) rs (p, n) h
                  before tt in
              ap place_of outside
              ∙ sym (placed-later start_tag end_tag tid e i start (x ∷ es) (p, n) before)
          | inr begun ↦
              find_region-placed (some start) (start + 1) i es rs n (ground arith) (ground arith)
              ∙ placed-open start_tag end_tag tid e i start x es starts
                  (same_tag_trans x.tag start_tag end_tag starts ∙ distinct) (ground arith)
        ]
        | inr goes_on ↦
            find_region-placed none (start + 1) i es rs n (ground arith) tt
            ∙ placed-skip start_tag end_tag tid e i none x es goes_on (ground arith)
      ]
  find_region-placed (some s) start i (x ∷ es) rs (p, n) h k =
      let no_start : same_tag x.tag start_tag ≡ false = ground arith in
      elim (Bool-cases (same_tag x.tag end_tag)) [
        | inr other ↦
            find_region-placed (some s) (start + 1) i es rs n (ground arith) k
            ∙ placed-skip start_tag end_tag tid e i (some s) x es no_start other
        | inl ends ↦ elim (Option-cases (regions_from start_tag end_tag none es)) [
          | inl stops ↦ absurd (ground arith)
          | inr (rest, goes_on) ↦ elim (Bool-cases (ltb start e)) [
            | inl later ↦
                let beyond : find_region i e rs ≡ find_region (i + 1) e rest = ground arith in
                ap place_of beyond
                ∙ find_region-placed none (start + 1) (i + 1) es rest n goes_on tt
                ∙ placed-close start_tag end_tag tid e i s x es no_start ends (ground arith)
            | inr within ↦
                let here : find_region i e rs ≡ some (i, record { start = s; end = start }) =
                  ground arith in
                ap place_of here
                ∙ placed-last start_tag end_tag tid e i s start x es (p, n) no_start ends
                    (ground arith)
          ]
        ]
      ]

get_region_id-place_of :
    (start_tag end_tag : Tag) (t : Thread) (e : ℕ) (rs : List Region)
    → get_regions start_tag end_tag t ≡ some rs
    → get_region_id start_tag end_tag e t ≡ some (place_of (find_region 0 e rs))
unfolding get_region_id place_of
get_region_id-place_of start_tag end_tag t e rs h = elim (Option-cases (find_region 0 e rs)) [
  | inl outside ↦ ground arith
  | inr ((i, r), inside) ↦ ground arith
]

-- The events of a thread that are numbered by their places, and two kinds of events that start and end
-- regions: where `getRegions` meets no assertion that fails, it gives to an event the region with the
-- number of the ends before the event as its place, if one more start than these comes up to the event
-- and the last of them is ended, and no region otherwise.
pub get_region_id-counts :
    (start_tag end_tag : Tag) (t : Thread) (e : ℕ) (rs : List Region)
    → same_tag start_tag end_tag ≡ false
    → IsNumbered t.id 0 t.events
    → get_regions start_tag end_tag t ≡ some rs
    → get_region_id start_tag end_tag e t
      ≡ some (
          place_by_counts 0
            (count_below start_tag (suc e) t.events)
            (count_below end_tag e t.events)
            (count_all end_tag t.events))
unfolding get_regions
get_region_id-counts start_tag end_tag t e rs distinct n h =
    let p = find_region-placed start_tag end_tag distinct t.id e none 0 0 t.events rs n h tt in
    let q : 0 + count_below start_tag (suc e) t.events ≡ count_below start_tag (suc e) t.events =
      omega arith in
    get_region_id-place_of start_tag end_tag t e rs h ∙ ap some (p ∙ cc)
