-- ===== src/OpenmpAnalysis/Counts.antt =====
-- Events that start and end regions, counted, and the place of the region of an event by these counts.
use open_race.Prelude.{
  ℕ, suc, ◌+◌, ◌≤◌, ◌<◌, ◌==◌, ltb, if◌then◌else◌, true, false, ◌&&◌, Option, none, some, List, [],
  ◌∷◌, ◌≡◌, refl, sym, ◌∙◌, ap, arith,
}
use open_race.Ir.{Tag, same_tag}
use open_race.Trace.Event.{Event}
use open_race.Trace.Build.Grows.{IsNumbered}

-- How many of the events have a tag, those with an id below a bound.
unfoldable pub count_below : Tag → ℕ → List Event → ℕ
count_below tag bound [] = 0
count_below tag bound (e ∷ es) =
    if same_tag e.tag tag && ltb e.pid.eid bound
    then suc (count_below tag bound es)
    else count_below tag bound es

unfoldable pub count_all : Tag → List Event → ℕ
count_all tag [] = 0
count_all tag (e ∷ es) = if same_tag e.tag tag then suc (count_all tag es) else count_all tag es

pub count_below-zero :
    (tag : Tag) (tid start bound : ℕ) (es : List Event)
    → IsNumbered tid start es
    → bound ≤ start
    → count_below tag bound es ≡ 0
unfolding count_below
count_below-zero tag tid start bound [] n h = refl
count_below-zero tag tid start bound (e ∷ es) (p, n) h =
    ground (arith, count_below-zero tag tid (start + 1) bound es n)

-- The place of the region of an event behind `i` regions, with the starts counted up to the event, the
-- ends before it and all ends.
unfoldable pub place_by_counts : ℕ → ℕ → ℕ → ℕ → Option ℕ
place_by_counts i starts ends all =
    if starts == suc ends && ltb ends all then some (i + ends) else none

pub place_by_counts-none : (i starts ends : ℕ) → place_by_counts i starts ends ends ≡ none
unfolding place_by_counts
place_by_counts-none i starts ends = ground arith

pub place_by_counts-zero : (i ends all : ℕ) → place_by_counts i 0 ends all ≡ none
unfolding place_by_counts
place_by_counts-zero i ends all = ground arith

place_by_counts-first : (i all : ℕ) → place_by_counts i 1 0 (suc all) ≡ some i
unfolding place_by_counts
place_by_counts-first i all = ground arith

place_by_counts-suc :
    (i starts ends all : ℕ)
    → place_by_counts (i + 1) starts ends all ≡ place_by_counts i (1 + starts) (suc ends) (suc all)
unfolding place_by_counts
place_by_counts-suc i starts ends all = ground arith

abbrev pub open_count : Option ℕ → ℕ
open_count none = 0
open_count (some s) = 1

module _ (start_tag end_tag : Tag) (tid e : ℕ) where
  -- The place with an open region, or none, before the events.
  abbrev pub placed : ℕ → Option ℕ → List Event → Option ℕ
  placed i from es =
      place_by_counts i (open_count from + count_below start_tag (suc e) es)
        (count_below end_tag e es) (count_all end_tag es)

  pub placed-skip :
      (i : ℕ) (from : Option ℕ) (x : Event) (es : List Event)
      → same_tag x.tag start_tag ≡ false
      → same_tag x.tag end_tag ≡ false
      → placed i from es ≡ placed i from (x ∷ es)
  unfolding count_below count_all
  placed-skip i from x es start end =
      let c1 : count_below start_tag (suc e) (x ∷ es) ≡ count_below start_tag (suc e) es =
        ground arith in
      let c2 : count_below end_tag e (x ∷ es) ≡ count_below end_tag e es = ground arith in
      let c3 : count_all end_tag (x ∷ es) ≡ count_all end_tag es = ground arith in cc

  pub placed-open :
      (i s : ℕ) (x : Event) (es : List Event)
      → same_tag x.tag start_tag ≡ true
      → same_tag x.tag end_tag ≡ false
      → x.pid.eid ≤ e
      → placed i (some s) es ≡ placed i none (x ∷ es)
  unfolding count_below count_all
  placed-open i s x es start end begun =
      let c1 : 0 + count_below start_tag (suc e) (x ∷ es) ≡ 1 + count_below start_tag (suc e) es =
        ground arith in
      let c2 : count_below end_tag e (x ∷ es) ≡ count_below end_tag e es = ground arith in
      let c3 : count_all end_tag (x ∷ es) ≡ count_all end_tag es = ground arith in cc

  pub placed-later :
      (i start : ℕ) (es : List Event)
      → IsNumbered tid start es
      → e < start
      → placed i none es ≡ none
  placed-later i start es n later =
      let c1 : 0 + count_below start_tag (suc e) es ≡ 0 =
        omega (arith, count_below-zero start_tag tid start (suc e) es n later) in
      ap (λ z. place_by_counts i z (count_below end_tag e es) (count_all end_tag es)) c1
      ∙ place_by_counts-zero i (count_below end_tag e es) (count_all end_tag es)

  pub placed-close :
      (i s : ℕ) (x : Event) (es : List Event)
      → same_tag x.tag start_tag ≡ false
      → same_tag x.tag end_tag ≡ true
      → x.pid.eid < e
      → placed (i + 1) none es ≡ placed i (some s) (x ∷ es)
  unfolding count_below count_all
  placed-close i s x es start end later =
      let c1 : 1 + (0 + count_below start_tag (suc e) es)
          ≡ 1 + count_below start_tag (suc e) (x ∷ es) =
        ground arith in
      let c2 : count_below end_tag e (x ∷ es) ≡ suc (count_below end_tag e es) = ground arith in
      let c3 : count_all end_tag (x ∷ es) ≡ suc (count_all end_tag es) = ground arith in
      place_by_counts-suc i (0 + count_below start_tag (suc e) es) (count_below end_tag e es)
        (count_all end_tag es)
      ∙ cc

  pub placed-last :
      (i s start : ℕ) (x : Event) (es : List Event)
      → IsNumbered tid start (x ∷ es)
      → same_tag x.tag start_tag ≡ false
      → same_tag x.tag end_tag ≡ true
      → e ≤ start
      → some i ≡ placed i (some s) (x ∷ es)
  unfolding count_below count_all
  placed-last i s start x es (p, n) no_start end within =
      let none_after =
        count_below-zero start_tag tid (start + 1) (suc e) es n (omega (arith, within)) in
      let c1 : 1 ≡ 1 + count_below start_tag (suc e) (x ∷ es) = ground arith in
      let c2 : 0 ≡ count_below end_tag e (x ∷ es) =
        sym (count_below-zero end_tag tid start e (x ∷ es) (p, n) within) in
      let c3 : count_all end_tag (x ∷ es) ≡ suc (count_all end_tag es) = ground arith in
      sym (place_by_counts-first i (count_all end_tag es)) ∙ cc
