-- ===== src/RaceDetect/Reported.antt =====
-- The nested loops with their shared cache collect what a filter of a plain list of pairs gives.
use mathlib.Core.List.{append-nil, append_assoc}
use open_race.Prelude.{
  ℕ, ◌==◌, if◌then◌else◌, Bool, not, ◌&&◌, List, [], ◌∷◌, ◌++◌, ◌≡◌, refl, sym, ap, ◌∙◌, arith,
  Bool-cases, inl, inr,
}
use open_race.Trace.Event.{Event, Thread}
use open_race.HappensBefore.Query.{HappensBefore, are_parallel}
use open_race.LockSet.{common}
use open_race.LockSet.Correct.{IsCached, locks_at, shares_lock-eq}
use open_race.SharedMemory.{
  ByThread, SharedMemory, shared_memory, get_shared_objects, get_threaded_reads,
  get_threaded_writes,
}
use open_race.RaceDetect.{
  Analyses, is_excluded, Detecting, check_race, check_others, check_each, check_reads, check_writes,
  check_object, check_objects, detect_races,
}

abbrev pub Pairs : Type 0
Pairs = List (Event × Event)

-- The pairs that pass a test.
abbrev pub keep : (Event → Event → Bool) → Pairs → Pairs
keep test [] = []
keep test ((w, o) ∷ ps) = if test w o then (w, o) ∷ keep test ps else keep test ps

keep-append :
    (test : Event → Event → Bool) (ps qs : Pairs)
    → keep test (ps ++ qs) ≡ keep test ps ++ keep test qs
keep-append test [] qs = refl
keep-append test ((w, o) ∷ ps) qs = ground (arith, keep-append test ps qs)

-- The pairs that the loops go through.
abbrev pub pairs_others : Event → List Event → Pairs
pairs_others w [] = []
pairs_others w (o ∷ os) = (w, o) ∷ pairs_others w os

abbrev pub pairs_each : List Event → List Event → Pairs
pairs_each [] os = []
pairs_each (w ∷ ws) os = pairs_others w os ++ pairs_each ws os

abbrev pub pairs_reads : ℕ → List Event → ByThread → Pairs
pairs_reads wtid ws [] = []
pairs_reads wtid ws ((rtid, rs) ∷ m) =
    (if wtid == rtid then [] else pairs_each ws rs) ++ pairs_reads wtid ws m

abbrev pub pairs_writes : List Event → ByThread → Pairs
pairs_writes ws [] = []
pairs_writes ws ((t, os) ∷ m) = pairs_each ws os ++ pairs_writes ws m

abbrev pub pairs_object : ByThread → ByThread → Pairs
pairs_object [] reads = []
pairs_object ((wtid, ws) ∷ m) reads =
    pairs_reads wtid ws reads ++ (pairs_writes ws m ++ pairs_object m reads)

abbrev pub pairs_objects : SharedMemory → List ℕ → Pairs
pairs_objects m [] = []
pairs_objects m (o ∷ os) =
    pairs_object (get_threaded_writes m o) (get_threaded_reads m o) ++ pairs_objects m os

module _ (a : Analyses) (program : List Thread) (hb : HappensBefore) where
  -- The events are parallel, hold no common lock, and no other analysis excludes the pair.
  abbrev pub is_race : Event → Event → Bool
  is_race w o =
      are_parallel hb w.pid o.pid
      && (not (common (locks_at program w.pid) (locks_at program o.pid)) && not (is_excluded a w o))

  -- The step from `d` to `d'` collects the races among the pairs.
  record Collects (d d' : Detecting) (ps : Pairs) : Type 0 where
    cached : IsCached program d'.cache
    collected : d'.pairs ≡ d.pairs ++ keep is_race ps

  Collects-nothing : (d : Detecting) → IsCached program d.cache → Collects d d []
  Collects-nothing d v = record { cached = v; collected = sym (append-nil d.pairs) }

  Collects-then :
      {d d' d'' : Detecting} {ps qs : Pairs}
      → Collects d d' ps
      → Collects d' d'' qs
      → Collects d d'' (ps ++ qs)
  Collects-then {d} {ps} {qs} s t = record {
    cached = t.cached;
    collected =
        t.collected
        ∙ ap (λ l. l ++ keep is_race qs) s.collected
        ∙ append_assoc d.pairs (keep is_race ps) (keep is_race qs)
        ∙ ap (λ l. d.pairs ++ l) (sym (keep-append is_race ps qs));
  }

  check_race-Collects :
      (d : Detecting) (w o : Event)
      → IsCached program d.cache
      → Collects d (check_race a program hb d w o) ((w, o) ∷ [])
  unfolding check_race
  check_race-Collects d w o v =
      let (same, kept) = shares_lock-eq program d.cache w.pid o.pid v in
      record { cached = ground arith; collected = ground (arith, append-nil d.pairs) }

  check_others-Collects :
      (d : Detecting) (w : Event) (os : List Event)
      → IsCached program d.cache
      → Collects d (check_others a program hb d w os) (pairs_others w os)
  unfolding check_others
  check_others-Collects d w [] v = Collects-nothing d v
  check_others-Collects d w (o ∷ os) v =
      let s = check_race-Collects d w o v in
      Collects-then s (check_others-Collects (check_race a program hb d w o) w os s.cached)

  check_each-Collects :
      (d : Detecting) (ws os : List Event)
      → IsCached program d.cache
      → Collects d (check_each a program hb d ws os) (pairs_each ws os)
  unfolding check_each
  check_each-Collects d [] os v = Collects-nothing d v
  check_each-Collects d (w ∷ ws) os v =
      let s = check_others-Collects d w os v in
      Collects-then s (check_each-Collects (check_others a program hb d w os) ws os s.cached)

  check_reads-Collects :
      (d : Detecting) (wtid : ℕ) (ws : List Event) (m : ByThread)
      → IsCached program d.cache
      → Collects d (check_reads a program hb d wtid ws m) (pairs_reads wtid ws m)
  unfolding check_reads
  check_reads-Collects d wtid ws [] v = Collects-nothing d v
  check_reads-Collects d wtid ws ((rtid, rs) ∷ m) v = elim (Bool-cases (wtid == rtid)) [
    | inl own ↦ rw own (check_reads-Collects d wtid ws m v)
    | inr other ↦
        let s = check_each-Collects d ws rs v in
        rw other (
          Collects-then s
            (check_reads-Collects (check_each a program hb d ws rs) wtid ws m s.cached))
  ]

  check_writes-Collects :
      (d : Detecting) (ws : List Event) (m : ByThread)
      → IsCached program d.cache
      → Collects d (check_writes a program hb d ws m) (pairs_writes ws m)
  unfolding check_writes
  check_writes-Collects d ws [] v = Collects-nothing d v
  check_writes-Collects d ws ((t, os) ∷ m) v =
      let s = check_each-Collects d ws os v in
      Collects-then s (check_writes-Collects (check_each a program hb d ws os) ws m s.cached)

  check_object-Collects :
      (d : Detecting) (writes reads : ByThread)
      → IsCached program d.cache
      → Collects d (check_object a program hb d writes reads) (pairs_object writes reads)
  unfolding check_object
  check_object-Collects d [] reads v = Collects-nothing d v
  check_object-Collects d ((wtid, ws) ∷ m) reads v =
      let r = check_reads-Collects d wtid ws reads v in
      let w = check_writes-Collects (check_reads a program hb d wtid ws reads) ws m r.cached in
      Collects-then r (
        Collects-then w (
          check_object-Collects
            (check_writes a program hb (check_reads a program hb d wtid ws reads) ws m) m reads
            w.cached))

  check_objects-Collects :
      (d : Detecting) (m : SharedMemory) (os : List ℕ)
      → IsCached program d.cache
      → Collects d (check_objects a program hb d m os) (pairs_objects m os)
  unfolding check_objects
  check_objects-Collects d m [] v = Collects-nothing d v
  check_objects-Collects d m (o ∷ os) v =
      let s = check_object-Collects d (get_threaded_writes m o) (get_threaded_reads m o) v in
      Collects-then s (
        check_objects-Collects
          (check_object a program hb d (get_threaded_writes m o) (get_threaded_reads m o)) m os
          s.cached)

-- The collected pairs are the races among the pairs that the loops go through: parallel events with
-- no common lock that no other analysis excludes.
pub detect_races-keep :
    (a : Analyses) (program : List Thread) (hb : HappensBefore)
    → let m = shared_memory program in
      detect_races a program hb
      ≡ keep (is_race a program hb) (pairs_objects m (get_shared_objects m))
unfolding detect_races
detect_races-keep a program hb =
    let m = shared_memory program in
    (check_objects-Collects a program hb (record { cache = []; pairs = [] }) m
      (get_shared_objects m) tt).collected
