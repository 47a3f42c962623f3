-- ===== src/RaceDetect/Sound.antt =====
-- What is known of a pair that is collected as a race.
use mathlib.Core.List.{Memᴰ}
use open_race.Prelude.{
  ℕ, ◌≤◌, Bool, true, false, List, [], ◌∷◌, ◌≡◌, ◌≢◌, sym, ◌∙◌, inl, inr, arith, Bool-cases, subst,
}
use open_race.Trace.Event.{Event, Thread, events_of}
use open_race.HappensBefore.Query.{HappensBefore, are_parallel}
use open_race.HappensBefore.Before.{Before, are_parallel-Before}
use open_race.HappensBefore.Build.{Values, Building, ok, process_threads, blank, happens_before}
use open_race.HappensBefore.Build.Order.{happens_before-stages}
use open_race.LockSet.{common}
use open_race.LockSet.Correct.{depth, locks_at, shares_lock-depth, shares_lock-eq}
use open_race.RaceDetect.{Analyses, is_excluded, detect_races}
use open_race.RaceDetect.Reported.{Pairs, keep, is_race, detect_races-keep}

keep-mem :
    (test : Event → Event → Bool) (w o : Event) (ps : Pairs)
    → Memᴰ (w, o) (keep test ps)
    → test w o ≡ true
keep-mem test w o [] m = elim m [ ]
keep-mem test w o ((x, y) ∷ ps) m = elim (Bool-cases (test x y)) [
  | inl kept ↦ head_or_tail (keep-mem test w o ps) kept (rw kept at m)
  | inr dropped ↦ keep-mem test w o ps (rw dropped at m)
]
  where
    head_or_tail :
        (Memᴰ (w, o) (keep test ps) → test w o ≡ true)
        → test x y ≡ true
        → Memᴰ (w, o) ((x, y) ∷ keep test ps)
        → test w o ≡ true
    head_or_tail later kept (Memᴰ.head e) = subst (λ p. test p.0 p.1 ≡ true) (sym e) kept
    head_or_tail later kept (Memᴰ.tail n) = later n

-- For a collected pair of events of different threads, neither event comes before the other in the
-- graph of the program, no lock is held before both, and no other analysis excludes the pair.
pub detect_races_sound :
    (vs : Values) (a : Analyses) (program : List Thread) (hb : HappensBefore) (w o : Event)
    → happens_before vs program ≡ ok hb
    → Memᴰ (w, o) (detect_races a program hb)
    → w.pid.tid ≢ o.pid.tid
    → (s : Building) × (process_threads vs program blank program ≡ ok s)
      × (¬ Before s.graph w.pid o.pid)
      × (¬ Before s.graph o.pid w.pid)
      × ((l : ℕ)
          → ¬ (
              (1 ≤ depth l w.pid.eid (events_of program w.pid.tid) 0)
              × (1 ≤ depth l o.pid.eid (events_of program o.pid.tid) 0)))
      × (is_excluded a w o ≡ false)
detect_races_sound vs a program hb w o done m apart =
    let (s, built, well, closed) = happens_before-stages vs program hb done in
    let race =
      keep-mem (is_race a program hb) w o _
        (subst (Memᴰ (w, o)) (detect_races-keep a program hb) m) in
    let parallel : are_parallel hb w.pid o.pid ≡ true = ground arith in
    let unlocked : common (locks_at program w.pid) (locks_at program o.pid) ≡ false =
      ground arith in
    let (iff, _) = are_parallel-Before s.graph hb w.pid o.pid well closed apart in
    let orders = iff.0 parallel in
    let locks = shares_lock-depth program [] w.pid o.pid tt in
    let same = (shares_lock-eq program [] w.pid o.pid tt).0 in
    (
      s,
      built,
      orders.0,
      orders.1,
      λ l (p, q). let e = sym (locks.0.1 (l, p, q)) ∙ same ∙ unlocked in cc,
      ground arith,
    )
