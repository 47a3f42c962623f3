-- ===== src/RaceDetect/Complete.antt =====
-- No race between accesses of different threads to one object is left out.
use mathlib.Core.List.{Memᴰ}
use mathlib.Core.List.Memᴰ
use open_race.Prelude.{
  ◌⊎◌, ℕ, ◌==◌, ◌<◌, if◌then◌else◌, Bool, true, false, some, List, [], ◌∷◌, ◌≡◌, ◌≢◌, sym, ap, inl,
  inr, arith, Bool-cases, Option-cases, subst, ==_iff,
}
use open_race.Prelude.OrderedMap.{find, at_or, IsOrdered, Above}
use open_race.Trace.Event.{Event, Thread}
use open_race.HappensBefore.Query.{HappensBefore}
use open_race.SharedMemory.{
  ByThread, SharedMemory, shared_memory, get_shared_objects, get_threaded_reads,
  get_threaded_writes,
}
use open_race.SharedMemory.Accesses.{objects_read, objects_written, accesses_of}
use open_race.SharedMemory.Returns.{get_threaded-accesses_of}
use open_race.SharedMemory.Tidy.{shared_memory-IsTidy}
use open_race.SharedMemory.Shared.{
  listed, get_shared_objects-accesses_of, get_threaded_writes-IsOrdered,
}
use open_race.RaceDetect.{Analyses, detect_races}
use open_race.RaceDetect.Reported.{
  Pairs, keep, pairs_others, pairs_each, pairs_reads, pairs_writes, pairs_object, pairs_objects,
  is_race, detect_races-keep,
}

mem-pairs_others :
    (w : Event) (o : Event) (os : List Event) → Memᴰ o os → Memᴰ (w, o) (pairs_others w os)
mem-pairs_others w o [] m = elim m [ ]
mem-pairs_others w o (x ∷ os) (Memᴰ.head e) = Memᴰ.head (ap (λ y. (w, y)) e)
mem-pairs_others w o (x ∷ os) (Memᴰ.tail m) = Memᴰ.tail (mem-pairs_others w o os m)

mem-pairs_each :
    (w o : Event) (ws os : List Event) → Memᴰ w ws → Memᴰ o os → Memᴰ (w, o) (pairs_each ws os)
mem-pairs_each w o [] os m n = elim m [ ]
mem-pairs_each w o (x ∷ ws) os (Memᴰ.head e) n =
    Memᴰ.append_left _ (subst (λ y. Memᴰ (w, o) (pairs_others y os)) e (mem-pairs_others w o os n))
mem-pairs_each w o (x ∷ ws) os (Memᴰ.tail m) n =
    Memᴰ.append_right (pairs_others x os) (mem-pairs_each w o ws os m n)

module _ (t u : ℕ) (w o : Event) (ws os : List Event) (mw : Memᴰ w ws) (mo : Memᴰ o os) where
  mem-pairs_reads : (m : ByThread) → t ≢ u → find u m ≡ some os → Memᴰ (w, o) (pairs_reads t ws m)
  unfolding find
  mem-pairs_reads [] n f = cc
  mem-pairs_reads ((r, rs) ∷ m) n f = elim (Bool-cases (r == u)) [
    | inl here ↦
        let e : rs ≡ os = ground arith in
        let other : (t == r) ≡ false = ground arith in
        rw other (
          Memᴰ.append_left _
            (subst (λ y. Memᴰ (w, o) (pairs_each ws y)) (sym e) (mem-pairs_each w o ws os mw mo)))
    | inr later ↦
        Memᴰ.append_right (if t == r then [] else pairs_each ws rs)
          (mem-pairs_reads m n (ground arith))
  ]

  mem-pairs_writes : (m : ByThread) → find u m ≡ some os → Memᴰ (w, o) (pairs_writes ws m)
  unfolding find
  mem-pairs_writes [] f = cc
  mem-pairs_writes ((r, rs) ∷ m) f = elim (Bool-cases (r == u)) [
    | inl here ↦
        let e : rs ≡ os = ground arith in
        Memᴰ.append_left _
          (subst (λ y. Memᴰ (w, o) (pairs_each ws y)) (sym e) (mem-pairs_each w o ws os mw mo))
    | inr later ↦ Memᴰ.append_right (pairs_each ws rs) (mem-pairs_writes m (ground arith))
  ]

module _ (t u : ℕ) (w o : Event) (ws os : List Event) (mw : Memᴰ w ws) (mo : Memᴰ o os) where
  mem-object_reads :
      (writes reads : ByThread)
      → t ≢ u
      → find t writes ≡ some ws
      → find u reads ≡ some os
      → Memᴰ (w, o) (pairs_object writes reads)
  unfolding find
  mem-object_reads [] reads n f g = cc
  mem-object_reads ((r, rs) ∷ m) reads n f g = elim (Bool-cases (r == t)) [
    | inl here ↦
        let e : rs ≡ ws = ground arith in
        let found = mem-pairs_reads t u w o ws os mw mo reads n g in
        let moved : Memᴰ (w, o) (pairs_reads r rs reads) =
          subst (λ y. Memᴰ (w, o) (pairs_reads r y reads)) (sym e)
            (subst (λ y. Memᴰ (w, o) (pairs_reads y ws reads)) (sym ((==_iff r t).0 here)) found) in
        Memᴰ.append_left _ moved
    | inr later ↦
        Memᴰ.append_right (pairs_reads r rs reads)
          (Memᴰ.append_right (pairs_writes rs m) (mem-object_reads m reads n (ground arith) g))
  ]

  mem-object_writes :
      (writes reads : ByThread)
      → IsOrdered writes
      → t < u
      → find t writes ≡ some ws
      → find u writes ≡ some os
      → Memᴰ (w, o) (pairs_object writes reads)
  unfolding find
  mem-object_writes [] reads ord n f g = cc
  mem-object_writes ((r, rs) ∷ m) reads ord n f g = elim (Bool-cases (r == t)) [
    | inl here ↦
        let e : rs ≡ ws = ground arith in
        let found = mem-pairs_writes t u w o ws os mw mo m (ground arith) in
        Memᴰ.append_right (pairs_reads r rs reads)
          (Memᴰ.append_left _ (subst (λ y. Memᴰ (w, o) (pairs_writes y m)) (sym e) found))
    | inr later ↦ elim (Bool-cases (r == u)) [
      | inl there ↦ absurd (below_absent r m ord (ground arith))
      | inr after ↦ Memᴰ.append_right (pairs_reads r rs reads) (
          Memᴰ.append_right (pairs_writes rs m)
            (mem-object_writes m reads (Above-ordered r m ord) n (ground arith) (ground arith)))
    ]
  ]
    where
      Above-ordered : (n : ℕ) (m : ByThread) → Above n m → IsOrdered m
      Above-ordered n [] a = tt
      Above-ordered n ((k, v) ∷ m) a = a.1

      below_absent : (n : ℕ) (m : ByThread) → Above n m → (t < n) × (find t m ≡ some ws) → ⊥
      below_absent n [] a (h, f) = cc
      below_absent n ((k, v) ∷ m) a (h, f) = ground (arith, below_absent k m)

mem-keep :
    (test : Event → Event → Bool) (w o : Event) (ps : Pairs)
    → test w o ≡ true
    → Memᴰ (w, o) ps
    → Memᴰ (w, o) (keep test ps)
mem-keep test w o [] h m = elim m [ ]
mem-keep test w o ((x, y) ∷ ps) h (Memᴰ.head e) =
    let passes : test x y ≡ true = subst (λ p. test p.0 p.1 ≡ true) e h in rw passes (Memᴰ.head e)
mem-keep test w o ((x, y) ∷ ps) h (Memᴰ.tail m) = elim (Bool-cases (test x y)) [
  | inl kept ↦ rw kept (Memᴰ.tail (mem-keep test w o ps h m))
  | inr dropped ↦ rw dropped (mem-keep test w o ps h m)
]

mem-pairs_objects :
    (m : SharedMemory) (x : ℕ) (p : Event × Event) (os : List ℕ)
    → listed x os ≡ true
    → Memᴰ p (pairs_object (get_threaded_writes m x) (get_threaded_reads m x))
    → Memᴰ p (pairs_objects m os)
unfolding listed
mem-pairs_objects m x p [] h n = cc
mem-pairs_objects m x p (y ∷ os) h n = elim (Bool-cases (y == x)) [
  | inl here ↦ Memᴰ.append_left _ (
      subst (λ z. Memᴰ p (pairs_object (get_threaded_writes m z) (get_threaded_reads m z)))
        (sym ((==_iff y x).0 here)) n)
  | inr later ↦
      Memᴰ.append_right (pairs_object (get_threaded_writes m y) (get_threaded_reads m y))
        (mem-pairs_objects m x p os (ground arith) n)
]

-- A thread with an access has an entry.
find_of_mem :
    (t : ℕ) (e : Event) (b : ByThread) → Memᴰ e (at_or t [] b) → find t b ≡ some (at_or t [] b)
unfolding at_or
find_of_mem t e b m = elim (Option-cases (find t b)) [
  | inl absent ↦ absurd (Memᴰ.not-nil (rw (absent, at_or) at m))
  | inr (es, e') ↦ ground arith
]

ne-nil_of_mem : {e : Event} {es : List Event} → Memᴰ e es → es ≢ []
ne-nil_of_mem {e} m n = Memᴰ.not-nil (subst (Memᴰ e) n m)

-- A race between a write of one thread and a read of another to one object is collected, and so is
-- a race between writes of two threads to one object when the first write is by the thread with the
-- smaller id.
pub detect_races_complete :
    (a : Analyses) (program : List Thread) (hb : HappensBefore) (obj t u : ℕ) (w o : Event)
    → is_race a program hb w o ≡ true
    → Memᴰ w (accesses_of objects_written obj t program)
    → ((t ≢ u) × Memᴰ o (accesses_of objects_read obj u program))
      ⊎ ((t < u) × Memᴰ o (accesses_of objects_written obj u program))
    → Memᴰ (w, o) (detect_races a program hb)
detect_races_complete a program hb obj t u w o race mw pair =
    let m = shared_memory program in
    let writes = λ (v : ℕ). (get_threaded-accesses_of program obj v).1 in
    let reads = λ (v : ℕ). (get_threaded-accesses_of program obj v).0 in
    let mw' = subst (Memᴰ w) (sym (writes t)) mw in
    let fw = find_of_mem t w (get_threaded_writes m obj) mw' in
    let collected =
      λ (shared : listed obj (get_shared_objects m) ≡ true)
          (n : Memᴰ (w, o) (pairs_object (get_threaded_writes m obj) (get_threaded_reads m obj))).
        subst (Memᴰ (w, o)) (sym (detect_races-keep a program hb)) (
          mem-keep (is_race a program hb) w o _ race
            (mem-pairs_objects m obj (w, o) (get_shared_objects m) shared n)) in
    elim pair [
      | inl (n, mo) ↦
          let mo' = subst (Memᴰ o) (sym (reads u)) mo in
          collected
            ((get_shared_objects-accesses_of program obj).1
              (t, u, ne-nil_of_mem mw, inr (ne-nil_of_mem mo), n))
            (mem-object_reads t u w o _ _ mw' mo' (get_threaded_writes m obj)
              (get_threaded_reads m obj) n fw (find_of_mem u o (get_threaded_reads m obj) mo'))
      | inr (n, mo) ↦
          let mo' = subst (Memᴰ o) (sym (writes u)) mo in
          collected
            ((get_shared_objects-accesses_of program obj).1
              (t, u, ne-nil_of_mem mw, inl (ne-nil_of_mem mo), λ e. omega arith))
            (mem-object_writes t u w o _ _ mw' mo' (get_threaded_writes m obj)
              (get_threaded_reads m obj)
              (get_threaded_writes-IsOrdered m (shared_memory-IsTidy program) obj) n fw
              (find_of_mem u o (get_threaded_writes m obj) mo'))
    ]
