-- ===== src/SharedMemory/Shared.antt =====
-- The objects that SharedMemory reports as shared: those that a thread writes and another accesses.
use open_race.Prelude.{
  ℕ, ◌==◌, ltb, if◌then◌else◌, Bool, true, false, not, ◌&&◌, ◌||◌, none, some, List, [], ◌∷◌, ◌≡◌,
  ◌≢◌, refl, sym, ◌∙◌, ◌↔◌, ◌⊎◌, inl, inr, arith, Bool-cases, Option-cases, ==_iff, length, subst,
}
use open_race.Prelude.OrderedMap.{find, at_or, IsOrdered, Above, find_of_Above}
use open_race.Trace.Event.{Thread}
use open_race.SharedMemory.{
  ByThread, SharedMemory, num_threads, first_thread, is_shared, shared_of, get_shared_objects,
  shared_memory, get_threaded, get_threaded_reads, get_threaded_writes,
}
use open_race.SharedMemory.Accesses.{objects_read, objects_written, accesses_of}
use open_race.SharedMemory.Returns.{get_threaded-accesses_of}
use open_race.SharedMemory.Tidy.{
  IsFilled, AllFilled, IsTidy, nil-IsFilled, at-IsFilled, shared_memory-IsTidy,
}

abbrev HasKey : ℕ → ByThread → Type 0
HasKey t b = find t b ≢ none

-- The test of `is_shared` on the writes and the reads of the object.
test : ByThread → ByThread → Bool
test w r =
    if ltb 1 (length w) || (length w == 1 && ltb 1 (length r))
    then true
    else length w == 1 && length r == 1 && not (first_thread w == first_thread r)

is_shared-test :
    (m : SharedMemory) (id : ℕ)
    → is_shared m id ≡ test (at_or id [] m.obj_writes) (at_or id [] m.obj_reads)
unfolding is_shared test num_threads at_or
is_shared-test m id = elim (Option-cases (find id m.obj_writes)) [
  | inl e ↦ elim (Option-cases (find id m.obj_reads)) [
    | inl e' ↦ ground arith
    | inr (r, e') ↦ ground arith
  ]
  | inr (w, e) ↦ elim (Option-cases (find id m.obj_reads)) [
    | inl e' ↦ ground arith
    | inr (r, e') ↦ ground arith
  ]
]

-- A thread writes, and another writes or reads.
abbrev Contended : ByThread → ByThread → Type 0
Contended w r = (t : ℕ) × (u : ℕ) × HasKey t w × (HasKey u w ⊎ HasKey u r) × (t ≢ u)

test_sound : (w r : ByThread) → IsOrdered w → IsOrdered r → test w r ≡ true → Contended w r
unfolding test first_thread find
test_sound [] r o p h = absurd (ground arith)
test_sound ((t, es) ∷ []) [] o p h = absurd (ground arith)
test_sound ((t, es) ∷ []) ((u, fs) ∷ []) o p h =
    (t, u, ground arith, inr (ground arith), ground arith)
test_sound ((t, es) ∷ []) ((u, fs) ∷ (v, gs) ∷ r) o p h = elim (Bool-cases (t == u)) [
  | inl same ↦ (t, v, ground arith, inr (ground arith), ground arith)
  | inr other ↦ (t, u, ground arith, inr (ground arith), ground arith)
]
test_sound ((t, es) ∷ (u, fs) ∷ w) r o p h = (t, u, ground arith, inl (ground arith), ground arith)

test_complete : (w r : ByThread) → Contended w r → test w r ≡ true
unfolding test first_thread find
test_complete [] r (t, u, k, l, n) = absurd (k refl)
test_complete ((t, es) ∷ []) [] (a, u, k, l, n) = ground arith
test_complete ((t, es) ∷ []) ((v, fs) ∷ []) (a, u, k, l, n) = ground arith
test_complete ((t, es) ∷ []) ((v, fs) ∷ (x, gs) ∷ r) c = ground arith
test_complete ((t, es) ∷ (u, fs) ∷ w) r c = ground arith

⊎_map {ℓ} : {A B C D : Type ℓ} → (A → C) → (B → D) → A ⊎ B → C ⊎ D
⊎_map f g (inl a) = inl (f a)
⊎_map f g (inr b) = inr (g b)

-- The object is in the list.
unfoldable pub listed : ℕ → List ℕ → Bool
listed o [] = false
listed o (x ∷ xs) = x == o || listed o xs

Above-IsOrdered : (n : ℕ) (ids : List (ℕ × ℕ)) → Above n ids → IsOrdered ids
Above-IsOrdered n [] a = tt
Above-IsOrdered n ((k, v) ∷ ids) a = a.1

listed-shared_of :
    (m : SharedMemory) (o : ℕ) (ids : List (ℕ × ℕ))
    → IsOrdered ids
    → (listed o (shared_of m ids) ≡ true)
      ↔ ((id : ℕ) × (find o ids ≡ some id) × (is_shared m id ≡ true))
unfolding listed shared_of find
listed-shared_of m o [] s = (λ h. cc, λ (id, e, _). cc)
listed-shared_of m o ((x, id) ∷ ids) s =
    let ih = listed-shared_of m o ids (Above-IsOrdered x ids s) in
    elim (Bool-cases (x == o)) [
      | inl here ↦
          let gone : find o ids ≡ none =
            subst (λ k. find k ids ≡ none) ((==_iff x o).0 here) (find_of_Above x ids s) in
          (
            (λ h. (
              id,
              ground arith,
              elim (Bool-cases (is_shared m id)) [
                | inl shared ↦ shared
                | inr other ↦ let (i, e, _) = ih.0 (ground arith) in absurd (ground arith)
              ],
            )),
            (λ (i, e, h). ground arith),
          )
      | inr other ↦ (
        (λ h. let (i, e, k) = ih.0 (ground arith) in (i, ground arith, k)),
        (λ (i, e, h). ground (arith, ih.1 (i, ground arith, h))),
      )
    ]

at-get_threaded :
    (ids : List (ℕ × ℕ)) (m : List (ℕ × ByThread)) (o id : ℕ)
    → find o ids ≡ some id
    → get_threaded ids m o ≡ at_or id [] m
unfolding get_threaded at_or
at-get_threaded ids m o id e = ground arith

-- A thread has an entry exactly where it has an access.
HasKey-at_or : (t : ℕ) (b : ByThread) → IsFilled b → HasKey t b ↔ (at_or t [] b ≢ [])
unfolding at_or
HasKey-at_or t b f = elim (Option-cases (find t b)) [
  | inl e ↦ ((λ k. absurd (k e)), (λ n. absurd (n (ground arith))))
  | inr (es, e) ↦ ((λ k. ground (arith, f.1 t es e)), (λ n. ground arith))
]

module _ (m : SharedMemory) (t : IsTidy m) where
  get_threaded-IsFilled :
      (bs : List (ℕ × ByThread)) (o : ℕ) → AllFilled bs → IsFilled (get_threaded m.obj_ids bs o)
  unfolding get_threaded
  get_threaded-IsFilled bs o a = elim (Option-cases (find o m.obj_ids)) [
    | inl e ↦ rw (e, get_threaded) nil-IsFilled
    | inr (id, e) ↦ elim (Option-cases (find id bs)) [
      | inl f ↦ rw (e, f, get_threaded) nil-IsFilled
      | inr (b, f) ↦ rw (e, f, get_threaded) (a id b f)
    ]
  ]

  listed-Contended :
      (o : ℕ)
      → (listed o (get_shared_objects m) ≡ true)
        ↔ Contended (get_threaded_writes m o) (get_threaded_reads m o)
  unfolding get_shared_objects get_threaded_writes get_threaded_reads
  listed-Contended o = (
    λ h.
        let (id, e, k) = (listed-shared_of m o m.obj_ids t.ids).0 h in
        rw
          (
            at-get_threaded m.obj_ids m.obj_writes o id e,
            at-get_threaded m.obj_ids m.obj_reads o id e,
          )
          (test_sound _ _ (at-IsFilled m.obj_writes id t.writes).0
            (at-IsFilled m.obj_reads id t.reads).0 (sym (is_shared-test m id) ∙ k)),
    λ c. elim (Option-cases (find o m.obj_ids)) [
      | inl e ↦ absurd (no_entry e c)
      | inr (id, e) ↦
          let w = at-get_threaded m.obj_ids m.obj_writes o id e in
          let r = at-get_threaded m.obj_ids m.obj_reads o id e in
          (listed-shared_of m o m.obj_ids t.ids).1
            (id, e, is_shared-test m id ∙ test_complete _ _ (rw (w, r) at c))
    ],
  )
    where
      no_entry :
          find o m.obj_ids ≡ none
          → Contended (get_threaded m.obj_ids m.obj_writes o) (get_threaded m.obj_ids m.obj_reads o)
          → ⊥
      no_entry e (a, b, k, _, _) = unfold get_threaded find in k (rw (e, get_threaded, find))

  Contended-at_or :
      (o : ℕ)
      → Contended (get_threaded_writes m o) (get_threaded_reads m o) ↔ (
          (a : ℕ) × (b : ℕ) × (at_or a [] (get_threaded_writes m o) ≢ [])
          × ((at_or b [] (get_threaded_writes m o) ≢ [])
              ⊎ (at_or b [] (get_threaded_reads m o) ≢ []))
          × (a ≢ b))
  unfolding get_threaded_writes get_threaded_reads
  Contended-at_or o =
      let w = λ (a : ℕ). HasKey-at_or a _ (get_threaded-IsFilled m.obj_writes o t.writes) in
      let r = λ (a : ℕ). HasKey-at_or a _ (get_threaded-IsFilled m.obj_reads o t.reads) in
      (
        λ (a, b, k, l, n). (a, b, (w a).0 k, ⊎_map (w b).0 (r b).0 l, n),
        λ (a, b, k, l, n). (a, b, (w a).1 k, ⊎_map (w b).1 (r b).1 l, n),
      )

-- `getSharedObjects` returns exactly the objects that some thread writes and another thread writes
-- or reads.
pub get_shared_objects-accesses_of :
    (program : List Thread) (o : ℕ)
    → (listed o (get_shared_objects (shared_memory program)) ≡ true) ↔ (
        (t : ℕ) × (u : ℕ) × (accesses_of objects_written o t program ≢ [])
        × ((accesses_of objects_written o u program ≢ [])
            ⊎ (accesses_of objects_read o u program ≢ []))
        × (t ≢ u))
get_shared_objects-accesses_of program o =
    let m = shared_memory program in
    let t = shared_memory-IsTidy program in
    let same = λ (a : ℕ). get_threaded-accesses_of program o a in
    let forth = λ (h : listed o (get_shared_objects m) ≡ true).
      (Contended-at_or m t o).0 ((listed-Contended m t o).0 h) in
    (
      λ h.
          let (a, b, k, l, n) = forth h in
          (
            a,
            b,
            λ e. k ((same a).1 ∙ e),
            ⊎_map (λ k e. k ((same b).1 ∙ e)) (λ k e. k ((same b).0 ∙ e)) l,
            n,
          ),
      λ (a, b, k, l, n). (listed-Contended m t o).1 (
          (Contended-at_or m t o).1 (
            a,
            b,
            λ e. k (sym (same a).1 ∙ e),
            ⊎_map (λ k e. k (sym (same b).1 ∙ e)) (λ k e. k (sym (same b).0 ∙ e)) l,
            n,
          )),
    )

pub get_threaded_writes-IsOrdered :
    (m : SharedMemory) → IsTidy m → (o : ℕ) → IsOrdered (get_threaded_writes m o)
unfolding get_threaded_writes
get_threaded_writes-IsOrdered m t o = (get_threaded-IsFilled m t m.obj_writes o t.writes).0
