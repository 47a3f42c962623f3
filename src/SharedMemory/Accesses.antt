-- ===== src/SharedMemory/Accesses.antt =====
-- What SharedMemory returns for an object and a thread: the thread's accesses to it, in order.
use open_race.Prelude.{
  ℕ, suc, ◌==◌, ◌≤◌, ◌<◌, if◌then◌else◌, ◌&&◌, none, some, List, [], ◌∷◌, ◌++◌, ◌≡◌, ◌≢◌, refl, inl,
  inr, arith, Option-cases, ==_iff, length,
}
use open_race.Prelude.OrderedMap.{find, assign, at_or, find-assign}
use open_race.Trace.Event.{Kind, read, write, Event, Thread}
use open_race.SharedMemory.{ByThread, SharedMemory, get_obj_id, push_back, get_threaded}

-- What is stored for an object and a thread.
abbrev pub view : List (ℕ × ℕ) → List (ℕ × ByThread) → ℕ → ℕ → List Event
view ids m obj tid = at_or tid [] (get_threaded ids m obj)

-- Ids are below the size of the map and belong to one object each, and only ids have accesses.
pub record IsNumbered (ids : List (ℕ × ℕ)) (m : List (ℕ × ByThread)) : Type 0 where
  pub bounded : (o i : ℕ) → find o ids ≡ some i → i < length ids
  pub injective : (o o' i : ℕ) → find o ids ≡ some i → find o' ids ≡ some i → o ≡ o'
  pub fresh : (i : ℕ) → length ids ≤ i → find i m ≡ none

length-assign :
    {V : Type 0} (k : ℕ) (v : V) (m : List (ℕ × V))
    → find k m ≡ none
    → length (assign k v m) ≡ suc (length m)
unfolding find assign
length-assign k v [] h = refl
length-assign k v ((j, w) ∷ m) h = ground (arith, length-assign k v m)

pub get_obj_id-found :
    (obj : ℕ) (ids : List (ℕ × ℕ))
    → let (id, ids') = get_obj_id obj ids in
      (find obj ids' ≡ some id)
      × ((o : ℕ) → o ≢ obj → find o ids' ≡ find o ids)
      × (length ids ≤ length ids')
unfolding get_obj_id
get_obj_id-found obj ids = elim (Option-cases (find obj ids)) [
  | inr (i, e) ↦ rw (e, get_obj_id) (e, (λ o h. refl), omega arith)
  | inl e ↦
      rw (e, get_obj_id)
        (
          ground (arith, find-assign obj obj (length ids) ids),
          (λ o h. ground (arith, find-assign obj o (length ids) ids)),
          omega (arith, length-assign obj (length ids) ids e),
        )
]

module _ (obj : ℕ) (ids : List (ℕ × ℕ)) (m : List (ℕ × ByThread)) (n : IsNumbered ids m) where
  -- A new id changes nothing that is stored.
  pub view-get_obj_id : (o tid : ℕ) → view (get_obj_id obj ids).1 m o tid ≡ view ids m o tid
  unfolding get_obj_id get_threaded at_or find
  view-get_obj_id o tid = elim (Option-cases (find obj ids)) [
    | inr (i, e) ↦ ground arith
    | inl e ↦ ground (arith, find-assign obj o (length ids) ids, n.fresh (length ids))
  ]

  pub IsNumbered-get_obj_id : IsNumbered (get_obj_id obj ids).1 m
  unfolding get_obj_id
  IsNumbered-get_obj_id = elim (Option-cases (find obj ids)) [
    | inr (i, e) ↦ rw (e, get_obj_id) n
    | inl e ↦
        rw (e, get_obj_id)
          (record {
            bounded = λ o i h. ground (
              arith,
              find-assign obj o (length ids) ids,
              length-assign obj (length ids) ids e,
              n.bounded o i,
            );
            injective = λ o o' i h h'. ground (
              arith,
              find-assign obj o (length ids) ids,
              find-assign obj o' (length ids) ids,
              n.injective o o' i,
              n.bounded o i,
              n.bounded o' i,
            );
            fresh = λ i h. ground (arith, length-assign obj (length ids) ids e, n.fresh i);
          })
  ]

module _ (obj i : ℕ) (ids : List (ℕ × ℕ)) (m : List (ℕ × ByThread)) (n : IsNumbered ids m)
    (found : find obj ids ≡ some i) (tid : ℕ) (e : Event) where
  -- An access is stored behind the others of its object and thread, and nowhere else.
  pub view-push_back :
      (o t : ℕ)
      → view ids (push_back i tid e m) o t
        ≡ (if obj == o && tid == t then view ids m o t ++ e ∷ [] else view ids m o t)
  unfolding push_back get_threaded at_or find
  view-push_back o t =
      let old = at_or i [] m in
      let new = assign tid (at_or tid [] old ++ e ∷ []) old in
      elim (Option-cases (find o ids)) [
        | inl no_id ↦ ground (arith, ==_iff obj o)
        | inr (j, id) ↦ ground (
          arith,
          find-assign i j new m,
          find-assign tid t (at_or tid [] old ++ e ∷ []) old,
          n.injective obj o i found,
          ==_iff obj o,
        )
      ]

  pub IsNumbered-push_back : IsNumbered ids (push_back i tid e m)
  unfolding push_back
  IsNumbered-push_back = record {
    bounded = n.bounded;
    injective = n.injective;
    fresh = λ j h. ground (
      arith,
      find-assign i j (assign tid (at_or tid [] (at_or i [] m) ++ e ∷ []) (at_or i [] m)) m,
      n.bounded obj i found,
      n.fresh j h,
    );
  }

abbrev pub reads_at : SharedMemory → ℕ → ℕ → List Event
reads_at m o t = view m.obj_ids m.obj_reads o t

abbrev pub writes_at : SharedMemory → ℕ → ℕ → List Event
writes_at m o t = view m.obj_ids m.obj_writes o t

pub record IsSound (m : SharedMemory) : Type 0 where
  pub reads : IsNumbered m.obj_ids m.obj_reads
  pub writes : IsNumbered m.obj_ids m.obj_writes

abbrev pub objects_read : Kind → List ℕ
objects_read (read objs) = objs
objects_read _ = []

abbrev pub objects_written : Kind → List ℕ
objects_written (write objs) = objs
objects_written _ = []

-- The event, once for each time that the object is among those accessed.
abbrev pub copies : ℕ → Event → List ℕ → List Event
copies o e [] = []
copies o e (x ∷ xs) = if x == o then e ∷ copies o e xs else copies o e xs

-- The accesses of a list of events to an object, in order.
abbrev pub accesses_in : (Kind → List ℕ) → ℕ → List Event → List Event
accesses_in objects o [] = []
accesses_in objects o (e ∷ es) = copies o e (objects e.kind) ++ accesses_in objects o es

-- The accesses of the threads with an id to an object, in order.
abbrev pub accesses_of : (Kind → List ℕ) → ℕ → ℕ → List Thread → List Event
accesses_of objects o tid [] = []
accesses_of objects o tid (t ∷ ts) =
    if t.id == tid
    then accesses_in objects o t.events ++ accesses_of objects o tid ts
    else accesses_of objects o tid ts
