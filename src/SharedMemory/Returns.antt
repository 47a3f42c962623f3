-- ===== src/SharedMemory/Returns.antt =====
-- What SharedMemory returns for an object and a thread: the thread's accesses to it, in order.
use mathlib.Core.Path.{fun_ext}
use mathlib.Core.List.{append-nil, append_assoc}
use open_race.Prelude.{
  ℕ, ◌==◌, if◌then◌else◌, Bool, true, false, List, [], ◌∷◌, ◌++◌, ◌≡◌, refl, sym, ap, ◌∙◌, arith,
  subst,
}
use open_race.Prelude.OrderedMap.{find, at_or}
use open_race.Trace.Event.{Kind, read, write, Event, Thread}
use open_race.SharedMemory.{
  SharedMemory, nothing, get_obj_id, add_read, add_write, add_reads, add_writes, add_kind,
  add_events, add_threads, shared_memory, get_threaded, get_threaded_reads, get_threaded_writes,
}
use open_race.SharedMemory.Accesses.{
  IsNumbered-get_obj_id, IsNumbered-push_back, view-get_obj_id, view-push_back, get_obj_id-found,
  reads_at, writes_at, IsSound, objects_read, objects_written, copies, accesses_in, accesses_of,
}

abbrev only {ℓ} : {A : Type ℓ} → Bool → List A → List A
only b xs = if b then xs else []

-- The step from `m` to `m'` adds accesses of a thread to each object, and keeps the maps sound.
record Adds (m m' : SharedMemory) (tid : ℕ) (r w : ℕ → List Event) : Type 0 where
  sound : IsSound m'
  reads : (o t : ℕ) → reads_at m' o t ≡ reads_at m o t ++ only (tid == t) (r o)
  writes : (o t : ℕ) → writes_at m' o t ≡ writes_at m o t ++ only (tid == t) (w o)

only-append {ℓ} :
    {A : Type ℓ} (b : Bool) (zs xs ys : List A)
    → (zs ++ only b xs) ++ only b ys ≡ zs ++ only b (xs ++ ys)
only-append true zs xs ys = append_assoc zs xs ys
only-append false zs xs ys = append-nil (zs ++ [])

only-nil {ℓ} : {A : Type ℓ} (b : Bool) (zs : List A) → zs ≡ zs ++ only b []
only-nil true zs = sym (append-nil zs)
only-nil false zs = sym (append-nil zs)

Adds-nothing : (m : SharedMemory) (tid : ℕ) → IsSound m → Adds m m tid (λ o. []) (λ o. [])
Adds-nothing m tid s = record {
  sound = s;
  reads = λ o t. only-nil (tid == t) (reads_at m o t);
  writes = λ o t. only-nil (tid == t) (writes_at m o t);
}

Adds-then :
    {m m' m'' : SharedMemory} {tid : ℕ} {r r' w w' : ℕ → List Event}
    → Adds m m' tid r w
    → Adds m' m'' tid r' w'
    → Adds m m'' tid (λ o. r o ++ r' o) (λ o. w o ++ w' o)
Adds-then {m} {tid} {r} {r'} {w} {w'} a b = record {
  sound = b.sound;
  reads = λ o t.
      b.reads o t
      ∙ ap (λ l. l ++ only (tid == t) (r' o)) (a.reads o t)
      ∙ only-append (tid == t) (reads_at m o t) (r o) (r' o);
  writes = λ o t.
      b.writes o t
      ∙ ap (λ l. l ++ only (tid == t) (w' o)) (a.writes o t)
      ∙ only-append (tid == t) (writes_at m o t) (w o) (w' o);
}

add_read-Adds :
    (tid : ℕ) (e : Event) (m : SharedMemory) (obj : ℕ)
    → IsSound m
    → Adds m (add_read tid e m obj) tid (λ o. if obj == o then e ∷ [] else []) (λ o. [])
unfolding add_read
add_read-Adds tid e m obj s =
    let (found, _, _) = get_obj_id-found obj m.obj_ids in
    let n = IsNumbered-get_obj_id obj m.obj_ids m.obj_reads s.reads in
    let id = (get_obj_id obj m.obj_ids).0 in
    let ids = (get_obj_id obj m.obj_ids).1 in
    record {
      sound = record {
        reads = IsNumbered-push_back obj id ids m.obj_reads n found tid e;
        writes = IsNumbered-get_obj_id obj m.obj_ids m.obj_writes s.writes;
      };
      reads = λ o t. ground (
        arith,
        view-push_back obj id ids m.obj_reads n found tid e o t,
        view-get_obj_id obj m.obj_ids m.obj_reads s.reads o t,
        append-nil (reads_at m o t),
      );
      writes = λ o t.
          view-get_obj_id obj m.obj_ids m.obj_writes s.writes o t
          ∙ only-nil (tid == t) (writes_at m o t);
    }

add_write-Adds :
    (tid : ℕ) (e : Event) (m : SharedMemory) (obj : ℕ)
    → IsSound m
    → Adds m (add_write tid e m obj) tid (λ o. []) (λ o. if obj == o then e ∷ [] else [])
unfolding add_write
add_write-Adds tid e m obj s =
    let (found, _, _) = get_obj_id-found obj m.obj_ids in
    let n = IsNumbered-get_obj_id obj m.obj_ids m.obj_writes s.writes in
    let id = (get_obj_id obj m.obj_ids).0 in
    let ids = (get_obj_id obj m.obj_ids).1 in
    record {
      sound = record {
        reads = IsNumbered-get_obj_id obj m.obj_ids m.obj_reads s.reads;
        writes = IsNumbered-push_back obj id ids m.obj_writes n found tid e;
      };
      reads = λ o t.
          view-get_obj_id obj m.obj_ids m.obj_reads s.reads o t
          ∙ only-nil (tid == t) (reads_at m o t);
      writes = λ o t. ground (
        arith,
        view-push_back obj id ids m.obj_writes n found tid e o t,
        view-get_obj_id obj m.obj_ids m.obj_writes s.writes o t,
        append-nil (writes_at m o t),
      );
    }

Adds-subst :
    {m m' : SharedMemory} {tid : ℕ} {r r' w w' : ℕ → List Event}
    → ((o : ℕ) → r o ≡ r' o)
    → ((o : ℕ) → w o ≡ w' o)
    → Adds m m' tid r w
    → Adds m m' tid r' w'
Adds-subst {m} {m'} {tid} {r'} {w} er ew a =
    subst (λ w. Adds m m' tid r' w) (fun_ext ew) (subst (λ r. Adds m m' tid r w) (fun_ext er) a)

copies-cons :
    (o x : ℕ) (e : Event) (xs : List ℕ)
    → (if x == o then e ∷ [] else []) ++ copies o e xs ≡ copies o e (x ∷ xs)
copies-cons o x e xs = ground arith

add_reads-Adds :
    (tid : ℕ) (e : Event) (m : SharedMemory) (objs : List ℕ)
    → IsSound m
    → Adds m (add_reads tid e m objs) tid (λ o. copies o e objs) (λ o. [])
unfolding add_reads
add_reads-Adds tid e m [] s = Adds-nothing m tid s
add_reads-Adds tid e m (x ∷ objs) s =
    let first = add_read-Adds tid e m x s in
    Adds-subst (λ o. copies-cons o x e objs) (λ o. refl)
      (Adds-then first (add_reads-Adds tid e (add_read tid e m x) objs first.sound))

add_writes-Adds :
    (tid : ℕ) (e : Event) (m : SharedMemory) (objs : List ℕ)
    → IsSound m
    → Adds m (add_writes tid e m objs) tid (λ o. []) (λ o. copies o e objs)
unfolding add_writes
add_writes-Adds tid e m [] s = Adds-nothing m tid s
add_writes-Adds tid e m (x ∷ objs) s =
    let first = add_write-Adds tid e m x s in
    Adds-subst (λ o. refl) (λ o. copies-cons o x e objs)
      (Adds-then first (add_writes-Adds tid e (add_write tid e m x) objs first.sound))

add_kind-Adds :
    (tid : ℕ) (e : Event) (m : SharedMemory) (k : Kind)
    → IsSound m
    → Adds m
        (add_kind tid e m k)
        tid
        (λ o. copies o e (objects_read k))
        (λ o. copies o e (objects_written k))
unfolding add_kind
add_kind-Adds tid e m (read objs) s = add_reads-Adds tid e m objs s
add_kind-Adds tid e m (write objs) s = add_writes-Adds tid e m objs s
add_kind-Adds tid e m _ s = Adds-nothing m tid s

add_events-Adds :
    (tid : ℕ) (m : SharedMemory) (es : List Event)
    → IsSound m
    → Adds m
        (add_events tid m es)
        tid
        (λ o. accesses_in objects_read o es)
        (λ o. accesses_in objects_written o es)
unfolding add_events
add_events-Adds tid m [] s = Adds-nothing m tid s
add_events-Adds tid m (e ∷ es) s =
    let first = add_kind-Adds tid e m e.kind s in
    Adds-then first (add_events-Adds tid (add_kind tid e m e.kind) es first.sound)

record Holds (m m' : SharedMemory) (ts : List Thread) : Type 0 where
  sound : IsSound m'
  reads : (o t : ℕ) → reads_at m' o t ≡ reads_at m o t ++ accesses_of objects_read o t ts
  writes : (o t : ℕ) → writes_at m' o t ≡ writes_at m o t ++ accesses_of objects_written o t ts

only-accesses_of :
    (b : Bool) (zs xs ys : List Event)
    → (zs ++ only b xs) ++ ys ≡ zs ++ (if b then xs ++ ys else ys)
only-accesses_of true zs xs ys = append_assoc zs xs ys
only-accesses_of false zs xs ys = ap (λ l. l ++ ys) (append-nil zs)

add_threads-Holds :
    (m : SharedMemory) (ts : List Thread) → IsSound m → Holds m (add_threads m ts) ts
unfolding add_threads
add_threads-Holds m [] s = record {
  sound = s;
  reads = λ o t. sym (append-nil (reads_at m o t));
  writes = λ o t. sym (append-nil (writes_at m o t));
}
add_threads-Holds m (x ∷ ts) s =
    let first = add_events-Adds x.id m x.events s in
    let rest = add_threads-Holds (add_events x.id m x.events) ts first.sound in
    record {
      sound = rest.sound;
      reads = λ o t.
          rest.reads o t
          ∙ ap (λ l. l ++ accesses_of objects_read o t ts) (first.reads o t)
          ∙ only-accesses_of (x.id == t) (reads_at m o t) (accesses_in objects_read o x.events)
              (accesses_of objects_read o t ts);
      writes = λ o t.
          rest.writes o t
          ∙ ap (λ l. l ++ accesses_of objects_written o t ts) (first.writes o t)
          ∙ only-accesses_of (x.id == t) (writes_at m o t) (accesses_in objects_written o x.events)
              (accesses_of objects_written o t ts);
    }

nothing-IsSound : IsSound nothing
unfolding find
nothing-IsSound = record {
  reads = record { bounded = λ o i h. cc; injective = λ o o' i h h'. cc; fresh = λ i h. refl };
  writes = record { bounded = λ o i h. cc; injective = λ o o' i h h'. cc; fresh = λ i h. refl };
}

pub shared_memory-IsSound : (program : List Thread) → IsSound (shared_memory program)
unfolding shared_memory
shared_memory-IsSound program = (add_threads-Holds nothing program nothing-IsSound).sound

-- The accesses that are returned for an object and a thread are the thread's reads of the object,
-- and its writes, in order.
pub get_threaded-accesses_of :
    (program : List Thread) (o tid : ℕ)
    → let m = shared_memory program in
      (at_or tid [] (get_threaded_reads m o) ≡ accesses_of objects_read o tid program)
      × (at_or tid [] (get_threaded_writes m o) ≡ accesses_of objects_written o tid program)
unfolding shared_memory get_threaded_reads get_threaded_writes get_threaded find at_or
get_threaded-accesses_of program o tid =
    let h = add_threads-Holds nothing program nothing-IsSound in (h.reads o tid, h.writes o tid)
