-- ===== src/SharedMemory/Tidy.antt =====
-- The maps of SharedMemory stay ordered, and a thread with an entry has an access there.
use open_race.Prelude.{
  ℕ, some, List, [], ◌∷◌, ◌++◌, ◌≡◌, ◌≢◌, arith, Option-cases, length, inl, inr,
}
use open_race.Prelude.OrderedMap.{find, assign, at_or, find-assign, IsOrdered, assign-IsOrdered}
use open_race.Trace.Event.{Kind, read, write, Event, Thread}
use open_race.SharedMemory.{
  ByThread, SharedMemory, nothing, get_obj_id, push_back, add_read, add_write, add_reads,
  add_writes, add_kind, add_events, add_threads, shared_memory,
}

abbrev pub IsFilled : ByThread → Type 0
IsFilled b = IsOrdered b × ((t : ℕ) (es : List Event) → find t b ≡ some es → es ≢ [])

abbrev pub AllFilled : List (ℕ × ByThread) → Type 0
AllFilled m = (id : ℕ) (b : ByThread) → find id m ≡ some b → IsFilled b

pub record IsTidy (m : SharedMemory) : Type 0 where
  pub ids : IsOrdered m.obj_ids
  pub reads : AllFilled m.obj_reads
  pub writes : AllFilled m.obj_writes

append-ne-nil : (xs : List Event) (e : Event) → xs ++ e ∷ [] ≢ []
append-ne-nil [] e h = cc
append-ne-nil (x ∷ xs) e h = cc

assign-IsFilled :
    (tid : ℕ) (xs : List Event) (e : Event) (b : ByThread)
    → IsFilled b
    → IsFilled (assign tid (xs ++ e ∷ []) b)
assign-IsFilled tid xs e b f = (
  assign-IsOrdered tid (xs ++ e ∷ []) b f.0,
  λ t es h. ground (arith, find-assign tid t (xs ++ e ∷ []) b, f.1 t es, append-ne-nil xs e),
)

pub nil-IsFilled : IsFilled []
unfolding find
nil-IsFilled = (tt, λ t es h. cc)

pub at-IsFilled : (m : List (ℕ × ByThread)) (id : ℕ) → AllFilled m → IsFilled (at_or id [] m)
unfolding at_or
at-IsFilled m id a = elim (Option-cases (find id m)) [
  | inl e ↦ rw (e, at_or) nil-IsFilled
  | inr (b, e) ↦ rw (e, at_or) (a id b e)
]

push_back-AllFilled :
    (id tid : ℕ) (e : Event) (m : List (ℕ × ByThread))
    → AllFilled m
    → AllFilled (push_back id tid e m)
unfolding push_back
push_back-AllFilled id tid e m a j b h =
    let old = at_or id [] m in
    let new = assign tid (at_or tid [] old ++ e ∷ []) old in
    let kept = assign-IsFilled tid (at_or tid [] old) e old (at-IsFilled m id a) in
    elim (Option-cases (find j m)) [
      | inl none_there ↦ subst_filled j b new kept (ground (arith, find-assign id j new m))
      | inr (c, there) ↦ ground (arith, find-assign id j new m, kept, a j c there)
    ]
  where
    subst_filled : (j : ℕ) (b new : ByThread) → IsFilled new → b ≡ new → IsFilled b
    subst_filled j b new k q = rw q k

get_obj_id-IsOrdered :
    (obj : ℕ) (ids : List (ℕ × ℕ)) → IsOrdered ids → IsOrdered (get_obj_id obj ids).1
unfolding get_obj_id
get_obj_id-IsOrdered obj ids o = elim (Option-cases (find obj ids)) [
  | inl e ↦ rw (e, get_obj_id) (assign-IsOrdered obj (length ids) ids o)
  | inr (i, e) ↦ rw (e, get_obj_id) o
]

add_reads-IsTidy :
    (tid : ℕ) (e : Event) (m : SharedMemory) (objs : List ℕ)
    → IsTidy m
    → IsTidy (add_reads tid e m objs)
unfolding add_reads add_read
add_reads-IsTidy tid e m [] t = t
add_reads-IsTidy tid e m (x ∷ objs) t = add_reads-IsTidy tid e (add_read tid e m x) objs (record {
  ids = get_obj_id-IsOrdered x m.obj_ids t.ids;
  reads = push_back-AllFilled (get_obj_id x m.obj_ids).0 tid e m.obj_reads t.reads;
  writes = t.writes;
})

add_writes-IsTidy :
    (tid : ℕ) (e : Event) (m : SharedMemory) (objs : List ℕ)
    → IsTidy m
    → IsTidy (add_writes tid e m objs)
unfolding add_writes add_write
add_writes-IsTidy tid e m [] t = t
add_writes-IsTidy tid e m (x ∷ objs) t =
    add_writes-IsTidy tid e (add_write tid e m x) objs (record {
      ids = get_obj_id-IsOrdered x m.obj_ids t.ids;
      reads = t.reads;
      writes = push_back-AllFilled (get_obj_id x m.obj_ids).0 tid e m.obj_writes t.writes;
    })

add_kind-IsTidy :
    (tid : ℕ) (e : Event) (m : SharedMemory) (k : Kind) → IsTidy m → IsTidy (add_kind tid e m k)
unfolding add_kind
add_kind-IsTidy tid e m (read objs) t = add_reads-IsTidy tid e m objs t
add_kind-IsTidy tid e m (write objs) t = add_writes-IsTidy tid e m objs t
add_kind-IsTidy tid e m _ t = t

add_events-IsTidy :
    (tid : ℕ) (m : SharedMemory) (es : List Event) → IsTidy m → IsTidy (add_events tid m es)
unfolding add_events
add_events-IsTidy tid m [] t = t
add_events-IsTidy tid m (e ∷ es) t =
    add_events-IsTidy tid (add_kind tid e m e.kind) es (add_kind-IsTidy tid e m e.kind t)

add_threads-IsTidy : (m : SharedMemory) (ts : List Thread) → IsTidy m → IsTidy (add_threads m ts)
unfolding add_threads
add_threads-IsTidy m [] t = t
add_threads-IsTidy m (x ∷ ts) t =
    add_threads-IsTidy (add_events x.id m x.events) ts (add_events-IsTidy x.id m x.events t)

pub shared_memory-IsTidy : (program : List Thread) → IsTidy (shared_memory program)
unfolding shared_memory find
shared_memory-IsTidy program =
    add_threads-IsTidy nothing program
      (record { ids = tt; reads = λ id b h. cc; writes = λ id b h. cc })
