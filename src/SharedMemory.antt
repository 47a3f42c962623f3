-- ===== src/SharedMemory.antt =====
-- src/Analysis/SharedMemory.h and SharedMemory.cpp: the accesses of each abstract object by thread.
pub mod Accesses
pub mod Returns
pub mod Tidy
pub mod Shared
use open_race.Prelude.{
  ℕ, ◌==◌, ltb, if◌then◌else◌, Bool, true, false, not, ◌&&◌, ◌||◌, Option, none, some, List, [],
  ◌∷◌, ◌++◌, length,
}
use open_race.Prelude.OrderedMap.{find, assign, at_or}
use open_race.Trace.Event.{
  Pid, Kind, read, write, fork, join, lock, unlock, barrier, call, call_end, extern_call, Event,
  Thread,
}

-- std::map<ThreadID, std::vector<...>>
abbrev pub ByThread : Type 0
ByThread = List (ℕ × List Event)

pub record SharedMemory : Type 0 where
  pub obj_ids : List (ℕ × ℕ)
  pub obj_reads : List (ℕ × ByThread)
  pub obj_writes : List (ℕ × ByThread)

abbrev pub nothing : SharedMemory
nothing = record { obj_ids = []; obj_reads = []; obj_writes = [] }

-- The lambda `getObjId`: the id of the object, a new one where it has none.
unfoldable pub get_obj_id : ℕ → List (ℕ × ℕ) → ℕ × List (ℕ × ℕ)
get_obj_id obj ids = elim (find obj ids) [
  | some id ↦ (id, ids)
  | none ↦ (length ids, assign obj (length ids) ids)
]

-- `accesses[id][tid].push_back(event)`
unfoldable pub push_back : ℕ → ℕ → Event → List (ℕ × ByThread) → List (ℕ × ByThread)
push_back id tid e m =
    let by_thread = at_or id [] m in
    assign id (assign tid (at_or tid [] by_thread ++ e ∷ []) by_thread) m

unfoldable pub add_read : ℕ → Event → SharedMemory → ℕ → SharedMemory
add_read tid e m obj =
    let (id, ids) = get_obj_id obj m.obj_ids in
    record m { obj_ids = ids; obj_reads = push_back id tid e m.obj_reads }

unfoldable pub add_write : ℕ → Event → SharedMemory → ℕ → SharedMemory
add_write tid e m obj =
    let (id, ids) = get_obj_id obj m.obj_ids in
    record m { obj_ids = ids; obj_writes = push_back id tid e m.obj_writes }

-- The loops over the accessed memory of a read and of a write.
unfoldable pub add_reads : ℕ → Event → SharedMemory → List ℕ → SharedMemory
add_reads tid e m [] = m
add_reads tid e m (obj ∷ objs) = add_reads tid e (add_read tid e m obj) objs

unfoldable pub add_writes : ℕ → Event → SharedMemory → List ℕ → SharedMemory
add_writes tid e m [] = m
add_writes tid e m (obj ∷ objs) = add_writes tid e (add_write tid e m obj) objs

-- The `switch` on the type of an event of the thread.
unfoldable pub add_kind : ℕ → Event → SharedMemory → Kind → SharedMemory
add_kind tid e m (read objs) = add_reads tid e m objs
add_kind tid e m (write objs) = add_writes tid e m objs
add_kind tid e m _ = m

unfoldable pub add_events : ℕ → SharedMemory → List Event → SharedMemory
unfolding add_kind
add_events tid m [] = m
add_events tid m (e ∷ es) = add_events tid (add_kind tid e m e.kind) es

-- The constructor, from the members' initial values.
unfoldable pub add_threads : SharedMemory → List Thread → SharedMemory
add_threads m [] = m
add_threads m (t ∷ ts) = add_threads (add_events t.id m t.events) ts

unfoldable pub shared_memory : List Thread → SharedMemory
unfolding add_threads
shared_memory program = add_threads nothing program

-- `numThreadsWrite` and `numThreadsRead`, over their maps.
unfoldable pub num_threads : List (ℕ × ByThread) → ℕ → ℕ
num_threads m id = elim (find id m) [ none ↦ 0 | some by_thread ↦ length by_thread ]

-- `getThreadedReads` and `getThreadedWrites`, over their maps.
unfoldable pub get_threaded : List (ℕ × ℕ) → List (ℕ × ByThread) → ℕ → ByThread
get_threaded ids m obj = elim (find obj ids) [
  | none ↦ []
  | some id ↦ elim (find id m) [ none ↦ [] | some by_thread ↦ by_thread ]
]

unfoldable pub get_threaded_reads : SharedMemory → ℕ → ByThread
unfolding get_threaded
get_threaded_reads m obj = get_threaded m.obj_ids m.obj_reads obj

unfoldable pub get_threaded_writes : SharedMemory → ℕ → ByThread
unfolding get_threaded
get_threaded_writes m obj = get_threaded m.obj_ids m.obj_writes obj

-- `begin()->first`, 0 for an empty map.
unfoldable pub first_thread : ByThread → ℕ
first_thread [] = 0
first_thread ((t, es) ∷ m) = t

-- The test of `getSharedObjects` for one object id.
unfoldable pub is_shared : SharedMemory → ℕ → Bool
unfolding num_threads first_thread
is_shared m id =
    let writers = num_threads m.obj_writes id in
    let readers = num_threads m.obj_reads id in
    if ltb 1 writers || (writers == 1 && ltb 1 readers)
    then true
    else writers == 1
      && readers == 1
      && not (first_thread (at_or id [] m.obj_writes) == first_thread (at_or id [] m.obj_reads))

-- The loop of `getSharedObjects`, in the order of the map.
unfoldable pub shared_of : SharedMemory → List (ℕ × ℕ) → List ℕ
shared_of m [] = []
shared_of m ((obj, id) ∷ ids) =
    let rest = shared_of m ids in if is_shared m id then obj ∷ rest else rest

unfoldable pub get_shared_objects : SharedMemory → List ℕ
unfolding shared_of
get_shared_objects m = shared_of m m.obj_ids
