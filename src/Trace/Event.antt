-- ===== src/Trace/Event.antt =====
-- src/Trace/Event.h, src/Trace/EventImpl.h and src/Trace/ThreadTrace.h: the events of a thread and
-- the flat list of threads of a program. An LLVM instruction, value or function and an abstract
-- object of the pointer analysis stand for themselves by their addresses.
use open_race.Prelude.{ℕ, ◌==◌, ltb, if◌then◌else◌, Bool, ◌&&◌, ◌||◌, Option, List, [], ◌∷◌}
use open_race.Ir.{Tag}

-- EventPID: an event named by its thread and its place in it.
pub record Pid : Type 0 where
  pub tid : ℕ
  pub eid : ℕ

pub data Kind : Type 0 where
  -- with the accessed memory
  read write : List ℕ → Kind
  -- with the thread handle
  fork : ℕ → Kind
  -- with the fork that is set explicitly, if any, and the thread handle
  join : Option Pid → ℕ → Kind
  -- with the value of the lock
  lock unlock : ℕ → Kind
  barrier call call_end extern_call : Kind

pub record Event : Type 0 where
  pub kind : Kind
  pub pid : Pid
  pub inst : ℕ
  -- `getIRType`
  pub tag : Tag

pub record Thread : Type 0 where
  pub id : ℕ
  pub spawn_site : Option Pid
  pub events : List Event

-- EventPID::operator==
unfoldable pub pid_eq : Pid → Pid → Bool
pid_eq p q = p.tid == q.tid && p.eid == q.eid

-- EventPID::operator<
unfoldable pub pid_lt : Pid → Pid → Bool
pid_lt p q = if p.tid == q.tid then ltb p.eid q.eid else ltb p.tid q.tid

-- EventPID::operator<=
unfoldable pub pid_le : Pid → Pid → Bool
unfolding pid_lt pid_eq
pid_le p q = pid_lt p q || pid_eq p q

-- `event->getThread().getEvents()` for an event of the thread with the id.
unfoldable pub events_of : List Thread → ℕ → List Event
events_of [] tid = []
events_of (t ∷ ts) tid = if t.id == tid then t.events else events_of ts tid
