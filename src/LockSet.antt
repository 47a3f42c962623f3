-- ===== src/LockSet.antt =====
-- src/Analysis/LockSet.h and LockSet.cpp. A multiset of lock values is a list in ascending order.
pub mod Correct
use open_race.Prelude.{
  ℕ, ◌==◌, ltb, if◌then◌else◌, Bool, true, false, Option, none, some, List, [], ◌∷◌,
}
use open_race.Trace.Event.{
  Pid, pid_eq, Kind, read, write, fork, join, lock, unlock, barrier, call, call_end, extern_call,
  Event, Thread, events_of,
}

-- std::multiset::insert
unfoldable pub insert_lock : ℕ → List ℕ → List ℕ
insert_lock l [] = l ∷ []
insert_lock l (k ∷ ks) = if ltb l k then l ∷ k ∷ ks else k ∷ insert_lock l ks

-- `find` and `erase` of the iterator: one copy goes, if there is any.
unfoldable pub erase_one : ℕ → List ℕ → List ℕ
erase_one l [] = []
erase_one l (k ∷ ks) = if k == l then ks else k ∷ erase_one l ks

-- The `switch` of the loop.
unfoldable pub after_event : Kind → List ℕ → List ℕ
after_event (lock l) locks = insert_lock l locks
after_event (unlock l) locks = erase_one l locks
after_event _ locks = locks

-- The loop over the events of the thread, which breaks at the event with the target's ID.
unfoldable pub locks_before : ℕ → List Event → List ℕ → List ℕ
locks_before id [] locks = locks
locks_before id (e ∷ es) locks =
    let rest = locks_before id es (after_event e.kind locks) in
    if e.pid.eid == id then locks else rest

abbrev pub Cache : Type 0
Cache = List (Pid × List ℕ)

unfoldable pub find_cached : Pid → Cache → Option (List ℕ)
find_cached p [] = none
find_cached p ((q, locks) ∷ c) = if pid_eq q p then some locks else find_cached p c

-- The locks that the loop finds, and the cache after the call.
unfoldable pub held_locks : List Thread → Cache → Pid → List ℕ × Cache
held_locks program cache p = elim (find_cached p cache) [
  | some locks ↦ (locks, cache)
  | none ↦
      let locks = locks_before p.eid (events_of program p.tid) [] in (locks, (p, locks) ∷ cache)
]

-- The two iterators over the ascending multisets.
unfoldable pub common : List ℕ → List ℕ → Bool
common [] ks = false
common (l ∷ ls) [] = false
common (l ∷ ls) (k ∷ ks) =
    let left = common ls (k ∷ ks) in
    let right = common (l ∷ ls) ks in if ltb l k then left else if ltb k l then right else true

unfoldable pub shares_lock : List Thread → Cache → Pid → Pid → Bool × Cache
unfolding common
shares_lock program cache lhs rhs =
    let (lhs_locks, cache') = held_locks program cache lhs in
    let (rhs_locks, cache'') = held_locks program cache' rhs in
    (common lhs_locks rhs_locks, cache'')
