-- ===== src/LockSet/Correct.antt =====
-- The locks that are held count the acquisitions that are not released, and two events share a lock
-- exactly where some lock is held at both; the cache changes no answer.
use open_race.Prelude.{
  ℕ, suc, ◌-◌, ◌==◌, ◌≤◌, ◌<◌, ltb, if◌then◌else◌, true, false, some, List, [], ◌∷◌, ◌≡◌, refl, ◌↔◌,
  inl, inr, arith, Bool-cases, Option-cases, ap, ◌∙◌, sym,
}
use mathlib.Core.Path.{ap₂}
use open_race.Trace.Event.{Pid, pid_eq, Kind, lock, unlock, Event, Thread, events_of}
use open_race.HappensBefore.Syncs.{pid_eq_iff}
use open_race.LockSet.{
  insert_lock, erase_one, after_event, locks_before, Cache, find_cached, held_locks, common,
  shares_lock,
}

-- How often the lock is in the multiset.
unfoldable pub count : ℕ → List ℕ → ℕ
count l [] = 0
count l (k ∷ ks) = if k == l then suc (count l ks) else count l ks

abbrev pub Above : ℕ → List ℕ → Type 0
Above n [] = Unit
Above n (k ∷ ks) = (n ≤ k) × Above k ks

abbrev pub IsAscending : List ℕ → Type 0
IsAscending [] = Unit
IsAscending (k ∷ ks) = Above k ks

-- The depth to which the lock is held before the event with the ID, counted from `n`: a lock event
-- adds one, an unlock event takes one away if there is any.
unfoldable pub depth : ℕ → ℕ → List Event → ℕ → ℕ
depth l id [] n = n
depth l id (e ∷ es) n =
    let rest = depth l id es (elim e.kind [
      | lock k ↦ if k == l then suc n else n
      | unlock k ↦ if k == l then n - 1 else n
      | _ ↦ n
    ]) in
    if e.pid.eid == id then n else rest

count-insert_lock :
    (l k : ℕ) (ls : List ℕ)
    → count l (insert_lock k ls) ≡ (if k == l then suc (count l ls) else count l ls)
unfolding count insert_lock
count-insert_lock l k [] = refl
count-insert_lock l k (x ∷ ls) = ground (arith, count-insert_lock l k ls)

count-erase_one :
    (l k : ℕ) (ls : List ℕ)
    → count l (erase_one k ls) ≡ (if k == l then count l ls - 1 else count l ls)
unfolding count erase_one
count-erase_one l k [] = ground arith
count-erase_one l k (x ∷ ls) = ground (arith, count-erase_one l k ls)

-- The multiset before an event holds each lock as often as it is held.
pub count-locks_before :
    (l id : ℕ) (es : List Event) (locks : List ℕ)
    → count l (locks_before id es locks) ≡ depth l id es (count l locks)
unfolding locks_before depth after_event
count-locks_before l id [] locks = refl
count-locks_before l id (e ∷ es) locks = elim (Bool-cases (e.pid.eid == id)) [
  | inl here ↦ rw here
  | inr other ↦ rw other (
      count-locks_before l id es (after_event e.kind locks)
      ∙ ap (depth l id es) (count-after_event e.kind))
]
  where
    count-after_event :
        (kind : Kind)
        → count l (after_event kind locks) ≡ (elim kind [
          | lock k ↦ if k == l then suc (count l locks) else count l locks
          | unlock k ↦ if k == l then count l locks - 1 else count l locks
          | _ ↦ count l locks
        ])
    count-after_event (lock k) = count-insert_lock l k locks
    count-after_event (unlock k) = count-erase_one l k locks
    count-after_event _ = refl

insert_lock-Above : (n l : ℕ) (ls : List ℕ) → n ≤ l → Above n ls → Above n (insert_lock l ls)
unfolding insert_lock
insert_lock-Above n l [] h a = (h, tt)
insert_lock-Above n l (k ∷ ls) h a = ground (arith, insert_lock-Above k l ls)

Above-mono : (m n : ℕ) (ls : List ℕ) → m ≤ n → Above n ls → Above m ls
Above-mono m n [] h a = tt
Above-mono m n (k ∷ ls) h a = (omega arith, a.1)

erase_one-Above : (n l : ℕ) (ls : List ℕ) → Above n ls → Above n (erase_one l ls)
unfolding erase_one
erase_one-Above n l [] a = tt
erase_one-Above n l (k ∷ ls) a = ground (arith, erase_one-Above k l ls, Above-mono n k ls)

insert_lock-IsAscending : (l : ℕ) (ls : List ℕ) → IsAscending ls → IsAscending (insert_lock l ls)
unfolding insert_lock
insert_lock-IsAscending l [] a = tt
insert_lock-IsAscending l (k ∷ ls) a = ground (arith, insert_lock-Above k l ls)

pub Above-IsAscending : (n : ℕ) (ls : List ℕ) → Above n ls → IsAscending ls
Above-IsAscending n [] a = tt
Above-IsAscending n (k ∷ ls) a = a.1

erase_one-IsAscending : (l : ℕ) (ls : List ℕ) → IsAscending ls → IsAscending (erase_one l ls)
unfolding erase_one
erase_one-IsAscending l [] a = tt
erase_one-IsAscending l (k ∷ ls) a = ground (arith, erase_one-Above k l ls, Above-IsAscending k ls)

pub locks_before-IsAscending :
    (id : ℕ) (es : List Event) (locks : List ℕ)
    → IsAscending locks
    → IsAscending (locks_before id es locks)
unfolding locks_before after_event
locks_before-IsAscending id [] locks a = a
locks_before-IsAscending id (e ∷ es) locks a = elim (Bool-cases (e.pid.eid == id)) [
  | inl here ↦ rw here a
  | inr other ↦ rw other (locks_before-IsAscending id es _ (after e.kind))
]
  where
    after : (kind : Kind) → IsAscending (after_event kind locks)
    after (lock k) = insert_lock-IsAscending k locks a
    after (unlock k) = erase_one-IsAscending k locks a
    after _ = a

pub count_of_Above : (l n : ℕ) (ls : List ℕ) → Above n ls → l < n → count l ls ≡ 0
unfolding count
count_of_Above l n [] a h = refl
count_of_Above l n (k ∷ ls) a h = ground (arith, count_of_Above l k ls)

-- Some lock is in both.
abbrev pub Shared : List ℕ → List ℕ → Type 0
Shared ls ks = (l : ℕ) × (1 ≤ count l ls) × (1 ≤ count l ks)

count-head : (l k : ℕ) (ks : List ℕ) → k ≡ l → 1 ≤ count l (k ∷ ks)
unfolding count
count-head l k ks e = ground arith

ltb_antisymm : (l k : ℕ) → ltb l k ≡ false → ltb k l ≡ false → k ≡ l
ltb_antisymm l k h g = ground arith

common_sound : (ls ks : List ℕ) → common ls ks ≡ true → Shared ls ks
unfolding common count
common_sound [] ks h = absurd (ground arith)
common_sound (l ∷ ls) [] h = absurd (ground arith)
common_sound (l ∷ ls) (k ∷ ks) h = elim (Bool-cases (ltb l k)) [
  | inl less ↦ let (m, a, b) = common_sound ls (k ∷ ks) (ground arith) in (m, ground arith, b)
  | inr le ↦ elim (Bool-cases (ltb k l)) [
    | inl more ↦ let (m, a, b) = common_sound (l ∷ ls) ks (ground arith) in (m, a, ground arith)
    | inr ge ↦ (l, count-head l l ls refl, count-head l k ks (ltb_antisymm l k le ge))
  ]
]

common_complete :
    (ls ks : List ℕ) (m : ℕ)
    → IsAscending ls
    → IsAscending ks
    → 1 ≤ count m ls
    → 1 ≤ count m ks
    → common ls ks ≡ true
unfolding common count
common_complete [] ks m u v a b = absurd (omega arith)
common_complete (l ∷ ls) [] m u v a b = absurd (omega arith)
common_complete (l ∷ ls) (k ∷ ks) m u v a b = ground (
  arith,
  common_complete ls (k ∷ ks) m,
  common_complete (l ∷ ls) ks m,
  Above-IsAscending l ls u,
  Above-IsAscending k ks v,
  count_of_Above m k ks v,
  count_of_Above m l ls u,
)

-- Every entry of the cache is what the loop would find.
abbrev pub IsCached : List Thread → Cache → Type 0
IsCached program [] = Unit
IsCached program ((p, locks) ∷ c) =
    (locks ≡ locks_before p.eid (events_of program p.tid) []) × IsCached program c

-- The locks held before the event, without the cache.
abbrev pub locks_at : List Thread → Pid → List ℕ
locks_at program p = locks_before p.eid (events_of program p.tid) []

count-locks_at :
    (program : List Thread) (p : Pid) (l : ℕ)
    → count l (locks_at program p) ≡ depth l p.eid (events_of program p.tid) 0
unfolding count
count-locks_at program p l = count-locks_before l p.eid (events_of program p.tid) []

find_cached-eq :
    (program : List Thread) (cache : Cache) (p : Pid) (locks : List ℕ)
    → IsCached program cache
    → find_cached p cache ≡ some locks
    → locks ≡ locks_at program p
unfolding find_cached
find_cached-eq program [] p locks v h = cc
find_cached-eq program ((q, ks) ∷ c) p locks v h = elim (Bool-cases (pid_eq q p)) [
  | inl here ↦
      let e : locks ≡ ks = ground arith in
      let same = (pid_eq_iff q p).0 here in e ∙ v.0 ∙ ap (locks_at program) same
  | inr other ↦ find_cached-eq program c p locks v.1 (ground arith)
]

held_locks-eq :
    (program : List Thread) (cache : Cache) (p : Pid)
    → IsCached program cache
    → ((held_locks program cache p).0 ≡ locks_at program p)
      × IsCached program (held_locks program cache p).1
unfolding held_locks
held_locks-eq program cache p v = elim (Option-cases (find_cached p cache)) [
  | inl e ↦ rw (e, held_locks) (refl, (refl, v))
  | inr (locks, e) ↦ rw (e, held_locks) (find_cached-eq program cache p locks v e, v)
]

pub shares_lock-eq :
    (program : List Thread) (cache : Cache) (lhs rhs : Pid)
    → IsCached program cache
    → ((shares_lock program cache lhs rhs).0 ≡ common (locks_at program lhs) (locks_at program rhs))
      × IsCached program (shares_lock program cache lhs rhs).1
unfolding shares_lock
shares_lock-eq program cache lhs rhs v =
    let (el, vl) = held_locks-eq program cache lhs v in
    let (er, vr) = held_locks-eq program (held_locks program cache lhs).1 rhs vl in
    (ap₂ common el er, vr)

-- Two events share a lock exactly where some lock is held to a depth of at least one before each
-- of them, whatever right entries the cache holds; and the cache stays right.
pub shares_lock-depth :
    (program : List Thread) (cache : Cache) (lhs rhs : Pid)
    → IsCached program cache
    → (((shares_lock program cache lhs rhs).0 ≡ true) ↔ (
        (l : ℕ) × (1 ≤ depth l lhs.eid (events_of program lhs.tid) 0)
        × (1 ≤ depth l rhs.eid (events_of program rhs.tid) 0)))
      × IsCached program (shares_lock program cache lhs rhs).1
shares_lock-depth program cache lhs rhs v =
    let (e, vr) = shares_lock-eq program cache lhs rhs v in
    let ls = locks_at program lhs in
    let ks = locks_at program rhs in
    let up = λ (p : Pid). locks_before-IsAscending p.eid (events_of program p.tid) [] tt in
    let deep = λ (l : ℕ) (p : Pid). count-locks_at program p l in
    (
      (
        λ h.
            let (l, a, b) = common_sound ls ks (sym e ∙ h) in
            (l, omega (arith, deep l lhs), omega (arith, deep l rhs)),
        λ (l, a, b).
            e
            ∙ common_complete ls ks l (up lhs) (up rhs) (omega (arith, deep l lhs))
                (omega (arith, deep l rhs)),
      ),
      vr,
    )
