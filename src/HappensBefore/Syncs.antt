-- ===== src/HappensBefore/Syncs.antt =====
-- The ascending vectors and sets of EventPIDs of src/Analysis/HappensBeforeGraph.cpp: the body of
-- `addSync`, and the searches of `findNextSyncAfter`, `findNextSync` and `findPrevSync`.
use open_race.Prelude.{
  if◌then◌else◌, Bool, true, false, ◌||◌, Option, none, some, List, [], ◌∷◌, ◌++◌, ◌≡◌, refl, inl,
  inr, ◌↔◌, arith, Bool-cases, Option-cases,
}
use open_race.Trace.Event.{Pid, pid_eq, pid_lt, pid_le}

-- The set holds `p`.
unfoldable pub contains : Pid → List Pid → Bool
contains p [] = false
contains p (q ∷ qs) = pid_eq p q || contains p qs

-- std::lower_bound and the insertion before it, unless the element is there already; a
-- std::set<EventPID>::insert does the same.
unfoldable pub insert : Pid → List Pid → List Pid
unfolding pid_lt pid_eq
insert p [] = p ∷ []
insert p (q ∷ qs) =
    if pid_lt q p then q ∷ insert p qs else if pid_eq q p then q ∷ qs else p ∷ q ∷ qs

-- std::lower_bound: the first element that is not less than `p`.
unfoldable pub lower_bound : Pid → List Pid → Option Pid
unfolding pid_lt
lower_bound p [] = none
lower_bound p (q ∷ qs) = if pid_lt q p then lower_bound p qs else some q

-- std::upper_bound: the first element that is greater than `p`.
unfoldable pub upper_bound : Pid → List Pid → Option Pid
unfolding pid_lt
upper_bound p [] = none
upper_bound p (q ∷ qs) = if pid_lt p q then some q else upper_bound p qs

-- The loop of `findPrevSync`, from the back: the last element that is at most `p`.
unfoldable pub last_le : Pid → List Pid → Option Pid
unfolding pid_le
last_le p [] = none
last_le p (q ∷ qs) = elim (last_le p qs) [
  | some r ↦ some r
  | none ↦ if pid_le q p then some q else none
]

-- The elements ascend, all above `p`.
abbrev pub Above : Pid → List Pid → Type 0
Above p [] = Unit
Above p (q ∷ qs) = (pid_lt p q ≡ true) × Above q qs

abbrev pub IsSorted : List Pid → Type 0
IsSorted [] = Unit
IsSorted (q ∷ qs) = Above q qs

pub pid_eq_iff : (p q : Pid) → (pid_eq p q ≡ true) ↔ (p ≡ q)
unfolding pid_eq
pid_eq_iff p q = ground arith

pub pid_lt_trans : (p q r : Pid) → pid_lt p q ≡ true → pid_lt q r ≡ true → pid_lt p r ≡ true
unfolding pid_lt
pid_lt_trans p q r h k = ground arith

pub pid_lt_irrefl : (p : Pid) → pid_lt p p ≡ false
unfolding pid_lt
pid_lt_irrefl p = ground arith

pub pid_lt-total : (p q : Pid) → pid_lt p q ≡ false → pid_eq p q ≡ false → pid_lt q p ≡ true
unfolding pid_lt pid_eq
pid_lt-total p q h k = ground arith

-- Insertion adds the element and nothing else.
pub contains-insert :
    (p r : Pid) (qs : List Pid) → contains r (insert p qs) ≡ (pid_eq r p || contains r qs)
unfolding contains insert pid_eq
contains-insert p r [] = refl
contains-insert p r (q ∷ qs) = ground (arith, contains-insert p r qs)

pub contains-append :
    (p : Pid) (xs ys : List Pid) → contains p (xs ++ ys) ≡ (contains p xs || contains p ys)
unfolding contains
contains-append p [] ys = refl
contains-append p (x ∷ xs) ys = ground (arith, contains-append p xs ys)

pub insert-Above :
    (n p : Pid) (qs : List Pid) → pid_lt n p ≡ true → Above n qs → Above n (insert p qs)
unfolding insert
insert-Above n p [] h a = (h, tt)
insert-Above n p (q ∷ qs) h a = ground (arith, insert-Above q p qs, pid_lt-total q p)

-- The vector stays in ascending order, with no element twice.
pub insert-IsSorted : (p : Pid) (qs : List Pid) → IsSorted qs → IsSorted (insert p qs)
unfolding insert
insert-IsSorted p [] h = tt
insert-IsSorted p (q ∷ qs) h = ground (arith, insert-Above q p qs, pid_lt-total q p)

pub Above-contains :
    (n q : Pid) (qs : List Pid) → Above n qs → contains q qs ≡ true → pid_lt n q ≡ true
unfolding contains
Above-contains n q [] a c = cc
Above-contains n q (r ∷ qs) a c =
    ground (arith, pid_eq_iff q r, pid_lt_trans n r q a.0, Above-contains r q qs a.1)

pub pid_le_of_not_lt : (p q : Pid) → pid_lt q p ≡ false → pid_le p q ≡ true
unfolding pid_le pid_lt pid_eq
pid_le_of_not_lt p q h = ground arith

pub not_lt_of_pid_le : (p q : Pid) → pid_le p q ≡ true → pid_lt q p ≡ false
unfolding pid_le pid_lt pid_eq
not_lt_of_pid_le p q h = ground arith

pub pid_le_refl : (p : Pid) → pid_le p p ≡ true
unfolding pid_le pid_lt pid_eq
pid_le_refl p = ground arith

pub pid_le_of_lt : (p q : Pid) → pid_lt p q ≡ true → pid_le p q ≡ true
unfolding pid_le
pid_le_of_lt p q h = ground arith

pub lower_bound-contains :
    (p r : Pid) (qs : List Pid)
    → lower_bound p qs ≡ some r
    → (contains r qs ≡ true) × (pid_le p r ≡ true)
unfolding lower_bound contains
lower_bound-contains p r [] h = cc
lower_bound-contains p r (q ∷ qs) h =
    ground (arith, lower_bound-contains p r qs, pid_eq_iff r q, pid_le_of_not_lt p q)

pub Above-IsSorted : (n : Pid) (qs : List Pid) → Above n qs → IsSorted qs
Above-IsSorted n [] a = tt
Above-IsSorted n (q ∷ qs) a = a.1

le-head : (x q : Pid) (qs : List Pid) → Above x qs → contains q (x ∷ qs) ≡ true → pid_le x q ≡ true
unfolding contains
le-head x q qs a c =
    ground (arith, pid_eq_iff q x, pid_le_refl x, Above-contains x q qs a, pid_le_of_lt x q)

-- An element that is not below `p` is not below the lower bound of `p`.
pub lower_bound-least :
    (p q : Pid) (qs : List Pid)
    → IsSorted qs
    → contains q qs ≡ true
    → pid_le p q ≡ true
    → (r : Pid) × (lower_bound p qs ≡ some r) × (pid_le r q ≡ true)
unfolding lower_bound contains
lower_bound-least p q [] s c h = cc
lower_bound-least p q (x ∷ qs) s c h = elim (Bool-cases (pid_lt x p)) [
  | inl below ↦ rw below (
      lower_bound-least p q qs (Above-IsSorted x qs s)
        (ground (arith, pid_eq_iff q x, not_lt_of_pid_le p q)) h)
  | inr found ↦ (x, rw found, le-head x q qs s c)
]

-- An element that is above `p` is not below the upper bound of `p`.
pub upper_bound-least :
    (p q : Pid) (qs : List Pid)
    → IsSorted qs
    → contains q qs ≡ true
    → pid_lt p q ≡ true
    → (r : Pid) × (upper_bound p qs ≡ some r) × (pid_le r q ≡ true)
unfolding upper_bound contains
upper_bound-least p q [] s c h = cc
upper_bound-least p q (x ∷ qs) s c h = elim (Bool-cases (pid_lt p x)) [
  | inl found ↦ (x, rw found, le-head x q qs s c)
  | inr below ↦
      rw below (upper_bound-least p q qs (Above-IsSorted x qs s) (ground (arith, pid_eq_iff q x)) h)
]

pub upper_bound-contains :
    (p r : Pid) (qs : List Pid)
    → upper_bound p qs ≡ some r
    → (contains r qs ≡ true) × (pid_lt p r ≡ true)
unfolding upper_bound contains
upper_bound-contains p r [] h = cc
upper_bound-contains p r (q ∷ qs) h = ground (arith, upper_bound-contains p r qs, pid_eq_iff r q)

pub last_le-contains :
    (p r : Pid) (qs : List Pid)
    → last_le p qs ≡ some r
    → (contains r qs ≡ true) × (pid_le r p ≡ true)
unfolding last_le contains
last_le-contains p r [] h = cc
last_le-contains p r (q ∷ qs) h = ground (arith, last_le-contains p r qs, pid_eq_iff r q)

last_le-head :
    (p q x : Pid) (qs : List Pid)
    → Above x qs
    → contains q (x ∷ qs) ≡ true
    → contains q qs ≡ false
    → pid_le q p ≡ true
    → (r : Pid) × (last_le p (x ∷ qs) ≡ some r) × (pid_le q r ≡ true)
unfolding last_le contains
last_le-head p q x qs s c first h = elim (Option-cases (last_le p qs)) [
  | inl e ↦ (x, ground (arith, pid_eq_iff q x), ground (arith, pid_eq_iff q x, pid_le_refl q))
  | inr (r, e) ↦ (
    r,
    rw (e, last_le),
    ground (
      arith,
      pid_eq_iff q x,
      pid_le_of_lt q r,
      Above-contains x r qs s,
      last_le-contains p r qs e,
    ),
  )
]

-- An element that is at most `p` is at most the one that the search from the back finds.
pub last_le-greatest :
    (p q : Pid) (qs : List Pid)
    → IsSorted qs
    → contains q qs ≡ true
    → pid_le q p ≡ true
    → (r : Pid) × (last_le p qs ≡ some r) × (pid_le q r ≡ true)
unfolding last_le contains
last_le-greatest p q [] s c h = cc
last_le-greatest p q (x ∷ qs) s c h = elim (Bool-cases (contains q qs)) [
  | inl later ↦
      let (r, e, le) = last_le-greatest p q qs (Above-IsSorted x qs s) later h in
      (r, rw (e, last_le), le)
  | inr first ↦ last_le-head p q x qs s c first h
]
