-- ===== src/Reporter/Report.antt =====
-- The report of src/Reporter/Reporter.cpp.
use open_race.Prelude.{
  ◌||◌, ◌&&◌, Bool, true, false, none, some, List, [], ◌∷◌, ◌≡◌, ◌⊎◌, refl, arith, Bool-cases,
  length, inl, inr, Option-cases,
}
use open_race.Reporter.{
  Checked, undefined, ok, SourceLoc, update_misleading_debug_loc, RaceAccess, access_eq, Race, race,
  race_eq, race_lt, Debug, race_access, missing_location, insert_race, add_pair, report, get_report,
}
use open_race.Reporter.Order.{race_total, race_eq_refl, access_eq_sym}

-- The list is strictly ascending by `operator<`.
abbrev pub IsBelow : Race → List Race → Type 0
IsBelow r [] = Unit
IsBelow r (s ∷ set) = race_lt r s ≡ true

abbrev pub IsAscending : List Race → Type 0
IsAscending [] = Unit
IsAscending (r ∷ set) = IsBelow r set × IsAscending set

-- A race of the list equals the given one by `operator==`.
abbrev pub listed : Race → List Race → Bool
listed r [] = false
listed r (s ∷ set) = race_eq r s || listed r set

insert_race-IsAscending :
    (r : Race) (set : List Race) → IsAscending set → IsAscending (insert_race r set)
unfolding insert_race
insert_race-IsAscending r [] h = (tt, tt)
insert_race-IsAscending r (s ∷ set) (below, h) = elim (Bool-cases (race_lt r s)) [
  | inl before ↦ rw before (before, (below, h))
  | inr not_before ↦ elim (Bool-cases (race_lt s r)) [
    | inl after ↦
        rw (not_before, after)
          (IsBelow-insert_race s r set after below, insert_race-IsAscending r set h)
    | inr same ↦ rw (not_before, same) (below, h)
  ]
]
  where
    IsBelow-insert_race :
        (s r : Race) (set : List Race)
        → race_lt s r ≡ true
        → IsBelow s set
        → IsBelow s (insert_race r set)
    IsBelow-insert_race s r [] h k = h
    IsBelow-insert_race s r (t ∷ set) h k = elim (Bool-cases (race_lt r t)) [
      | inl before ↦ rw before h
      | inr not_before ↦ elim (Bool-cases (race_lt t r)) [
        | inl after ↦ rw (not_before, after) k
        | inr same ↦ rw (not_before, same) k
      ]
    ]

listed-insert_race : (r : Race) (set : List Race) → listed r (insert_race r set) ≡ true
unfolding insert_race
listed-insert_race r [] = ground (arith, race_eq_refl r)
listed-insert_race r (s ∷ set) =
    ground (arith, race_eq_refl r, race_total r s, listed-insert_race r set)

listed-insert_race_other :
    (x r : Race) (set : List Race) → listed x set ≡ true → listed x (insert_race r set) ≡ true
unfolding insert_race
listed-insert_race_other x r [] h = cc
listed-insert_race_other x r (s ∷ set) h = ground (arith, listed-insert_race_other x r set)

-- LLVM has a location for the instruction.
abbrev pub has_location : Debug → Bool
has_location d = elim d.location [ none ↦ false | some _ ↦ true ]

abbrev pub have_locations : List (Debug × Debug) → Bool
have_locations [] = true
have_locations ((p, q) ∷ pairs) = has_location p && has_location q && have_locations pairs

checked_cases : {A : Type 0} (x : Checked A) → (x ≡ undefined) ⊎ ((y : A) × (x ≡ ok y))
checked_cases undefined = inl refl
checked_cases (ok y) = inr (y, refl)

race_access-located :
    (d : Debug)
    → has_location d ≡ true
    → (a : RaceAccess) × (loc : SourceLoc) × (race_access d ≡ ok a) × (a.location ≡ some loc)
unfolding race_access
race_access-located d h = elim (checked_cases (race_access d)) [
  | inl absent ↦ elim (Option-cases d.location) [
    | inl no_loc ↦ absurd (ground arith)
    | inr there ↦ absurd (ground arith)
  ]
  | inr (a, made) ↦ elim (Option-cases d.location) [
    | inl no_loc ↦ absurd (ground arith)
    | inr (loc, there) ↦
        let made' = rw there at made in
        (a, update_misleading_debug_loc loc d.lexical_block, made, cc)
  ]
]

-- With locations for both instructions, the race of a pair is added.
add_pair-located :
    (races : List Race) (p q : Debug)
    → has_location p ≡ true
    → has_location q ≡ true
    → (a : RaceAccess) × (b : RaceAccess) × (race_access p ≡ ok a)
      × (race_access q ≡ ok b)
      × (add_pair races p q ≡ ok (insert_race (race a b) races))
unfolding add_pair race missing_location
add_pair-located races p q h k =
    let (a, l, pa, la) = race_access-located p h in
    let (b, m, qb, mb) = race_access-located q k in (a, b, pa, qb, ground arith)

-- The races that the report has to hold.
abbrev pub Holds : List (Debug × Debug) → List Race → Type 0
Holds [] set = Unit
Holds ((p, q) ∷ pairs) set =
    ((a : RaceAccess) × (b : RaceAccess) × (race_access p ≡ ok a)
      × (race_access q ≡ ok b)
      × (listed (race a b) set ≡ true))
    × Holds pairs set

report-Holds :
    (races : List Race) (pairs : List (Debug × Debug))
    → IsAscending races
    → have_locations pairs ≡ true
    → (set : List Race) × (report races pairs ≡ ok set)
      × IsAscending set
      × ((r : Race) → listed r races ≡ true → listed r set ≡ true)
      × Holds pairs set
unfolding report
report-Holds races [] up h = (races, refl, up, λ r k. k, tt)
report-Holds races ((p, q) ∷ pairs) up h =
    let (a, b, pa, qb, added) = add_pair-located races p q (ground arith) (ground arith) in
    let (set, done, up', keeps, others) =
      report-Holds (insert_race (race a b) races) pairs
        (insert_race-IsAscending (race a b) races up) (ground arith) in
    (
      set,
      rw (report, added) done,
      up',
      λ r k. keeps r (listed-insert_race_other r (race a b) races k),
      ((a, b, pa, qb, keeps (race a b) (listed-insert_race (race a b) races)), others),
    )

-- Where each instruction has a location, the report is made, it is strictly ascending, so that no
-- race stands in it twice, and it lists the race of each collected pair.
pub get_report-Holds :
    (pairs : List (Debug × Debug))
    → have_locations pairs ≡ true
    → (set : List Race) × (get_report pairs ≡ ok set) × IsAscending set × Holds pairs set
unfolding get_report
get_report-Holds pairs h =
    let (set, done, up, _, others) = report-Holds [] pairs tt h in (set, done, up, others)

-- Two accesses that are collected in both orders are two races of the report: the constructor of
-- Race does not put them into one order.
pub get_report-mirrored :
    (p q : Debug) (a b : RaceAccess)
    → has_location p ≡ true
    → has_location q ≡ true
    → race_access p ≡ ok a
    → race_access q ≡ ok b
    → access_eq a b ≡ false
    → (set : List Race) × (get_report ((p, q) ∷ (q, p) ∷ []) ≡ ok set) × (length set ≡ 2)
unfolding get_report report insert_race race_eq race
get_report-mirrored p q a b h k pa qb apart =
    let (a', b', pa', qb', first) = add_pair-located [] p q h k in
    let (b'', a'', qb'', pa'', second) = add_pair-located (race a b ∷ []) q p k h in
    let ea : a' ≡ a = cc in
    let eb : b' ≡ b = cc in
    let ea' : a'' ≡ a = cc in
    let eb' : b'' ≡ b = cc in
    let first' : add_pair [] p q ≡ ok (race a b ∷ []) = rw (ea, eb) at first in
    let second' = rw (ea', eb') at second in
    (
      insert_race (race b a) (race a b ∷ []),
      rw (get_report, report, first', report, second', report) refl,
      ground (arith, race_total (race b a) (race a b), access_eq_sym b a),
    )
