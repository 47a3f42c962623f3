-- ===== src/Reporter.antt =====
-- src/Reporter: the order of source locations, accesses and races, and the report, a set in this
-- order. A name is the list of its bytes, and an instruction is a number, its address.
pub mod Order
pub mod Report
use open_race.Prelude.{
  ℕ, ◌==◌, ltb, if◌then◌else◌, Bool, true, false, not, ◌&&◌, ◌||◌, Option, none, some, List, [],
  ◌∷◌, ◌++◌,
}

-- `undefined` where an optional is read that has no value, which has undefined behaviour.
pub data Checked {ℓ} (A : Type ℓ) : Type ℓ where
  undefined : Checked A
  ok : A → Checked A

pub record SourceLoc : Type 0 where
  pub filename : List ℕ
  pub directory : List ℕ
  pub line : ℕ
  pub col : ℕ

-- llvm::StringRef::operator== and operator<
unfoldable pub text_eq : List ℕ → List ℕ → Bool
text_eq [] [] = true
text_eq [] (y ∷ ys) = false
text_eq (x ∷ xs) [] = false
text_eq (x ∷ xs) (y ∷ ys) = x == y && text_eq xs ys

unfoldable pub text_lt : List ℕ → List ℕ → Bool
text_lt [] [] = false
text_lt [] (y ∷ ys) = true
text_lt (x ∷ xs) [] = false
text_lt (x ∷ xs) (y ∷ ys) =
    let later = text_lt xs ys in if ltb x y then true else if ltb y x then false else later

unfoldable pub loc_eq : SourceLoc → SourceLoc → Bool
loc_eq a b = text_eq a.filename b.filename && a.line == b.line && a.col == b.col

unfoldable pub loc_lt : SourceLoc → SourceLoc → Bool
loc_lt a b =
    if not (text_eq a.filename b.filename)
    then text_lt a.filename b.filename
    else if not (a.line == b.line)
    then ltb a.line b.line
    else ltb a.col b.col

-- std::optional's operators: no location is below each location.
unfoldable pub optional_eq : Option SourceLoc → Option SourceLoc → Bool
unfolding loc_eq
optional_eq none none = true
optional_eq none (some b) = false
optional_eq (some a) none = false
optional_eq (some a) (some b) = loc_eq a b

unfoldable pub optional_lt : Option SourceLoc → Option SourceLoc → Bool
unfolding loc_lt
optional_lt a none = false
optional_lt none (some b) = true
optional_lt (some a) (some b) = loc_lt a b

pub record RaceAccess : Type 0 where
  pub location : Option SourceLoc
  pub inst : ℕ

unfoldable pub access_eq : RaceAccess → RaceAccess → Bool
access_eq a b = optional_eq a.location b.location && a.inst == b.inst

unfoldable pub access_lt : RaceAccess → RaceAccess → Bool
access_lt a b =
    if not (optional_eq a.location b.location)
    then optional_lt a.location b.location
    else ltb a.inst b.inst

-- What LLVM answers about the instruction of an event: its debug location, and line and column of
-- the location's scope where this is a lexical block.
pub record Debug : Type 0 where
  pub inst : ℕ
  pub location : Option SourceLoc
  pub lexical_block : Option (ℕ × ℕ)

unfoldable pub update_misleading_debug_loc : SourceLoc → Option (ℕ × ℕ) → SourceLoc
update_misleading_debug_loc loc scope = if not (loc.line == 0) then loc else elim scope [
  | none ↦ loc
  | some (line, col) ↦ record { filename = loc.filename; directory = []; line = line; col = col }
]

-- The constructor of RaceAccess, less the call stack; updateMisleadingDebugLoc reads the location.
unfoldable pub race_access : Debug → Checked RaceAccess
unfolding update_misleading_debug_loc
race_access d = elim d.location [
  | none ↦ undefined
  | some loc ↦
      ok (record {
        location = some (update_misleading_debug_loc loc d.lexical_block);
        inst = d.inst;
      })
]

pub record Race : Type 0 where
  pub first : RaceAccess
  pub second : RaceAccess

-- The constructor of Race. Its swap exchanges its parameters, which the members are copies of, and
-- so has no effect on the race.
unfoldable pub race : RaceAccess → RaceAccess → Race
race first second = record { first = first; second = second }

unfoldable pub missing_location : Race → Bool
missing_location r = elim r.first.location [
  | none ↦ true
  | some _ ↦ elim r.second.location [ none ↦ true | some _ ↦ false ]
]

unfoldable pub race_eq : Race → Race → Bool
unfolding access_eq
race_eq r s = access_eq r.first s.first && access_eq r.second s.second

unfoldable pub race_lt : Race → Race → Bool
unfolding access_lt
race_lt r s =
    if not (access_eq r.first s.first)
    then access_lt r.first s.first
    else access_lt r.second s.second

-- std::set<Race>::insert, in the ascending order of the set.
unfoldable pub insert_race : Race → List Race → List Race
insert_race r [] = r ∷ []
insert_race r (s ∷ set) =
    let rest = insert_race r set in
    if race_lt r s then r ∷ s ∷ set else if race_lt s r then s ∷ rest else s ∷ set

-- The body of the loop of the constructor of Report.
unfoldable pub add_pair : List Race → Debug → Debug → Checked (List Race)
unfolding race_access race missing_location
add_pair races p q = elim (race_access p) [
  | undefined ↦ undefined
  | ok a ↦ elim (race_access q) [
    | undefined ↦ undefined
    | ok b ↦ ok (if missing_location (race a b) then races else insert_race (race a b) races)
  ]
]

unfoldable pub report : List Race → List (Debug × Debug) → Checked (List Race)
unfolding add_pair
report races [] = ok races
report races ((p, q) ∷ pairs) = elim (add_pair races p q) [
  | undefined ↦ undefined
  | ok races' ↦ report races' pairs
]

-- `Reporter::collect` and `Reporter::getReport`
unfoldable pub collect : List (Debug × Debug) → Debug → Debug → List (Debug × Debug)
collect pairs p q = pairs ++ (p, q) ∷ []

unfoldable pub get_report : List (Debug × Debug) → Checked (List Race)
unfolding report
get_report = report []
