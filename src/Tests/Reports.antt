-- ===== src/Tests/Reports.antt =====
-- The theorems on the report at two accesses in one file.
use open_race.Prelude.{ℕ, false, none, some, List, [], ◌∷◌, ◌≡◌, refl}
use open_race.Reporter.{
  ok, RaceAccess, race_access, access_eq, optional_eq, text_eq, Race, Debug, get_report,
}
use open_race.Reporter.Report.{IsAscending, Holds, get_report-Holds}

abbrev debug : ℕ → ℕ → Debug
debug inst line = record {
  inst = inst;
  location = some (record { filename = 97 ∷ []; directory = []; line = line; col = 3 });
  lexical_block = none;
}

abbrev access : ℕ → ℕ → RaceAccess
access inst line = record {
  inst = inst;
  location = some (record { filename = 97 ∷ []; directory = []; line = line; col = 3 });
}

debug-access : race_access (debug 1 7) ≡ ok (access 1 7)
unfolding race_access
debug-access = refl

other_debug-access : race_access (debug 2 9) ≡ ok (access 2 9)
unfolding race_access
other_debug-access = refl

apart : access_eq (access 1 7) (access 2 9) ≡ false
unfolding access_eq optional_eq text_eq
apart = refl

get_report-Holds_example :
    (set : List Race) × (get_report ((debug 1 7, debug 2 9) ∷ []) ≡ ok set)
    × IsAscending set
    × Holds ((debug 1 7, debug 2 9) ∷ []) set
get_report-Holds_example = get_report-Holds ((debug 1 7, debug 2 9) ∷ []) refl
