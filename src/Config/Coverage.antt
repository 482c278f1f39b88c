-- ===== src/Config/Coverage.antt =====
-- config.py: the native Coverage.py settings that a gated run requires.
use pyrepo_check.Base.{
  String, Bool, true, false, not, ◌||◌, Option, none, some, List, [], ◌∷◌, any, Outcome, returned,
  raised, ◌>>=◌, ◌>>◌, refuse, if◌then◌else◌,
}
use pyrepo_check.Base.Text.{is_blank}
use pyrepo_check.Config.Toml.{
  Toml, table, array, boolean, number, Number, is_finite, nil, Fields, get, string_list,
}

-- One constructor for each detail that `_invalid_coverage` is called with.
pub data CoverageConfigError : Type 0 where
  run_not_table branch_not_true source_missing parallel_not_false : CoverageConfigError
  not_empty_list : String → CoverageConfigError
  report_not_table fail_under_not_finite : CoverageConfigError

-- The value of one source key, if it is there: a list of strings, with an entry that is not blank.
abbrev source_list : Option Toml → Option (List String)
source_list none = some []
source_list (some v) = string_list v

abbrev has_entry : List String → Bool
has_entry = any (λ entry. not (is_blank entry))

sources_found : Fields → Bool → List String → Bool
sources_found run found [] = found
sources_found run found (key ∷ keys) = elim (source_list (get run key)) [
  | none ↦ false
  | some entries ↦ sources_found run (found || has_entry entries) keys
]

unfoldable pub has_coverage_source : Fields → Bool
unfolding sources_found
has_coverage_source run = sources_found run false ("source" ∷ "source_pkgs" ∷ "source_dirs" ∷ [])

abbrev is_true : Option Toml → Bool
is_true (some (boolean b)) = b
is_true v = false

abbrev is_absent_or_false : Option Toml → Bool
is_absent_or_false none = true
is_absent_or_false (some (boolean b)) = not b
is_absent_or_false (some v) = false

abbrev is_absent_or_empty : Option Toml → Bool
is_absent_or_empty none = true
is_absent_or_empty (some (array nil)) = true
is_absent_or_empty (some v) = false

abbrev run_table : Option Toml → Outcome CoverageConfigError Fields
run_table (some (table fields)) = returned fields
run_table v = raised run_not_table

abbrev finite_number : Option Toml → Outcome CoverageConfigError (Option Number)
finite_number none = returned none
finite_number (some (number n)) =
    if is_finite n then returned (some n) else raised fail_under_not_finite
finite_number (some v) = raised fail_under_not_finite

-- The `fail_under` of the report table, if both are there.
abbrev report_threshold : Option Toml → Outcome CoverageConfigError (Option Number)
report_threshold none = returned none
report_threshold (some (table report)) = finite_number (get report "fail_under")
report_threshold (some v) = raised report_not_table

-- `_configured_coverage` of a table that is there, without the path that the result repeats.
unfoldable pub configured_coverage : Fields → Outcome CoverageConfigError (Option Number)
configured_coverage settings = do
  run ← run_table (get settings "run")
  refuse (not (is_true (get run "branch"))) branch_not_true
  refuse (not (has_coverage_source run)) source_missing
  refuse (not (is_absent_or_false (get run "parallel"))) parallel_not_false
  refuse (not (is_absent_or_empty (get run "concurrency"))) (not_empty_list "concurrency")
  refuse (not (is_absent_or_empty (get run "patch"))) (not_empty_list "patch")
  report_threshold (get settings "report")
