-- ===== src/Reporting/Pytest.antt =====
-- reporting.py: whether a pytest result fits the exit code of its process.
pub mod Laws
use pyrepo_check.Base.{
  ℕ, zero, suc, ◌+◌, ◌-◌, ◌*◌, ◌/◌, ◌%◌, ◌≤◌, ◌<◌, code, String, ◌<>◌, ◌≡◌, refl, sym, ap, ◌∙◌, ◌≢◌,
  ◌↔◌, ◌⊎◌, inl, inr, Bool, true, false, not, ◌&&◌, ◌||◌, Option, none, some, List, [], ◌∷◌, ◌++◌,
  map, arith, eq_iff, ltb, leb, if◌then◌else◌, Eq, ◌==◌, ◌!=◌, nat_eq, string_eq, bool_eq, is_none,
  is_some, or_else, Bool-cases, Option-cases, &&-eq-true, ||-false, ==_refl, ==_sym, length, take,
  drop, is_empty, all, any, keep, first, length-append, length-drop, is_empty-eq-true, All,
  length-map, All-of_keep-nil, All-map, contains, contains-keep, subset, distinct, lists_equal,
  Outcome, returned, raised, ◌>>=◌, ◌>>◌, require, refuse, >>=-eq-returned, refuse-eq-returned,
  refuse-returned, returned-injective, if_is_empty-returned, >>=-cong, Outcome-cases, traverse,
  starts_with,
}
use pyrepo_check.Base.Int.{ℤ, pos, int_eq}
use pyrepo_check.Pytest.{
  PytestErrorCode, PytestStatus, PytestEvidence, PytestError, PytestResult, unsupported_parallelism,
  unsupported_retries, exit_code_mismatch, artifact_missing, artifact_invalid,
  artifact_not_finalized, session_incomplete, interrupted, internal_error, usage_error,
  unknown_exit_code,
}
use pyrepo_check.Reporting.{ReportingError, invalid}

abbrev pub is_passed_status : PytestStatus → Bool
is_passed_status PytestStatus.passed = true
is_passed_status other = false

abbrev pub is_failed_status : PytestStatus → Bool
is_failed_status PytestStatus.failed = true
is_failed_status other = false

abbrev pub is_error_status : PytestStatus → Bool
is_error_status PytestStatus.error = true
is_error_status other = false

abbrev accept_if : Bool → String → Outcome ReportingError Unit
accept_if test message = require test (record { message = "invalid report: " <> message })

abbrev collected_none : Option PytestEvidence → Bool
collected_none none = false
collected_none (some evidence) = evidence.collected == 0

-- The branch of `_validate_pytest_primary_outcome` on a result without an error
unfoldable pub validate_unerring : PytestResult → ℤ → Outcome ReportingError Unit
validate_unerring result exit_code =
    if exit_code == pos 0
    then accept_if (is_passed_status result.status)
        "pytest status contradicts the primary exit_code"
    else if exit_code == pos 1 || exit_code == pos 5
    then accept_if (is_failed_status result.status)
        "pytest status contradicts the primary exit_code"
      >> accept_if (exit_code != pos 5 || not result.complete || collected_none result.evidence)
          "complete pytest exit 5 requires zero collected tests"
    else invalid "pytest exit requires an error result"

-- An error of the exit matrix, with the test of its exit code
unfoldable pub validate_matrix : PytestResult → Bool → String → Outcome ReportingError Unit
validate_matrix result expected message =
    accept_if
      (expected && is_error_status result.status && not result.complete && is_some result.evidence)
      message

unfoldable pub validate_artifact_error : PytestResult → Outcome ReportingError Unit
validate_artifact_error result =
    accept_if (is_error_status result.status && not result.complete && is_none result.evidence)
      "invalid pytest artifact must produce incomplete error evidence"

abbrev is_known_exit : ℤ → Bool
is_known_exit exit_code =
    exit_code == pos 0
    || exit_code == pos 1
    || exit_code == pos 2
    || exit_code == pos 3
    || exit_code == pos 4
    || exit_code == pos 5

-- The branches on the code of the error
unfoldable pub validate_erring : PytestResult → ℤ → PytestErrorCode → Outcome ReportingError Unit
validate_erring result exit_code session_incomplete =
    accept_if
      (exit_code == pos 1
        && is_failed_status result.status
        && not result.complete
        && is_some result.evidence)
      "session_incomplete must retain failed pytest exit 1 evidence"
validate_erring result exit_code interrupted =
    validate_matrix result (exit_code == pos 2)
      "pytest exit-matrix error contradicts process evidence"
validate_erring result exit_code internal_error =
    validate_matrix result (exit_code == pos 3)
      "pytest exit-matrix error contradicts process evidence"
validate_erring result exit_code usage_error =
    validate_matrix result (exit_code == pos 4)
      "pytest exit-matrix error contradicts process evidence"
validate_erring result exit_code unknown_exit_code =
    validate_matrix result (not (is_known_exit exit_code))
      "unknown pytest exit_code contradicts process evidence"
validate_erring result exit_code unsupported_parallelism = validate_artifact_error result
validate_erring result exit_code unsupported_retries = validate_artifact_error result
validate_erring result exit_code exit_code_mismatch = validate_artifact_error result
validate_erring result exit_code artifact_missing = validate_artifact_error result
validate_erring result exit_code artifact_invalid = validate_artifact_error result
validate_erring result exit_code artifact_not_finalized = validate_artifact_error result
validate_erring result exit_code other = invalid "pytest primary exit contradicts pytest error"

unfoldable pub validate_outcome_error :
    PytestResult → ℤ → Option PytestError → Outcome ReportingError Unit
validate_outcome_error result exit_code none = validate_unerring result exit_code
validate_outcome_error result exit_code (some error) = validate_erring result exit_code error.code

-- `_validate_pytest_primary_outcome`
unfoldable pub validate_pytest_primary_outcome : PytestResult → ℤ → Outcome ReportingError Unit
validate_pytest_primary_outcome result exit_code =
    validate_outcome_error result exit_code result.error
