-- ===== src/Coverage/Decision.antt =====
-- coverage_evidence.py: whether the status of a coverage result fits its evidence.
pub mod Laws
pub mod Versions
pub mod Built
pub mod Planned
use pyrepo_check.Base.{
  ℕ, zero, suc, ◌+◌, ◌-◌, ◌*◌, ◌/◌, ◌%◌, ◌≤◌, ◌<◌, code, String, ◌<>◌, ◌≡◌, refl, sym, ap, ◌∙◌, ◌≢◌,
  ◌↔◌, ◌⊎◌, inl, inr, Bool, true, false, not, ◌&&◌, ◌||◌, Option, none, some, List, [], ◌∷◌, ◌++◌,
  map, arith, eq_iff, ltb, leb, if◌then◌else◌, Eq, ◌==◌, ◌!=◌, nat_eq, string_eq, bool_eq, is_none,
  is_some, or_else, Bool-cases, Option-cases, &&-eq-true, ||-false, ==_refl, ==_sym, length, take,
  drop, is_empty, all, any, keep, first, length-append, length-drop, is_empty-eq-true, All,
  length-map, All-of_keep-nil, All-map, contains, contains-keep, subset, distinct, lists_equal,
  Outcome, returned, raised, ◌>>=◌, ◌>>◌, require, refuse, >>=-eq-returned, refuse-eq-returned,
  refuse-returned, returned-injective, if_is_empty-returned, >>=-cong, Outcome-cases, traverse,
  starts_with,
}
use pyrepo_check.Coverage.Gate.{CoverageThresholdSkipReason, evidence_error, not_configured}
use pyrepo_check.Coverage.Result.{
  CoverageStatus, CoverageScope, CoverageErrorCode, CoverageError, CoverageThreshold,
  CoverageResult,
}
use pyrepo_check.Coverage.Codes.{has_supported}
use pyrepo_check.Coverage.Build.{is_evidence_error}

abbrev is_not_configured : Option CoverageThresholdSkipReason → Bool
is_not_configured (some not_configured) = true
is_not_configured other = false

abbrev is_bool : Bool → Option Bool → Bool
is_bool expected none = false
is_bool expected (some passed) = passed == expected

abbrev is_whole : CoverageScope → Bool
is_whole CoverageScope.complete = true
is_whole CoverageScope.partial = false

module _ (is_supported : String → Bool) where
  -- The branches of `_validate_error_coverage_version`
  unfoldable pub fits_code : Option String → CoverageErrorCode → Bool
  fits_code version CoverageErrorCode.unsupported_version = not (has_supported is_supported version)
  fits_code version CoverageErrorCode.unsupported_python = is_none version
  fits_code version CoverageErrorCode.module_unavailable = is_none version
  fits_code version CoverageErrorCode.preflight_invalid = is_none version
  fits_code version CoverageErrorCode.spawn_failed =
      is_none version || has_supported is_supported version
  fits_code version CoverageErrorCode.terminated_by_signal =
      is_none version || has_supported is_supported version
  fits_code version other = has_supported is_supported version

  -- `_validate_error_coverage_version`; the message of its ValueError is left out.
  unfoldable pub validate_error_coverage_version :
      Option String → Option CoverageError → Outcome String Unit
  validate_error_coverage_version version none = raised "coverage error result must have an error"
  validate_error_coverage_version version (some error) =
      require (fits_code version error.code) "coverage version contradicts the error"

  unfoldable pub validate_error_result : CoverageResult → Outcome String Unit
  validate_error_result result =
      require
        (not (is_whole result.scope)
          && not result.evidence_complete
          && not result.gate_eligible
          && is_none result.totals
          && is_empty result.files
          && is_some result.error
          && not result.threshold.evaluated
          && is_none result.threshold.passed
          && is_evidence_error result.threshold.skipped_reason)
        "coverage error result has inconsistent evidence"
      >> validate_error_coverage_version result.coverage_version result.error

  unfoldable pub is_passed_threshold : CoverageThreshold → Bool
  is_passed_threshold threshold =
      (threshold.configured
        && threshold.evaluated
        && is_bool true threshold.passed
        && is_none threshold.skipped_reason)
      || (not threshold.configured
          && not threshold.evaluated
          && is_none threshold.passed
          && is_not_configured threshold.skipped_reason)

  unfoldable pub validate_judged : CoverageStatus → CoverageResult → Outcome String Unit
  validate_judged CoverageStatus.passed result =
      require (is_whole result.scope && result.gate_eligible)
        "gating coverage result must be complete and eligible"
      >> require (is_passed_threshold result.threshold) "passed coverage threshold is inconsistent"
  validate_judged CoverageStatus.failed result =
      require (is_whole result.scope && result.gate_eligible)
        "gating coverage result must be complete and eligible"
      >> require
          (result.threshold.configured
            && result.threshold.evaluated
            && is_bool false result.threshold.passed
            && is_none result.threshold.skipped_reason)
          "failed coverage threshold is inconsistent"
  validate_judged other result =
      require
        (not result.gate_eligible
          && not result.threshold.evaluated
          && is_none result.threshold.passed)
        "guidance coverage cannot evaluate a threshold"
      >> require
          (is_some result.threshold.skipped_reason
            && not (is_evidence_error result.threshold.skipped_reason))
          "guidance coverage requires a non-error skip reason"

  unfoldable pub validate_valid_result : CoverageResult → Outcome String Unit
  validate_valid_result result =
      require (is_some result.totals && is_none result.error && result.evidence_complete)
        "valid coverage result requires complete totals without an error"
      >> require (has_supported is_supported result.coverage_version)
          "valid coverage result requires a trusted supported version"
      >> validate_judged result.status result

  unfoldable pub validate_by_status : CoverageStatus → CoverageResult → Outcome String Unit
  validate_by_status CoverageStatus.error result = validate_error_result result
  validate_by_status other result = validate_valid_result result

  -- The part of `validate_coverage_result` that follows the checks of the fields
  unfoldable pub validate_decision : CoverageResult → Outcome String Unit
  validate_decision result = validate_by_status result.status result
