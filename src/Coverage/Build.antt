-- ===== src/Coverage/Build.antt =====
-- coverage_evidence.py: the coverage result that is built from the evidence of a run.
use pyrepo_check.Base.{
  ℕ, code, String, ◌<>◌, Bool, true, false, not, ◌&&◌, Option, none, some, List, [], if◌then◌else◌,
  ◌==◌, nat_eq, string_eq, bool_eq, is_some, or_else, Outcome, returned, raised,
}
use pyrepo_check.Base.Int.{ℤ, pos, int_eq}
use pyrepo_check.Config.Toml.{Number}
use pyrepo_check.Planning.{RunPlan, PlannedCoverageScope}
use pyrepo_check.Execution.{CoverageExecutionObservation}
use pyrepo_check.Pytest.{PytestResult}
use pyrepo_check.Coverage.Gate.{
  CoverageThresholdSkipReason, evidence_error, CoverageGatePolicy, is_whole_scope,
  coverage_gate_policy, coverage_threshold_value,
}
use pyrepo_check.Coverage.Result.{
  CoverageStatus, CoverageScope, CoverageErrorCode, CoverageTotals, CoverageFile, CoverageError,
  CoverageResult,
}
use pyrepo_check.Coverage.Codes.{preflight_code, artifact_code, is_trusted, error_of, error_for}

abbrev pub is_exit : ℕ → Option ℤ → Bool
is_exit n none = false
is_exit n (some exit_code) = exit_code == pos n

abbrev pub is_evidence_error : Option CoverageThresholdSkipReason → Bool
is_evidence_error (some evidence_error) = true
is_evidence_error other = false

abbrev pub is_complete_scope : PlannedCoverageScope → Bool
is_complete_scope PlannedCoverageScope.complete = true
is_complete_scope other = false

abbrev pub is_requested : PlannedCoverageScope → Bool
is_requested PlannedCoverageScope.not_requested = false
is_requested PlannedCoverageScope.unavailable = false
is_requested other = true

-- `_coverage_error_result`; whether the threshold is configured is whether it has a value.
unfoldable pub coverage_error_result :
    Option Number → Option String → CoverageError → CoverageResult
coverage_error_result threshold_value coverage_version error = record {
  status = CoverageStatus.error;
  scope = CoverageScope.partial;
  evidence_complete = false;
  coverage_version = coverage_version;
  gate_eligible = false;
  threshold = record {
    configured = is_some threshold_value;
    value = threshold_value;
    evaluated = false;
    passed = none;
    skipped_reason = some evidence_error;
  };
  totals = none;
  files = [];
  error = some error;
}

abbrev reported_scope : Bool → CoverageScope
reported_scope true = CoverageScope.complete
reported_scope false = CoverageScope.partial

abbrev coverage_status : Bool → Option Bool → CoverageStatus
coverage_status false passed = CoverageStatus.guidance
coverage_status true (some false) = CoverageStatus.failed
coverage_status true other = CoverageStatus.passed

-- The result on valid evidence
unfoldable pub judged_result :
    RunPlan
    → PytestResult
    → Option Number
    → Option String
    → CoverageGatePolicy
    → Option ℤ
    → CoverageTotals
    → List CoverageFile
    → CoverageResult
judged_result plan pytest threshold_value coverage_version policy exit_code totals files =
    let evaluated = is_some threshold_value && policy.gate_eligible in
    let threshold_passed = if evaluated then some (is_exit 0 exit_code) else none in
    record {
      status = coverage_status policy.gate_eligible threshold_passed;
      scope =
          reported_scope
            (is_complete_scope plan.planned_coverage_scope && is_whole_scope pytest.scope);
      evidence_complete = true;
      coverage_version = coverage_version;
      gate_eligible = policy.gate_eligible;
      threshold = record {
        configured = is_some threshold_value;
        value = threshold_value;
        evaluated = evaluated;
        passed = threshold_passed;
        skipped_reason = if evaluated then none else policy.skipped_reason;
      };
      totals = some totals;
      files = files;
      error = none;
    }

-- `is_supported` and `is_stable` are the tests of a version, `validate_json` is
-- `validate_coverage_json` on the run's project root, with the text of what it raises, and `show`
-- prints an exit code.
module _ (is_supported is_stable : String → Bool)
    (validate_json : List ℕ → String → Outcome String (CoverageTotals × List CoverageFile))
    (show : ℤ → String) where
  abbrev if_stable : String → Option String
  if_stable version = if is_stable version then some version else none

  abbrev trusted_of : CoverageExecutionObservation → Option String → Option String
  trusted_of observation (some version) = if_stable version
  trusted_of observation none = elim observation.preflight.preflight_record [
    | none ↦ none
    | some observed ↦ elim observed.coverage_version [
      | none ↦ none
      | some version ↦ if_stable version
    ]
  ]

  -- `_trusted_coverage_version`
  unfoldable pub trusted_coverage_version :
      Option CoverageExecutionObservation → Option String → Option String
  trusted_coverage_version none dependency_version = none
  trusted_coverage_version (some observation) dependency_version =
      if is_trusted observation.preflight.classification
      then trusted_of observation dependency_version
      else none

  abbrev pub artifact_error : CoverageExecutionObservation → Option CoverageError
  artifact_error observation =
      error_for "coverage evidence: " observation.artifact.diagnostic
        (artifact_code observation.artifact.state)

  abbrev pub version_error : CoverageExecutionObservation → Option String → Option CoverageError
  version_error observation none = some (
      error_of CoverageErrorCode.preflight_invalid
        "supported coverage preflight has no trusted version")
  version_error observation (some version) =
      if not (is_supported version)
      then some (
          error_of CoverageErrorCode.unsupported_version
            ("coverage preflight reported unsupported version " <> version))
      else artifact_error observation

  abbrev pub preflight_error :
      CoverageExecutionObservation → Option String → Option CoverageErrorCode → Option CoverageError
  preflight_error observation coverage_version none = version_error observation coverage_version
  preflight_error observation coverage_version (some code) =
      error_for "coverage preflight: " observation.preflight.diagnostic (some code)

  -- `_coverage_observation_error`
  unfoldable pub coverage_observation_error :
      Option CoverageExecutionObservation → Option String → Option CoverageError
  coverage_observation_error none coverage_version = some (
      error_of CoverageErrorCode.preflight_invalid
        "coverage execution setup prevented the coverage preflight")
  coverage_observation_error (some observation) coverage_version =
      preflight_error observation coverage_version
        (preflight_code observation.preflight.classification)

  abbrev kept_unless_supported : Option String → Option String
  kept_unless_supported none = none
  kept_unless_supported (some version) = if is_supported version then none else some version

  abbrev kept_if_supported : Option String → Option String
  kept_if_supported none = none
  kept_if_supported (some version) = if is_supported version then some version else none

  -- `_coverage_error_version`
  unfoldable pub coverage_error_version : Option String → CoverageErrorCode → Option String
  coverage_error_version version CoverageErrorCode.unsupported_version =
      kept_unless_supported version
  coverage_error_version version CoverageErrorCode.unsupported_python = none
  coverage_error_version version CoverageErrorCode.module_unavailable = none
  coverage_error_version version CoverageErrorCode.preflight_invalid = none
  coverage_error_version version other = kept_if_supported version

  -- The result on what the artifact's content comes to
  unfoldable pub read_json :
      RunPlan
      → PytestResult
      → Option Number
      → Option String
      → Option ℤ
      → Outcome String (CoverageTotals × List CoverageFile)
      → CoverageResult
  read_json plan pytest threshold_value coverage_version exit_code (raised message) =
      coverage_error_result threshold_value coverage_version
        (error_of CoverageErrorCode.artifact_invalid ("coverage JSON is invalid: " <> message))
  read_json plan pytest threshold_value coverage_version exit_code (returned (totals, files)) =
      let policy = coverage_gate_policy plan pytest true in
      if is_evidence_error policy.skipped_reason
      then coverage_error_result threshold_value coverage_version (
          error_of CoverageErrorCode.artifact_invalid
            "coverage evidence cannot be matched to valid pytest evidence")
      else judged_result plan pytest threshold_value coverage_version policy exit_code totals files

  -- From the reading of the artifact on
  unfoldable pub read_artifact :
      RunPlan
      → PytestResult
      → Option Number
      → Option String
      → Option ℤ
      → Option (List ℕ)
      → CoverageResult
  read_artifact plan pytest threshold_value coverage_version exit_code none =
      coverage_error_result threshold_value coverage_version
        (error_of CoverageErrorCode.artifact_invalid "coverage JSON snapshot has no content")
  read_artifact plan pytest threshold_value coverage_version exit_code (some content) =
      read_json plan pytest threshold_value coverage_version exit_code
        (validate_json content (or_else coverage_version ""))

  abbrev exit_text : Option ℤ → String
  exit_text none = "coverage JSON process has no exit code"
  exit_text (some exit_code) = "coverage JSON generation exited with code " <> show exit_code

  -- From the exit code of the coverage JSON process on
  unfoldable pub judge_exit :
      RunPlan
      → PytestResult
      → Option Number
      → Option String
      → CoverageExecutionObservation
      → CoverageResult
  judge_exit plan pytest threshold_value coverage_version observation =
      let exit_code = observation.json_exit_code in
      let threshold_exit =
        is_exit 2 exit_code
        && is_some threshold_value
        && (coverage_gate_policy plan pytest true).gate_eligible in
      if not (is_exit 0 exit_code) && not threshold_exit
      then coverage_error_result threshold_value coverage_version
          (error_of CoverageErrorCode.generation_failed (exit_text exit_code))
      else read_artifact plan pytest threshold_value coverage_version exit_code
          observation.artifact.content

  abbrev pub judge_observation :
      RunPlan
      → PytestResult
      → Option Number
      → Option String
      → Option CoverageError
      → Option CoverageExecutionObservation
      → Option CoverageResult
  judge_observation plan pytest threshold_value coverage_version (some error) observation = some (
      coverage_error_result threshold_value (coverage_error_version coverage_version error.code)
        error)
  judge_observation plan pytest threshold_value coverage_version none (some observation) =
      some (judge_exit plan pytest threshold_value coverage_version observation)
  judge_observation plan pytest threshold_value coverage_version none none = none

  -- `build_coverage_result`. Without an observation there is an error already, so that the last
  -- clause of `judge_observation`, which stands for an AssertionError, is never reached.
  unfoldable pub build_coverage_result :
      RunPlan
      → PytestResult
      → Option CoverageExecutionObservation
      → Option String
      → Option CoverageResult
  build_coverage_result plan pytest observation dependency_version =
      let coverage_version = trusted_coverage_version observation dependency_version in
      if not (is_requested plan.planned_coverage_scope)
      then none
      else judge_observation plan pytest (coverage_threshold_value plan) coverage_version
          (coverage_observation_error observation coverage_version) observation
