-- ===== src/Coverage/Decision/Built.antt =====
-- The result that `build_coverage_result` builds, against the validation of its decision.
use pyrepo_check.Base.{
  ℕ, String, ◌≡◌, refl, inl, inr, Bool, true, false, not, ◌&&◌, Option, none, some, List, nat_eq,
  string_eq, bool_eq, is_some, or_else, Bool-cases, Option-cases, Outcome, returned, raised,
}
use pyrepo_check.Base.Int.{ℤ, int_eq}
use pyrepo_check.Planning.{RunPlan}
use pyrepo_check.Execution.{CoverageExecutionObservation}
use pyrepo_check.Pytest.{PytestResult}
use pyrepo_check.Coverage.Gate.{
  is_whole_scope, coverage_gate_policy, coverage_threshold_value, is_strict_aggregate,
  coverage_gate_policy_for_context, coverage_threshold_is_configured, context_of,
}
use pyrepo_check.Coverage.Result.{CoverageErrorCode, CoverageTotals, CoverageFile, CoverageResult}
use pyrepo_check.Coverage.Codes.{preflight_code, artifact_code, is_trusted, has_supported}
use pyrepo_check.Coverage.Build.{
  is_exit, is_evidence_error, is_complete_scope, trusted_coverage_version,
  coverage_observation_error, coverage_error_version, read_json, read_artifact, judge_exit,
  artifact_error, version_error, judge_observation, is_requested, build_coverage_result,
}
use pyrepo_check.Coverage.Decision.{fits_code, validate_decision}
use pyrepo_check.Coverage.Decision.Laws.{
  Fits, error_result-accepted, judged-accepted, skipped_reason-unconfigured,
  skipped_reason-ineligible, eligible-scopes,
}
use pyrepo_check.Coverage.Decision.Versions.{unsupported-fits, preflight-fits, artifact-fits}

-- A result, where there is one, passes the validation.
abbrev pub IsAccepted : (String → Bool) → Option CoverageResult → Type 0
IsAccepted is_supported none = Unit
IsAccepted is_supported (some result) = validate_decision is_supported result ≡ returned tt

policy-Fits :
    (plan : RunPlan) (pytest : PytestResult) (observed : Bool)
    → (is_strict_aggregate plan.mode ≡ true → is_complete_scope plan.planned_coverage_scope ≡ true)
    → Fits
        (coverage_gate_policy plan pytest observed)
        (is_some (coverage_threshold_value plan))
        (is_complete_scope plan.planned_coverage_scope && is_whole_scope pytest.scope)
unfolding coverage_gate_policy coverage_gate_policy_for_context coverage_threshold_is_configured
policy-Fits plan pytest observed h = record {
  scopes = λ g.
      let found = eligible-scopes (context_of plan observed) pytest g in
      rw (h found.1, found.0) refl;
  unconfigured = skipped_reason-unconfigured (context_of plan observed) pytest;
  ineligible = skipped_reason-ineligible (context_of plan observed) pytest;
}

module _ (is_supported is_stable : String → Bool)
    (validate_json : List ℕ → String → Outcome String (CoverageTotals × List CoverageFile))
    (show : ℤ → String) where
  json-accepted :
      (plan : RunPlan) (pytest : PytestResult) (version : Option String) (exit_code : Option ℤ)
      (found : Outcome String (CoverageTotals × List CoverageFile))
      → has_supported is_supported version ≡ true
      → Fits
          (coverage_gate_policy plan pytest true)
          (is_some (coverage_threshold_value plan))
          (is_complete_scope plan.planned_coverage_scope && is_whole_scope pytest.scope)
      → validate_decision is_supported (
          read_json is_supported is_stable validate_json show plan pytest
            (coverage_threshold_value plan)
            version
            exit_code
            found)
        ≡ returned tt
  unfolding read_json fits_code
  json-accepted plan pytest version exit_code (raised message) s f =
      error_result-accepted is_supported (coverage_threshold_value plan) version _ s
  json-accepted plan pytest version exit_code (returned (totals, files)) s f =
      let policy = coverage_gate_policy plan pytest true in
      elim (Bool-cases (is_evidence_error policy.skipped_reason)) [
        | inl e ↦
            rw e (error_result-accepted is_supported (coverage_threshold_value plan) version _ s)
        | inr e ↦ rw e (
            judged-accepted is_supported plan pytest (coverage_threshold_value plan) version policy
              exit_code totals files s e f)
      ]

  artifact-accepted :
      (plan : RunPlan) (pytest : PytestResult) (version : Option String) (exit_code : Option ℤ)
      (content : Option (List ℕ))
      → has_supported is_supported version ≡ true
      → Fits
          (coverage_gate_policy plan pytest true)
          (is_some (coverage_threshold_value plan))
          (is_complete_scope plan.planned_coverage_scope && is_whole_scope pytest.scope)
      → validate_decision is_supported (
          read_artifact is_supported is_stable validate_json show plan pytest
            (coverage_threshold_value plan)
            version
            exit_code
            content)
        ≡ returned tt
  unfolding read_artifact fits_code
  artifact-accepted plan pytest version exit_code none s f =
      error_result-accepted is_supported (coverage_threshold_value plan) version _ s
  artifact-accepted plan pytest version exit_code (some content) s f =
      json-accepted plan pytest version exit_code (validate_json content (or_else version "")) s f

  exit-accepted :
      (plan : RunPlan) (pytest : PytestResult) (version : Option String)
      (observation : CoverageExecutionObservation)
      → has_supported is_supported version ≡ true
      → Fits
          (coverage_gate_policy plan pytest true)
          (is_some (coverage_threshold_value plan))
          (is_complete_scope plan.planned_coverage_scope && is_whole_scope pytest.scope)
      → validate_decision is_supported (
          judge_exit is_supported is_stable validate_json show plan pytest
            (coverage_threshold_value plan)
            version
            observation)
        ≡ returned tt
  unfolding judge_exit fits_code
  exit-accepted plan pytest version observation s f =
      elim (Bool-cases (
        not (is_exit 0 observation.json_exit_code)
        && not (
            is_exit 2 observation.json_exit_code
            && is_some (coverage_threshold_value plan)
            && (coverage_gate_policy plan pytest true).gate_eligible))) [
              | inl x ↦
                  rw x
                    (error_result-accepted is_supported (coverage_threshold_value plan) version _ s)
              | inr x ↦ rw x (
                  artifact-accepted plan pytest version observation.json_exit_code
                    observation.artifact.content s f)
            ]

  supported-IsAccepted :
      (plan : RunPlan) (pytest : PytestResult) (version : String)
      (observation : CoverageExecutionObservation)
      → is_supported version ≡ true
      → Fits
          (coverage_gate_policy plan pytest true)
          (is_some (coverage_threshold_value plan))
          (is_complete_scope plan.planned_coverage_scope && is_whole_scope pytest.scope)
      → IsAccepted is_supported (
          judge_observation is_supported is_stable validate_json show plan pytest
            (coverage_threshold_value plan)
            (some version)
            (artifact_error is_supported is_stable validate_json show observation)
            (some observation))
  supported-IsAccepted plan pytest version observation s f =
      let value = coverage_threshold_value plan in
      elim (Option-cases (artifact_code observation.artifact.state)) [
        | inl p ↦ rw p (exit-accepted plan pytest (some version) observation s f)
        | inr (c, p) ↦ rw p (
            error_result-accepted is_supported value
              (coverage_error_version is_supported is_stable validate_json show (some version) c) _
              (rw p at (
                artifact-fits is_supported is_stable validate_json show observation.artifact.state
                  version s)))
      ]

  version-IsAccepted :
      (plan : RunPlan) (pytest : PytestResult) (version : Option String)
      (observation : CoverageExecutionObservation)
      → Fits
          (coverage_gate_policy plan pytest true)
          (is_some (coverage_threshold_value plan))
          (is_complete_scope plan.planned_coverage_scope && is_whole_scope pytest.scope)
      → IsAccepted is_supported (
          judge_observation is_supported is_stable validate_json show plan pytest
            (coverage_threshold_value plan)
            version
            (version_error is_supported is_stable validate_json show observation version)
            (some observation))
  unfolding fits_code coverage_error_version
  version-IsAccepted plan pytest none observation f =
      error_result-accepted is_supported (coverage_threshold_value plan) none _ refl
  version-IsAccepted plan pytest (some version) observation f =
      elim (Bool-cases (is_supported version)) [
        | inl s ↦ rw s (supported-IsAccepted plan pytest version observation s f)
        | inr s ↦ rw s (
            error_result-accepted is_supported (coverage_threshold_value plan)
              (coverage_error_version is_supported is_stable validate_json show (some version)
                CoverageErrorCode.unsupported_version)
              _ (unsupported-fits is_supported is_stable validate_json show (some version)))
      ]

  observed-IsAccepted :
      (plan : RunPlan) (pytest : PytestResult) (version : Option String)
      (observation : CoverageExecutionObservation)
      → (is_trusted observation.preflight.classification ≡ false → version ≡ none)
      → Fits
          (coverage_gate_policy plan pytest true)
          (is_some (coverage_threshold_value plan))
          (is_complete_scope plan.planned_coverage_scope && is_whole_scope pytest.scope)
      → IsAccepted is_supported (
          judge_observation is_supported is_stable validate_json show plan pytest
            (coverage_threshold_value plan)
            version
            (coverage_observation_error is_supported is_stable validate_json show
              (some observation)
              version)
            (some observation))
  unfolding coverage_observation_error
  observed-IsAccepted plan pytest version observation t f =
      elim (Option-cases (preflight_code observation.preflight.classification)) [
        | inl p ↦ rw p (version-IsAccepted plan pytest version observation f)
        | inr (c, p) ↦ rw p (
            error_result-accepted is_supported (coverage_threshold_value plan)
              (coverage_error_version is_supported is_stable validate_json show version c) _
              (rw p at (
                preflight-fits is_supported is_stable validate_json show
                  observation.preflight.classification version t)))
      ]

  requested-IsAccepted :
      (plan : RunPlan) (pytest : PytestResult) (observation : Option CoverageExecutionObservation)
      (dependency_version : Option String)
      → Fits
          (coverage_gate_policy plan pytest true)
          (is_some (coverage_threshold_value plan))
          (is_complete_scope plan.planned_coverage_scope && is_whole_scope pytest.scope)
      → IsAccepted is_supported (
          judge_observation is_supported is_stable validate_json show plan pytest
            (coverage_threshold_value plan)
            (trusted_coverage_version is_supported is_stable validate_json show observation
              dependency_version)
            (coverage_observation_error is_supported is_stable validate_json show observation (
              trusted_coverage_version is_supported is_stable validate_json show observation
                dependency_version))
            observation)
  unfolding trusted_coverage_version coverage_observation_error fits_code coverage_error_version
  requested-IsAccepted plan pytest none dependency_version f =
      error_result-accepted is_supported (coverage_threshold_value plan) none _ refl
  requested-IsAccepted plan pytest (some observation) dependency_version f =
      observed-IsAccepted plan pytest
        (trusted_coverage_version is_supported is_stable validate_json show (some observation)
          dependency_version)
        observation (λ h. rw h refl) f

-- A coverage result, where one is built, has a status, a threshold, a version and an error that the
-- validation of coverage results accepts together, whatever was observed, if a strict aggregate plan
-- has the complete coverage scope or none.
pub build_coverage_result-IsAccepted :
    (is_supported is_stable : String → Bool)
    (validate_json : List ℕ → String → Outcome String (CoverageTotals × List CoverageFile))
    (show : ℤ → String) (plan : RunPlan) (pytest : PytestResult)
    (observation : Option CoverageExecutionObservation) (dependency_version : Option String)
    → (is_strict_aggregate plan.mode ≡ true
        → is_requested plan.planned_coverage_scope ≡ true
        → is_complete_scope plan.planned_coverage_scope ≡ true)
    → IsAccepted is_supported (
        build_coverage_result is_supported is_stable validate_json show plan pytest observation
          dependency_version)
unfolding build_coverage_result
build_coverage_result-IsAccepted is_supported is_stable validate_json show plan pytest observation
      dependency_version h =
    elim (Bool-cases (is_requested plan.planned_coverage_scope)) [
      | inr r ↦ rw r tt
      | inl r ↦ rw r (
          requested-IsAccepted is_supported is_stable validate_json show plan pytest observation
            dependency_version (policy-Fits plan pytest true (λ m. h m r)))
    ]
