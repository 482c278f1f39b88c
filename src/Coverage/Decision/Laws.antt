-- ===== src/Coverage/Decision/Laws.antt =====
-- The built coverage result passes the validation of its decision.
use pyrepo_check.Base.{
  String, ◌≡◌, refl, inl, inr, Bool, true, false, ◌&&◌, Option, none, some, List, arith, nat_eq,
  string_eq, bool_eq, is_some, Bool-cases, returned,
}
use pyrepo_check.Base.Int.{ℤ, int_eq}
use pyrepo_check.Config.Toml.{Number}
use pyrepo_check.Planning.{RunPlan}
use pyrepo_check.Pytest.{PytestResult}
use pyrepo_check.Coverage.Gate.{
  not_configured, CoverageGatePolicy, is_whole_scope, is_strict_aggregate, gate_is_eligible,
  threshold_skipped_reason, Context,
}
use pyrepo_check.Coverage.Result.{CoverageTotals, CoverageFile, CoverageError}
use pyrepo_check.Coverage.Codes.{has_supported}
use pyrepo_check.Coverage.Build.{
  is_exit, is_evidence_error, is_complete_scope, coverage_error_result, judged_result,
}
use pyrepo_check.Coverage.Decision.{
  fits_code, validate_error_coverage_version, validate_error_result, is_passed_threshold,
  validate_judged, validate_valid_result, validate_by_status, validate_decision,
}

module _ (is_supported : String → Bool) where
  pub error_result-accepted :
      (threshold_value : Option Number) (version : Option String) (error : CoverageError)
      → fits_code is_supported version error.code ≡ true
      → validate_decision is_supported (coverage_error_result threshold_value version error)
        ≡ returned tt
  unfolding validate_decision validate_by_status validate_error_result
      validate_error_coverage_version coverage_error_result
  error_result-accepted threshold_value version error h = rw h refl

pub skipped_reason-unconfigured :
    (context : Context) (result : PytestResult)
    → gate_is_eligible context result ≡ true
    → context.configured ≡ false
    → threshold_skipped_reason context result ≡ some not_configured
unfolding gate_is_eligible threshold_skipped_reason
skipped_reason-unconfigured context result h c = ground (arith)

pub skipped_reason-ineligible :
    (context : Context) (result : PytestResult)
    → gate_is_eligible context result ≡ false
    → is_some (threshold_skipped_reason context result) ≡ true
unfolding gate_is_eligible threshold_skipped_reason
skipped_reason-ineligible context result h = ground (arith)

pub eligible-scopes :
    (context : Context) (result : PytestResult)
    → gate_is_eligible context result ≡ true
    → (is_whole_scope result.scope ≡ true) × (is_strict_aggregate context.mode ≡ true)
unfolding gate_is_eligible
eligible-scopes context result h = ground (arith)

-- What a policy tells of a result whose scopes are `planned` and `observed`
pub record Fits (policy : CoverageGatePolicy) (configured scoped : Bool) : Type 0 where
  pub scopes : policy.gate_eligible ≡ true → scoped ≡ true
  pub unconfigured :
      policy.gate_eligible ≡ true → configured ≡ false → policy.skipped_reason ≡ some not_configured
  pub ineligible : policy.gate_eligible ≡ false → is_some policy.skipped_reason ≡ true

module _ (is_supported : String → Bool) where
  pub judged-accepted :
      (plan : RunPlan) (pytest : PytestResult) (threshold_value : Option Number)
      (version : Option String) (policy : CoverageGatePolicy) (exit_code : Option ℤ)
      (totals : CoverageTotals) (files : List CoverageFile)
      → has_supported is_supported version ≡ true
      → is_evidence_error policy.skipped_reason ≡ false
      → Fits policy
          (is_some threshold_value)
          (is_complete_scope plan.planned_coverage_scope && is_whole_scope pytest.scope)
      → validate_decision is_supported
          (judged_result plan pytest threshold_value version policy exit_code totals files)
        ≡ returned tt
  unfolding validate_decision validate_by_status validate_valid_result validate_judged
      is_passed_threshold judged_result
  judged-accepted plan pytest (some value) version policy exit_code totals files s e f =
      elim (Bool-cases policy.gate_eligible) [
        | inl g ↦ elim (Bool-cases (is_exit 0 exit_code)) [
          | inl x ↦ rw (g, x, s, f.scopes g) refl
          | inr x ↦ rw (g, x, s, f.scopes g) refl
        ]
        | inr g ↦ rw (g, s, e, f.ineligible g) refl
      ]
  judged-accepted plan pytest none version policy exit_code totals files s e f =
      elim (Bool-cases policy.gate_eligible) [
        | inl g ↦ rw (g, s, f.scopes g, f.unconfigured g refl) refl
        | inr g ↦ rw (g, s, e, f.ineligible g) refl
      ]
