-- ===== src/Coverage/Decision/Planned.antt =====
-- The coverage result of a plan that `plan_run` returned, whatever its run observes.
use pyrepo_check.Base.{
  ℕ, String, ◌≡◌, Bool, true, Option, none, List, [], arith, nat_eq, string_eq, bool_eq, Outcome,
  returned,
}
use pyrepo_check.Base.Int.{ℤ, int_eq}
use pyrepo_check.Config.{ProjectConfig, CoverageConfig}
use pyrepo_check.Planning.{RunPlan, RunMode, strict_aggregate, RunRequest, PlanningFacts}
use pyrepo_check.Planning.Run.{plan_run, coverage_scope}
use pyrepo_check.Planning.Run.Strict.{planned_coverage_scope-strict}
use pyrepo_check.Execution.{CoverageExecutionObservation}
use pyrepo_check.Pytest.{PytestResult}
use pyrepo_check.Coverage.Gate.{is_strict_aggregate}
use pyrepo_check.Coverage.Result.{CoverageTotals, CoverageFile}
use pyrepo_check.Coverage.Build.{is_requested, is_complete_scope, build_coverage_result}
use pyrepo_check.Coverage.Decision.Built.{IsAccepted, build_coverage_result-IsAccepted}

mode_path : (mode : RunMode) → is_strict_aggregate mode ≡ true → mode ≡ strict_aggregate
mode_path mode h = ground (arith, h)

whole_scope :
    (request : RunRequest) (coverage : Option CoverageConfig) (strict_all : Bool)
    → is_requested (coverage_scope request coverage strict_all [] none) ≡ true
    → is_complete_scope (coverage_scope request coverage strict_all [] none) ≡ true
unfolding coverage_scope
whole_scope request coverage strict_all h = ground (arith, h)

planned_scope :
    (request : RunRequest) (config : ProjectConfig) (facts : PlanningFacts) {plan : RunPlan}
    → plan_run request config facts ≡ returned plan
    → is_strict_aggregate plan.mode ≡ true
    → is_requested plan.planned_coverage_scope ≡ true
    → is_complete_scope plan.planned_coverage_scope ≡ true
planned_scope request config facts {plan} h m r =
    let (strict_all, path) =
      planned_coverage_scope-strict request config facts h (mode_path plan.mode m) in
    rw path (whole_scope request config.coverage strict_all (rw path at r))

-- For a plan that `plan_run` returned, the coverage result, where one is built, has a status, a
-- threshold, a version and an error that the validation of coverage results accepts together, whatever
-- the run observed.
pub build_coverage_result-plan_run-IsAccepted :
    (is_supported is_stable : String → Bool)
    (validate_json : List ℕ → String → Outcome String (CoverageTotals × List CoverageFile))
    (show : ℤ → String) (request : RunRequest) (config : ProjectConfig) (facts : PlanningFacts)
    {plan : RunPlan} (pytest : PytestResult) (observation : Option CoverageExecutionObservation)
    (dependency_version : Option String)
    → plan_run request config facts ≡ returned plan
    → IsAccepted is_supported (
        build_coverage_result is_supported is_stable validate_json show plan pytest observation
          dependency_version)
build_coverage_result-plan_run-IsAccepted is_supported is_stable validate_json show request config
      facts {plan} pytest observation dependency_version h =
    build_coverage_result-IsAccepted is_supported is_stable validate_json show plan pytest
      observation dependency_version (planned_scope request config facts h)
