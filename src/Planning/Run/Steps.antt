-- ===== src/Planning/Run/Steps.antt =====
-- The intermediate values of a run of `plan_run` that returned a plan.
use pyrepo_check.Base.{
  ◌≡◌, sym, returned-injective, String, false, not, Option, ◌&&◌, ◌!=◌, nat_eq, length, is_none,
  none, List, map, is_some, returned, >>=-eq-returned, refuse-eq-returned, refuse-returned,
  if◌then◌else◌,
}
use pyrepo_check.Config.{ProjectConfig}
use pyrepo_check.Planning.{
  CheckName, annotations_fix, pytest, focused, strict_aggregate, RepositoryPythonSelection,
  RunRequest, PlanningFacts, RunPlan, CheckInvocation,
}
use pyrepo_check.Planning.Names.{check_text}
use pyrepo_check.Planning.Python.{select_repository_python}
use pyrepo_check.Planning.Positionals.{
  requested_checks, direct_targets, validate_direct_targets, resolve_test_shortcut,
}
use pyrepo_check.Planning.Selection.{build_checks, select_checks}
use pyrepo_check.Planning.Run.{
  default_checks, is_strict, selects, check_selection, coverage_scope, covered_checks, pytest_scope,
  plan_run,
}

pub record Steps (request : RunRequest) (config : ProjectConfig) (facts : PlanningFacts)
    (plan : RunPlan) : Type 0 where
  pub python : RepositoryPythonSelection
  pub shortcut : Option (List String)
  pub targets : List String
  pub requested : List CheckName
  pub selected : List CheckInvocation
  pub frozen : request.no_frozen ≡ false
  pub has_project : not facts.pyproject_exists ≡ false
  pub python_step : select_repository_python request.repository_python ≡ returned python
  pub shortcut_step :
      resolve_test_shortcut request config
        (requested_checks request.positionals)
        (direct_targets request.positionals)
      ≡ returned shortcut
  pub targets_step :
      validate_direct_targets (direct_targets request.positionals) facts ≡ returned targets
  pub default_step :
      default_checks request facts (requested_checks request.positionals) targets
      ≡ returned requested
  pub select_step :
      select_checks
        (build_checks config targets (is_strict request targets) shortcut)
        (map check_text requested)
        request.all_selected
      ≡ returned selected
  pub selection_step : check_selection request config selected ≡ returned tt
  pub plan_step : plan ≡ record {
    root = config.root;
    repository_python = python;
    mode = if is_strict request targets then strict_aggregate else focused;
    targets = targets;
    checks = covered_checks request config.coverage (is_strict request targets) selected;
    output_format = request.output_format;
    test_shortcut = if is_some shortcut then request.test_shortcut else none;
    pytest_args = (pytest_scope (selects pytest selected) shortcut targets).0;
    planned_test_scope = (pytest_scope (selects pytest selected) shortcut targets).1;
    planned_coverage_scope =
        coverage_scope request config.coverage (is_strict request targets) targets shortcut;
    pyproject_sha256 = config.pyproject_sha256;
  }

pub plan_run-Steps :
    (request : RunRequest) (config : ProjectConfig) (facts : PlanningFacts) {plan : RunPlan}
    → plan_run request config facts ≡ returned plan
    → Steps request config facts plan
unfolding plan_run
plan_run-Steps request config facts h =
    let (frozen, h1) = refuse-eq-returned request.no_frozen _ _ h in
    let (has_project, h2) = refuse-eq-returned (not facts.pyproject_exists) _ _ h1 in
    let (python, python_step, h3) = >>=-eq-returned (select_repository_python _) _ h2 in
    let (shortcut, shortcut_step, h4) = >>=-eq-returned (resolve_test_shortcut _ _ _ _) _ h3 in
    let (targets, targets_step, h5) = >>=-eq-returned (validate_direct_targets _ _) _ h4 in
    let (requested, default_step, h6) = >>=-eq-returned (default_checks _ _ _ _) _ h5 in
    let (selected, select_step, h7) = >>=-eq-returned (select_checks _ _ _) _ h6 in
    let (_, selection_step, h8) = >>=-eq-returned (check_selection request config selected) _ h7 in
    record {
      python = python;
      shortcut = shortcut;
      targets = targets;
      requested = requested;
      selected = selected;
      frozen = frozen;
      has_project = has_project;
      python_step = python_step;
      shortcut_step = shortcut_step;
      targets_step = targets_step;
      default_step = default_step;
      select_step = select_step;
      selection_step = selection_step;
      plan_step = sym (returned-injective h8);
    }

-- The three refusals of `check_selection`, passed.
pub check_selection-returned :
    (request : RunRequest) (config : ProjectConfig) (selected : List CheckInvocation)
    → check_selection request config selected ≡ returned tt
    → ((selects annotations_fix selected && length selected != 1) ≡ false)
      × ((request.coverage_requested && not (selects pytest selected)) ≡ false)
      × ((request.coverage_requested && is_none config.coverage) ≡ false)
unfolding check_selection
check_selection-returned request config selected h =
    let (alone, h1) =
      refuse-eq-returned (selects annotations_fix selected && length selected != 1) _ _ h in
    let (with_pytest, h2) =
      refuse-eq-returned (request.coverage_requested && not (selects pytest selected)) _ _ h1 in
    (
      alone,
      with_pytest,
      refuse-returned (request.coverage_requested && is_none config.coverage) _ h2,
    )
