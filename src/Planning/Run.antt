-- ===== src/Planning/Run.antt =====
-- planning.py: `plan_run`, which composes the parts.
mod Steps
pub mod Laws
pub mod Alone
pub mod Strict
pub mod Coverage
pub mod Order
pub mod Totality
use pyrepo_check.Base.{
  String, Bool, true, false, not, ◌&&◌, ◌||◌, Option, none, some, List, [], ◌∷◌, map, ◌==◌, ◌!=◌,
  string_eq, nat_eq, all, any, keep, is_empty, is_none, is_some, length, contains, Outcome,
  returned, raised, ◌>>=◌, ◌>>◌, refuse, if◌then◌else◌,
}
use pyrepo_check.Base.Text.{str_le}
use pyrepo_check.Base.Sorting.{sorted}
use pyrepo_check.Config.{CoverageConfig, ProjectConfig}
use pyrepo_check.Planning.{
  CheckName, annotations_fix, pytest, RunMode, focused, strict_aggregate, PlannedTestScope,
  not_selected, PlannedCoverageScope, not_requested, unavailable, RunRequest, PlanningFacts,
  RunPlan, CheckInvocation, PlanningException, invalid_arguments, unsafe_unlocked_execution,
  uv_project_required, coverage_configuration_required, failure,
}
use pyrepo_check.Planning.Names.{name_eq, check_text, target_default_checks}
use pyrepo_check.Planning.Python.{select_repository_python}
use pyrepo_check.Planning.Positionals.{
  requested_checks, direct_targets, is_path_like, unknown_failure, validate_direct_targets,
  resolve_test_shortcut,
}
use pyrepo_check.Planning.Selection.{build_checks, select_checks, attach_coverage_plan}

-- The Checks that a command line with targets and no Check names selects.
unfoldable pub default_checks :
    RunRequest
    → PlanningFacts
    → List CheckName
    → List String
    → Outcome PlanningException (List CheckName)
default_checks request facts requested targets =
    let missing = keep (λ target. not (contains facts.existing_positionals target)) targets in
    if not (is_empty targets) && is_empty requested && not request.all_selected
    then (if is_empty missing
        then returned target_default_checks
        else raised (unknown_failure (all is_path_like missing) (sorted str_le missing)))
    else returned requested

abbrev pub selects : CheckName → List CheckInvocation → Bool
selects name selected = any (λ check. check.name == name) selected

abbrev pub is_strict : RunRequest → List String → Bool
is_strict request targets =
    is_empty targets && (request.all_selected || is_empty request.positionals)

-- The refusals on what was selected.
unfoldable pub check_selection :
    RunRequest → ProjectConfig → List CheckInvocation → Outcome PlanningException Unit
check_selection request config selected = do
  refuse (selects annotations_fix selected && length selected != 1) (
      failure invalid_arguments "annotations-fix must be selected alone."
        "Run annotations-fix without --all or another check name.")
  refuse (request.coverage_requested && not (selects pytest selected)) (
      failure invalid_arguments "--coverage requires pytest to be selected."
        "Use: pyrepo-check pytest --coverage")
  refuse (request.coverage_requested && is_none config.coverage) (
      failure coverage_configuration_required
        "--coverage requires a valid [tool.coverage.run] configuration."
        "Configure native Coverage.py settings in pyproject.toml.")

abbrev pub coverage_enabled : RunRequest → Option CoverageConfig → Bool → Bool
coverage_enabled request coverage strict_all =
    request.coverage_requested || (strict_all && is_some coverage)

abbrev pub narrowed : List String → Option (List String) → Bool
narrowed targets shortcut = not (is_empty targets) || is_some shortcut

-- `planned_coverage_scope`, once `check_selection` has passed.
unfoldable pub coverage_scope :
    RunRequest
    → Option CoverageConfig
    → Bool
    → List String
    → Option (List String)
    → PlannedCoverageScope
coverage_scope request coverage strict_all targets shortcut =
    if strict_all && is_none coverage
    then unavailable
    else if coverage_enabled request coverage strict_all
    then if narrowed targets shortcut
      then PlannedCoverageScope.partial
      else PlannedCoverageScope.complete
    else not_requested

abbrev pub covered : Bool → Option CoverageConfig → List CheckInvocation → List CheckInvocation
covered false coverage selected = selected
covered true none selected = selected
covered true (some coverage) selected = attach_coverage_plan selected coverage

unfoldable pub covered_checks :
    RunRequest → Option CoverageConfig → Bool → List CheckInvocation → List CheckInvocation
covered_checks request coverage strict_all selected =
    covered (coverage_enabled request coverage strict_all) coverage selected

-- `planned_pytest_args` and `planned_test_scope`
unfoldable pub pytest_scope :
    Bool → Option (List String) → List String → Option (List String) × PlannedTestScope
pytest_scope false shortcut targets = (none, not_selected)
pytest_scope true (some args) targets = (some args, PlannedTestScope.partial)
pytest_scope true none [] = (some [], PlannedTestScope.complete)
pytest_scope true none (target ∷ targets) = (some (target ∷ targets), PlannedTestScope.partial)

unfoldable pub plan_run :
    RunRequest → ProjectConfig → PlanningFacts → Outcome PlanningException RunPlan
plan_run request config facts = do
  refuse request.no_frozen (
      failure unsafe_unlocked_execution
        "--no-frozen is incompatible with repository-safe execution."
        "Update uv.lock explicitly, then rerun without --no-frozen.")
  refuse (not facts.pyproject_exists) (
      failure uv_project_required "Repository root must contain pyproject.toml."
        "Run pyrepo-check from a uv project root or pass --root.")
  python ← select_repository_python request.repository_python
  let named = requested_checks request.positionals
  let split = direct_targets request.positionals
  shortcut ← resolve_test_shortcut request config named split
  targets ← validate_direct_targets split facts
  requested ← default_checks request facts named targets
  let strict_all = is_strict request targets
  selected ←
      select_checks (build_checks config targets strict_all shortcut) (map check_text requested)
        request.all_selected
  check_selection request config selected
  let (pytest_args, test_scope) = pytest_scope (selects pytest selected) shortcut targets
  returned (record {
    root = config.root;
    repository_python = python;
    mode = if strict_all then strict_aggregate else focused;
    targets = targets;
    checks = covered_checks request config.coverage strict_all selected;
    output_format = request.output_format;
    test_shortcut = if is_some shortcut then request.test_shortcut else none;
    pytest_args = pytest_args;
    planned_test_scope = test_scope;
    planned_coverage_scope = coverage_scope request config.coverage strict_all targets shortcut;
    pyproject_sha256 = config.pyproject_sha256;
  })
