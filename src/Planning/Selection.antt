-- ===== src/Planning/Selection.antt =====
-- planning.py: the six Checks with their arguments, and the selection among them.
pub mod Laws
use pyrepo_check.Base.{
  String, Bool, true, false, not, ◌&&◌, ◌||◌, Option, none, some, List, [], ◌∷◌, ◌++◌, map, ◌==◌,
  string_eq, all, keep, is_empty, contains, or_else, Outcome, returned, raised, ◌>>=◌, traverse,
  if◌then◌else◌,
}
use pyrepo_check.Base.Text.{str_le}
use pyrepo_check.Base.Sorting.{sorted}
use pyrepo_check.Config.{CoverageConfig, ProjectConfig}
use pyrepo_check.Planning.{
  CheckName, ruff, annotations, annotations_fix, ty, bandit, pytest, CheckInvocation,
  CoverageExecutionPlan, PytestExecutionPlan, PlanningException, key_error,
}
use pyrepo_check.Planning.Names.{name_eq, check_text, check_order, selectable_check_order}
use pyrepo_check.Planning.Positionals.{is_path_like, unique, unknown_failure}

-- A dictionary from Check names, in insertion order.
abbrev pub Checks : Type 0
Checks = List (CheckName × CheckInvocation)

-- Python's `a or b` on sequences.
abbrev pub or_list : List String → List String → List String
or_list [] other = other
or_list (x ∷ xs) other = x ∷ xs

unfoldable pub bandit_target_args : List String → Bool → List String
bandit_target_args targets recursive = if recursive then "-r" ∷ targets else targets

unfoldable pub build_checks : ProjectConfig → List String → Bool → Option (List String) → Checks
build_checks config targets strict_all pytest_args =
    let strict_targets = if strict_all && is_empty targets then "." ∷ [] else [] in
    let ruff_targets = or_list targets (or_list strict_targets config.ruff_targets) in
    let bandit_targets = or_list targets (or_list strict_targets config.bandit_targets) in
    let effective_pytest_args = or_else pytest_args targets in
    (
      ruff,
      record {
        name = ruff;
        arguments = "check" ∷ ruff_targets;
        pytest = none;
        targets = ruff_targets;
      },
    )
    ∷ (
      annotations,
      record {
        name = annotations;
        arguments =
            ("check" ∷ ruff_targets) ++ ("--select" ∷ "ANN" ∷ "--output-format" ∷ "concise" ∷ []);
        pytest = none;
        targets = ruff_targets;
      },
    )
    ∷ (
      annotations_fix,
      record {
        name = annotations_fix;
        arguments =
            ("check" ∷ ruff_targets) ++ ("--select" ∷ "ANN" ∷ "--fix" ∷ "--unsafe-fixes" ∷ []);
        pytest = none;
        targets = ruff_targets;
      },
    )
    ∷ (ty, record { name = ty; arguments = "check" ∷ targets; pytest = none; targets = [] })
    ∷ (
      bandit,
      record {
        name = bandit;
        arguments = "-c" ∷ "pyproject.toml" ∷ bandit_target_args bandit_targets (is_empty targets);
        pytest = none;
        targets = [];
      },
    )
    ∷ (
      pytest,
      record {
        name = pytest;
        arguments = effective_pytest_args;
        pytest = some (record { pytest_args = effective_pytest_args; coverage = none });
        targets = [];
      },
    )
    ∷ []

-- `checks[name]`
unfoldable pub check_at : Checks → CheckName → Outcome PlanningException CheckInvocation
check_at [] name = raised (key_error name)
check_at ((key, check) ∷ rest) name =
    let later = check_at rest name in if key == name then returned check else later

unfoldable pub select_check_names :
    List String → List String → Bool → Outcome PlanningException (List CheckName)
select_check_names available requested all_selected =
    let unknown = sorted str_le (unique (keep (λ name. not (contains available name)) requested)) in
    if all_selected || is_empty requested
    then returned check_order
    else if is_empty unknown
    then returned (keep (λ name. contains requested (check_text name)) selectable_check_order)
    else raised (unknown_failure (all is_path_like unknown) unknown)

unfoldable pub select_checks :
    Checks → List String → Bool → Outcome PlanningException (List CheckInvocation)
select_checks checks requested all_selected = do
  names ← select_check_names (map (λ (name, check). check_text name) checks) requested all_selected
  traverse (check_at checks) names

-- The `pytest` field with the coverage plan in it; a Check without that field is left as it is.
abbrev pub with_coverage : CoverageConfig → Option PytestExecutionPlan → Option PytestExecutionPlan
with_coverage coverage none = none
with_coverage coverage (some plan) = some (record plan {
  coverage = some (record { config_path = coverage.config_path; fail_under = coverage.fail_under });
})

unfoldable pub attach_coverage_plan : List CheckInvocation → CoverageConfig → List CheckInvocation
attach_coverage_plan selected coverage =
    map (λ (check : CheckInvocation). record check { pytest = with_coverage coverage check.pytest })
      selected
