-- ===== src/Tests/Planning.antt =====
-- planning.py on three command lines: a focused run of two Checks with coverage, the strict
-- aggregate run, and a run of `annotations-fix`.
use pyrepo_check.Base.{
  String, ◌≡◌, refl, Bool, true, false, none, some, List, [], ◌∷◌, nat_eq, string_eq, bool_eq, All,
  contains, returned,
}
use pyrepo_check.Base.Int.{pos}
use pyrepo_check.Config.{ProjectConfig}
use pyrepo_check.Config.Toml.{integer}
use pyrepo_check.Planning.{
  CheckName, ruff, annotations, annotations_fix, ty, bandit, pytest, focused, strict_aggregate,
  json, PlannedTestScope, PlannedCoverageScope, RunRequest, PlanningFacts, default, RunPlan,
}
use pyrepo_check.Planning.Names.{check_order}
use pyrepo_check.Planning.Run.{
  plan_run, default_checks, check_selection, covered_checks, pytest_scope, coverage_scope,
}
use pyrepo_check.Config.Target.{validate_project_target_syntax, path_part}
use pyrepo_check.Planning.Names.{check_named, name_eq}
use pyrepo_check.Planning.Python.{select_repository_python}
use pyrepo_check.Planning.Selection.{
  select_checks, select_check_names, build_checks, check_at, attach_coverage_plan,
  bandit_target_args,
}
use pyrepo_check.Planning.Positionals.{
  direct_targets, requested_checks, resolve_test_shortcut, resolve_named, validate_direct_targets,
  invalid_syntax,
}
use pyrepo_check.Planning.Positionals.Laws.{IsAccepted}
use pyrepo_check.Planning.Run.Laws.{names, plan_run-names, plan_run-targets}
use pyrepo_check.Planning.Run.Alone.{plan_run-annotations_fix}
use pyrepo_check.Planning.Run.Strict.{plan_run-strict}
use pyrepo_check.Planning.Run.Coverage.{coverage_plans, carries, plan_run-coverage}
use pyrepo_check.Planning.Run.Order.{plan_run-SameNames}
use pyrepo_check.Planning.Run.Totality.{IsDocumented, plan_run-IsDocumented}

abbrev request_of : List String → Bool → RunRequest
request_of positionals coverage_requested = record {
  root = "/repo";
  positionals = positionals;
  all_selected = false;
  no_frozen = false;
  output_format = json;
  test_shortcut = none;
  coverage_requested = coverage_requested;
  repository_python = none;
}

abbrev pub config : ProjectConfig
config = record {
  root = "/repo";
  ruff_targets = "src" ∷ "tests" ∷ [];
  bandit_targets = "src" ∷ [];
  test_shortcuts = [];
  coverage =
      some (record { config_path = "/repo/pyproject.toml"; fail_under = some (integer (pos 90)) });
  pyproject_sha256 = none;
}

abbrev pub facts : PlanningFacts
facts = record { existing_positionals = "src/a.py" ∷ []; pyproject_exists = true }

abbrev focused_request : RunRequest
focused_request = request_of ("pytest" ∷ "src/a.py" ∷ "ruff" ∷ []) true

abbrev pub strict_request : RunRequest
strict_request = request_of [] false

abbrev fixing_request : RunRequest
fixing_request = request_of ("annotations-fix" ∷ []) false

abbrev focused_plan : RunPlan
focused_plan = record {
  root = "/repo";
  repository_python = default;
  mode = focused;
  targets = "src/a.py" ∷ [];
  checks =
      record {
        name = ruff;
        arguments = "check" ∷ "src/a.py" ∷ [];
        pytest = none;
        targets = "src/a.py" ∷ [];
      }
      ∷ record {
        name = pytest;
        arguments = "src/a.py" ∷ [];
        pytest = some (record {
          pytest_args = "src/a.py" ∷ [];
          coverage = some (record {
            config_path = "/repo/pyproject.toml";
            fail_under = some (integer (pos 90));
          });
        });
        targets = [];
      }
      ∷ [];
  output_format = json;
  test_shortcut = none;
  pytest_args = some ("src/a.py" ∷ []);
  planned_test_scope = PlannedTestScope.partial;
  planned_coverage_scope = PlannedCoverageScope.partial;
  pyproject_sha256 = none;
}

focused_run : plan_run focused_request config facts ≡ returned focused_plan
unfolding plan_run select_repository_python resolve_test_shortcut resolve_named
    validate_direct_targets direct_targets default_checks requested_checks select_checks
    select_check_names build_checks check_at check_selection covered_checks pytest_scope
    coverage_scope check_named invalid_syntax validate_project_target_syntax path_part
    attach_coverage_plan
focused_run = refl

abbrev pub strict_plan : RunPlan
strict_plan = record {
  root = "/repo";
  repository_python = default;
  mode = strict_aggregate;
  targets = [];
  checks =
      record { name = ruff; arguments = "check" ∷ "." ∷ []; pytest = none; targets = "." ∷ [] }
      ∷ record {
        name = annotations;
        arguments = "check" ∷ "." ∷ "--select" ∷ "ANN" ∷ "--output-format" ∷ "concise" ∷ [];
        pytest = none;
        targets = "." ∷ [];
      }
      ∷ record { name = ty; arguments = "check" ∷ []; pytest = none; targets = [] }
      ∷ record {
        name = bandit;
        arguments = "-c" ∷ "pyproject.toml" ∷ "-r" ∷ "." ∷ [];
        pytest = none;
        targets = [];
      }
      ∷ record {
        name = pytest;
        arguments = [];
        pytest = some (record {
          pytest_args = [];
          coverage = some (record {
            config_path = "/repo/pyproject.toml";
            fail_under = some (integer (pos 90));
          });
        });
        targets = [];
      }
      ∷ [];
  output_format = json;
  test_shortcut = none;
  pytest_args = some [];
  planned_test_scope = PlannedTestScope.complete;
  planned_coverage_scope = PlannedCoverageScope.complete;
  pyproject_sha256 = none;
}

pub strict_run : plan_run strict_request config facts ≡ returned strict_plan
unfolding plan_run select_repository_python resolve_test_shortcut resolve_named
    validate_direct_targets direct_targets default_checks requested_checks select_checks
    select_check_names build_checks check_at check_selection covered_checks pytest_scope
    coverage_scope attach_coverage_plan bandit_target_args
strict_run = refl

abbrev fixing_plan : RunPlan
fixing_plan = record {
  root = "/repo";
  repository_python = default;
  mode = focused;
  targets = [];
  checks =
      record {
        name = annotations_fix;
        arguments =
            "check" ∷ "src" ∷ "tests" ∷ "--select" ∷ "ANN" ∷ "--fix" ∷ "--unsafe-fixes" ∷ [];
        pytest = none;
        targets = "src" ∷ "tests" ∷ [];
      }
      ∷ [];
  output_format = json;
  test_shortcut = none;
  pytest_args = none;
  planned_test_scope = PlannedTestScope.not_selected;
  planned_coverage_scope = PlannedCoverageScope.not_requested;
  pyproject_sha256 = none;
}

fixing_run : plan_run fixing_request config facts ≡ returned fixing_plan
unfolding plan_run select_repository_python resolve_test_shortcut resolve_named
    validate_direct_targets direct_targets default_checks requested_checks select_checks
    select_check_names build_checks check_at check_selection covered_checks pytest_scope
    coverage_scope check_named
fixing_run = refl

plan_run-names_example : names focused_plan.checks ≡ ruff ∷ pytest ∷ []
unfolding requested_checks check_named
plan_run-names_example = plan_run-names focused_request config facts focused_run

plan_run-targets_example :
    (focused_plan.targets ≡ "src/a.py" ∷ []) × All (IsAccepted facts) focused_plan.targets
unfolding direct_targets check_named
plan_run-targets_example = plan_run-targets focused_request config facts focused_run

plan_run-coverage_example :
    coverage_plans focused_plan.checks ≡ carries PlannedCoverageScope.partial config.coverage
plan_run-coverage_example = plan_run-coverage focused_request config facts focused_run

plan_run-strict_example :
    (strict_plan.targets ≡ [])
    × (names strict_plan.checks ≡ check_order)
    × (strict_plan.test_shortcut ≡ none)
    × (strict_plan.planned_test_scope ≡ PlannedTestScope.complete)
    × (strict_plan.pytest_args ≡ some [])
plan_run-strict_example = plan_run-strict strict_request config facts strict_run refl

plan_run-annotations_fix_example : names fixing_plan.checks ≡ annotations_fix ∷ []
plan_run-annotations_fix_example =
    plan_run-annotations_fix fixing_request config facts fixing_run refl

same_names :
    (name : CheckName)
    → contains (ruff ∷ pytest ∷ ruff ∷ []) name ≡ contains (pytest ∷ ruff ∷ []) name
same_names ruff = refl
same_names annotations = refl
same_names annotations_fix = refl
same_names ty = refl
same_names bandit = refl
same_names pytest = refl

plan_run-SameNames_example :
    plan_run
      (record focused_request { positionals = "ruff" ∷ "src/a.py" ∷ "pytest" ∷ "ruff" ∷ [] })
      config
      facts
    ≡ plan_run focused_request config facts
unfolding requested_checks direct_targets check_named
plan_run-SameNames_example =
    plan_run-SameNames focused_request config facts ("ruff" ∷ "src/a.py" ∷ "pytest" ∷ "ruff" ∷ [])
      refl same_names

plan_run-IsDocumented_example : IsDocumented (plan_run fixing_request config facts)
plan_run-IsDocumented_example = plan_run-IsDocumented fixing_request config facts
