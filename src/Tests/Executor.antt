-- ===== src/Tests/Executor.antt =====
-- repository_executor.py on a concrete plan of two Checks.
use pyrepo_check.Base.{
  code, String, ◌≡◌, refl, Bool, true, false, Option, none, some, List, [], ◌∷◌, if◌then◌else◌,
  ◌==◌, nat_eq, string_eq, bool_eq, ==_refl, All, returned, raised,
}
use pyrepo_check.Base.Int.{ℤ, pos}
use pyrepo_check.Planning.{
  CheckName, CheckInvocation, RunPlan, RepositoryPythonSelection, RunMode, OutputFormat,
  PlannedTestScope, PlannedCoverageScope,
}
use pyrepo_check.Planning.Names.{name_eq}
use pyrepo_check.Execution.{
  DependencyName, DependencyStatus, DependencyObservation, ExecutedProcess, LockStatus,
  MutationProtection,
}
use pyrepo_check.Executor.{PreparedPytestExecution, WorkspaceRun}
use pyrepo_check.Executor.Checks.{
  lookup, RepositoryVerificationResult, Prepared, RepositoryExecutionResult,
  execute_repository_plan,
}
use pyrepo_check.Executor.Checks.Laws.{IsExecutable}
use pyrepo_check.Reporting.Matching.{match_repository_observations}
use pyrepo_check.Reporting.Matching.Laws.{
  enumerated, execute_repository_plan-match_repository_observations,
}

abbrev show : ℤ → String
show code = "9"

abbrev ruff_check : CheckInvocation
ruff_check = record { name = CheckName.ruff; arguments = "check" ∷ []; pytest = none; targets = [] }

abbrev pytest_check : CheckInvocation
pytest_check = record {
  name = CheckName.pytest;
  arguments = [];
  pytest = some (record { pytest_args = []; coverage = none });
  targets = [];
}

abbrev plan : RunPlan
plan = record {
  root = "/repo";
  repository_python = RepositoryPythonSelection.default;
  mode = RunMode.focused;
  targets = [];
  checks = ruff_check ∷ pytest_check ∷ [];
  output_format = OutputFormat.json;
  test_shortcut = none;
  pytest_args = some [];
  planned_test_scope = PlannedTestScope.complete;
  planned_coverage_scope = PlannedCoverageScope.not_requested;
  pyproject_sha256 = none;
}

abbrev process : ExecutedProcess
process = record {
  role = "primary";
  command = "uv" ∷ [];
  cwd = "/repo";
  returncode = some (pos 0);
  duration_ms = 3;
  stdout = none;
  stderr = none;
  spawn_error = none;
}

abbrev pytest_execution : PreparedPytestExecution
pytest_execution = record {
  processes = process ∷ [];
  start = none;
  error = none;
  pytest = none;
  coverage = none;
  environment_error = none;
}

-- The start of ruff leaves no evidence, and a file of pytest's workspace cannot be removed.
abbrev workspaces : CheckInvocation → WorkspaceRun
workspaces check = record {
  created = none;
  opened = none;
  staged = none;
  invoked = returned (record { unprepared = none; process = process; start = raised "missing" });
  pytest_executed = returned pytest_execution;
  closed = none;
  removed = if check.name == CheckName.pytest then raised "denied" else returned none;
}

abbrev verify : Option (List String) → RepositoryVerificationResult
verify targets = record {
  processes = [];
  mutation_protection = MutationProtection.tracked_files;
  error = none;
}

abbrev available : DependencyName → String → DependencyObservation
available name module_name = record {
  name = name;
  module_name = module_name;
  required = "";
  status = DependencyStatus.available;
  version = none;
  origin = none;
  process = none;
  error = none;
}

abbrev safe : Prepared
safe = record {
  is_prepared = true;
  has_baseline = true;
  observation = record {
    manager_version = none;
    path = none;
    python_selection = RepositoryPythonSelection.default;
    python = none;
    lock_path = "/repo/uv.lock";
    lock_status = LockStatus.current;
    mutation_protection = MutationProtection.unobserved;
    dependencies =
        available DependencyName.ruff "ruff" ∷ available DependencyName.pytest "pytest" ∷ [];
    processes = [];
    error = none;
  };
}

executable : All (IsExecutable safe.observation.dependencies) plan.checks
unfolding lookup
executable = ((λ other. refl, refl), ((λ other. cc, refl), tt))

abbrev same_invocation : CheckInvocation → CheckInvocation → Bool
same_invocation a b = a.name == b.name

same_invocation_refl : (a : CheckInvocation) → same_invocation a a ≡ true
same_invocation_refl a = ==_refl a.name

execute_repository_plan-match_repository_observations_example :
    (result : RepositoryExecutionResult) × (execute_repository_plan show workspaces verify false
        plan safe
      ≡ returned result)
    × (match_repository_observations same_invocation plan.checks result.checks
        ≡ returned (enumerated 0 result.checks))
execute_repository_plan-match_repository_observations_example =
    execute_repository_plan-match_repository_observations same_invocation same_invocation_refl show
      workspaces verify false plan safe executable
