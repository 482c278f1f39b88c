-- ===== src/Executor/Workspace.antt =====
-- repository_executor.py: one Check in its workspace. `show` prints a number.
pub mod Laws
use pyrepo_check.Base.{
  ℕ, zero, suc, ◌+◌, ◌-◌, ◌*◌, ◌/◌, ◌%◌, ◌≤◌, ◌<◌, code, String, ◌<>◌, ◌≡◌, refl, sym, ap, ◌∙◌, ◌≢◌,
  ◌↔◌, ◌⊎◌, inl, inr, Bool, true, false, not, ◌&&◌, ◌||◌, Option, none, some, List, [], ◌∷◌, ◌++◌,
  map, arith, eq_iff, ltb, leb, if◌then◌else◌, Eq, ◌==◌, ◌!=◌, nat_eq, string_eq, bool_eq, is_none,
  is_some, or_else, Bool-cases, Option-cases, &&-eq-true, ||-false, ==_refl, ==_sym, length, take,
  drop, is_empty, all, any, keep, first, length-append, length-drop, is_empty-eq-true, All,
  length-map, All-of_keep-nil, All-map, contains, contains-keep, subset, distinct, lists_equal,
  Outcome, returned, raised, ◌>>=◌, ◌>>◌, require, refuse, >>=-eq-returned, refuse-eq-returned,
  refuse-returned, returned-injective, if_is_empty-returned, >>=-cong, Outcome-cases, traverse,
  starts_with,
}
use pyrepo_check.Base.Text.{join}
use pyrepo_check.Base.Int.{ℤ, pos, negsuc, int_eq}
use pyrepo_check.Planning.{
  CheckName, ruff, annotations, annotations_fix, ty, bandit, pytest, CheckInvocation,
  PytestExecutionPlan,
}
use pyrepo_check.Execution.{
  ExecutedProcess, CheckStartObservation, CheckExecutionErrorCode, CheckExecutionFailure,
  spawn_failed, terminated_by_signal, check_execution_failed, check_start_evidence_invalid,
  platform_safety_unavailable, cleanup_failed, RepositoryCheckObservation,
  AnalysisPythonAuthorityObservation, repository_tool, DependencyObservation,
}
use pyrepo_check.Execution.Process.{classify_primary_error}
use pyrepo_check.Executor.{
  Fault, platform_safety_error, controller_helper_identity_error, os_error, Raised, identity_lost,
  assertion_error, LauncherRun, PreparedPytestExecution, WorkspaceRun, check_failure,
}

abbrev text_or_none : Option String → String
text_or_none none = "None"
text_or_none (some text) = text

-- The Checks whose tool reads the repository's Python
abbrev has_authority : CheckName → Bool
has_authority ruff = true
has_authority annotations = true
has_authority annotations_fix = true
has_authority ty = true
has_authority bandit = false
has_authority pytest = false

abbrev is_zero_or_one : Option ℤ → Bool
is_zero_or_one none = false
is_zero_or_one (some code) = code == pos 0 || code == pos 1

unfoldable pub analysis_authority :
    CheckName → ExecutedProcess → Option AnalysisPythonAuthorityObservation
analysis_authority name process =
    if has_authority name && is_none process.spawn_error && is_zero_or_one process.returncode
    then some repository_tool
    else none

unfoldable pub refused_start :
    CheckInvocation → ExecutedProcess → CheckExecutionFailure → RepositoryCheckObservation
refused_start invocation process failure = record {
  invocation = invocation;
  execution_environment = none;
  analysis_python_authority = none;
  start = none;
  processes = process ∷ [];
  error = some failure;
  pytest = none;
  coverage = none;
  environment_error = none;
}

-- What the body of the `try` of `_execute_in_workspace` raises
pub data Failure : Type 0 where
  fault : Fault → Failure
  failed_assertion : Failure

abbrev pub faulty : {A : Type 0} → Outcome Fault A → Outcome Failure A
faulty (returned a) = returned a
faulty (raised f) = raised (fault f)

abbrev pub passing : Option Fault → Outcome Failure Unit
passing none = returned tt
passing (some f) = raised (fault f)

module _ (show : ℤ → String) where
  abbrev primary_message : CheckExecutionErrorCode → ExecutedProcess → Option ℤ → String
  primary_message spawn_failed process code =
      "Check process could not be spawned: " <> text_or_none process.spawn_error
  primary_message terminated_by_signal process (some (negsuc n)) =
      "Check process terminated by signal " <> show (pos (suc n)) <> "."
  primary_message other process (some code) =
      "Check process exited with reserved error status " <> show code <> "."
  primary_message other process none = ""

  abbrev primary_failure_of :
      ExecutedProcess → Option CheckExecutionErrorCode → Option CheckExecutionFailure
  primary_failure_of process none = none
  primary_failure_of process (some code) = some (record {
    code = code;
    message = primary_message code process process.returncode;
    hint = none;
  })

  -- `_classify_primary_error`, with its message
  unfoldable pub primary_failure : ExecutedProcess → Option CheckExecutionFailure
  primary_failure process = primary_failure_of process (classify_primary_error process)

  -- The end of `execute_invocation`, once the process was spawned
  unfoldable pub started_observation :
      CheckInvocation
      → ExecutedProcess
      → Outcome String CheckStartObservation
      → RepositoryCheckObservation
  started_observation invocation process (raised marker_error) =
      refused_start invocation process (record {
        code = check_start_evidence_invalid;
        message = "Check start evidence is invalid: " <> marker_error;
        hint = some "Retry after verifying the locked Repository Environment.";
      })
  started_observation invocation process (returned start) = record {
    invocation = invocation;
    execution_environment = some "repository";
    analysis_python_authority = analysis_authority invocation.name process;
    start = some start;
    processes = process ∷ [];
    error = primary_failure process;
    pytest = none;
    coverage = none;
    environment_error = none;
  }

  abbrev pub spawned : CheckInvocation → LauncherRun → Option String → RepositoryCheckObservation
  spawned invocation run (some spawn_error) = refused_start invocation run.process (record {
    code = spawn_failed;
    message = "Check process could not be spawned: " <> spawn_error;
    hint = none;
  })
  spawned invocation run none = started_observation invocation run.process run.start

  abbrev pub prepared_invocation :
      CheckInvocation → LauncherRun → Option String → RepositoryCheckObservation
  prepared_invocation invocation run (some error) =
      check_failure invocation check_start_evidence_invalid
        ("Check start evidence could not be prepared: " <> error)
  prepared_invocation invocation run none = spawned invocation run run.process.spawn_error

  -- `execute_invocation`
  unfoldable pub execute_invocation : CheckInvocation → LauncherRun → RepositoryCheckObservation
  execute_invocation invocation run = prepared_invocation invocation run run.unprepared

  unfoldable pub pytest_observation :
      CheckInvocation → PreparedPytestExecution → RepositoryCheckObservation
  pytest_observation invocation prepared = record {
    invocation = invocation;
    execution_environment = if is_some prepared.start then some "repository" else none;
    analysis_python_authority = none;
    start = prepared.start;
    processes = prepared.processes;
    error = prepared.error;
    pytest = prepared.pytest;
    coverage = prepared.coverage;
    environment_error = prepared.environment_error;
  }

  abbrev pub dispatched :
      CheckInvocation
      → Option DependencyObservation
      → WorkspaceRun
      → Option PytestExecutionPlan
      → Outcome Failure RepositoryCheckObservation
  dispatched invocation dependency run none =
      faulty run.invoked >>= λ launched. returned (execute_invocation invocation launched)
  dispatched invocation none run (some plan) = raised failed_assertion
  dispatched invocation (some dependency) run (some plan) =
      faulty run.pytest_executed >>= λ prepared. returned (pytest_observation invocation prepared)

  -- The body of the `try` of `_execute_in_workspace`
  unfoldable pub attempt :
      CheckInvocation
      → Option DependencyObservation
      → WorkspaceRun
      → Outcome Failure RepositoryCheckObservation
  attempt invocation dependency run = do
    passing run.opened
    passing run.staged
    dispatched invocation dependency run invocation.pytest

  -- `observation` and `diagnostics` after the handlers
  unfoldable pub settled :
      CheckInvocation
      → Outcome Failure RepositoryCheckObservation
      → Outcome Raised (Option RepositoryCheckObservation × List String)
  settled invocation (returned observation) = returned (some observation, [])
  settled invocation (raised (fault (platform_safety_error details))) = returned (
    some (
        check_failure invocation platform_safety_unavailable
          ("workspace filesystem safety is unavailable: " <> details)),
    [],
  )
  settled invocation (raised (fault controller_helper_identity_error)) = raised identity_lost
  settled invocation (raised (fault (os_error error))) =
      returned (none, ("workspace setup failed: " <> error) ∷ [])
  settled invocation (raised failed_assertion) = raised assertion_error

  abbrev close_diagnostics : Option Fault → Option String → List String
  close_diagnostics none (some error) = ("workspace descriptor close failed: " <> error) ∷ []
  close_diagnostics none none = []
  close_diagnostics (some f) closed = []

  abbrev remove_diagnostics : Outcome String (Option String) → List String
  remove_diagnostics (raised error) = ("workspace cleanup failed: " <> error) ∷ []
  remove_diagnostics (returned none) = []
  remove_diagnostics (returned (some diagnostic)) = diagnostic ∷ []

  -- What the `finally` adds to the diagnostics; the workspace is open if it could be opened.
  unfoldable pub cleanup_diagnostics : WorkspaceRun → List String
  cleanup_diagnostics run =
      close_diagnostics run.opened run.closed ++ remove_diagnostics run.removed

  abbrev cleanup_failure : List String → CheckExecutionFailure
  cleanup_failure diagnostics = record {
    code = cleanup_failed;
    message = join "; " diagnostics;
    hint = some "Inspect the retained run path before retrying.";
  }

  -- The end of `_execute_in_workspace`
  unfoldable pub conclude :
      CheckInvocation → Option RepositoryCheckObservation → List String → RepositoryCheckObservation
  conclude invocation none [] =
      check_failure invocation cleanup_failed "workspace execution produced no observation"
  conclude invocation (some observation) [] = observation
  conclude invocation none (d ∷ ds) = record {
    invocation = invocation;
    execution_environment = none;
    analysis_python_authority = none;
    start = none;
    processes = [];
    error = some (cleanup_failure (d ∷ ds));
    pytest = none;
    coverage = none;
    environment_error = none;
  }
  conclude invocation (some observation) (d ∷ ds) = record {
    invocation = observation.invocation;
    execution_environment = observation.execution_environment;
    analysis_python_authority = observation.analysis_python_authority;
    start = observation.start;
    processes = observation.processes;
    error = some (cleanup_failure (d ∷ ds));
    pytest = observation.pytest;
    coverage = observation.coverage;
    environment_error = observation.environment_error;
  }

  -- `_execute_in_workspace`, from whether the workspace could be created
  unfoldable pub in_workspace :
      CheckInvocation
      → Option DependencyObservation
      → WorkspaceRun
      → Option Fault
      → Outcome Raised RepositoryCheckObservation
  in_workspace invocation dependency run (some (platform_safety_error details)) = returned (
      check_failure invocation platform_safety_unavailable
        ("workspace filesystem safety is unavailable: " <> details))
  in_workspace invocation dependency run (some controller_helper_identity_error) =
      raised identity_lost
  in_workspace invocation dependency run (some (os_error error)) =
      returned (check_failure invocation cleanup_failed ("workspace creation failed: " <> error))
  in_workspace invocation dependency run none =
      settled invocation (attempt invocation dependency run)
      >>= λ (state : Option RepositoryCheckObservation × List String).
          returned (conclude invocation state.0 (state.1 ++ cleanup_diagnostics run))

  unfoldable pub execute_in_workspace :
      CheckInvocation
      → Option DependencyObservation
      → WorkspaceRun
      → Outcome Raised RepositoryCheckObservation
  execute_in_workspace invocation dependency run =
      in_workspace invocation dependency run run.created
