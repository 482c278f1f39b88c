-- ===== src/Executor.antt =====
-- repository_executor.py: the Checks of a plan, each in its own workspace of the prepared
-- environment. What the operating system and the tools do is in records of effects, `WorkspaceRun` and
-- `LauncherRun`, one for each Check.
pub mod Workspace
pub mod Checks
pub mod Plan
use pyrepo_check.Base.{String, Option, List, Outcome, none, some, []}
use pyrepo_check.Planning.{CheckInvocation, RepositoryPythonSelection}
use pyrepo_check.Execution.{
  ExecutedProcess, CheckStartObservation, CheckExecutionErrorCode, CheckExecutionFailure,
  PytestExecutionObservation, CoverageExecutionObservation, EnvironmentFailureObservation,
  RepositoryCheckObservation, unsafe_repository_environment,
}

-- The exceptions of the file system and the tools that the handlers tell apart; an OSError is its
-- type and message as text.
pub data Fault : Type 0 where
  platform_safety_error : String → Fault
  controller_helper_identity_error : Fault
  os_error : String → Fault

-- What leaves the execution of one Check
pub data Raised : Type 0 where
  identity_lost : Raised
  assertion_error : Raised

-- What happens around one ordinary Check: whether the launcher and the marker could be prepared, the
-- process, and the evidence of its start.
pub record LauncherRun : Type 0 where
  pub unprepared : Option String
  pub process : ExecutedProcess
  pub start : Outcome String CheckStartObservation

pub record PreparedPytestExecution : Type 0 where
  pub processes : List ExecutedProcess
  pub start : Option CheckStartObservation
  pub error : Option CheckExecutionFailure
  pub pytest : Option PytestExecutionObservation
  pub coverage : Option CoverageExecutionObservation
  pub environment_error : Option EnvironmentFailureObservation

-- What happens to the workspace of one Check. `removed` is the diagnostic of what could not be
-- removed, or the error of the removal.
pub record WorkspaceRun : Type 0 where
  pub created : Option Fault
  pub opened : Option Fault
  pub staged : Option Fault
  pub invoked : Outcome Fault LauncherRun
  pub pytest_executed : Outcome Fault PreparedPytestExecution
  pub closed : Option String
  pub removed : Outcome String (Option String)

-- `_check_failure`
unfoldable pub check_failure :
    CheckInvocation → CheckExecutionErrorCode → String → RepositoryCheckObservation
check_failure invocation code message = record {
  invocation = invocation;
  execution_environment = none;
  analysis_python_authority = none;
  start = none;
  processes = [];
  error = some (record { code = code; message = message; hint = none });
  pytest = none;
  coverage = none;
  environment_error = none;
}

-- `_controller_helper_identity_failure`
unfoldable pub controller_helper_identity_failure : EnvironmentFailureObservation
controller_helper_identity_failure = record {
  code = unsafe_repository_environment;
  message = "A pinned controller helper changed during execution.";
  hint = some "Restore the controller uv and Git installations, then retry.";
}
