-- ===== src/Execution.antt =====
-- execution.py: the observations of child processes, of the two Python environments and of the checks
-- that are run. Bytes are numbers below 256, paths are text.
pub mod Capture
pub mod Process
pub mod Legacy
use pyrepo_check.Base.{ℕ, String, Bool, Option, List}
use pyrepo_check.Base.Int.{ℤ}
use pyrepo_check.Planning.{CheckName, CheckInvocation, RepositoryPythonSelection}

pub record CapturedBytes : Type 0 where
  pub tail : List ℕ
  pub omitted_bytes : ℕ

pub record ExecutedProcess : Type 0 where
  pub role : String
  pub command : List String
  pub cwd : String
  pub returncode : Option ℤ
  pub duration_ms : ℕ
  pub stdout : Option CapturedBytes
  pub stderr : Option CapturedBytes
  pub spawn_error : Option String

pub data LockStatus : Type 0 where
  current missing unverified : LockStatus

pub data MutationProtection : Type 0 where
  unobserved protected_files tracked_files : MutationProtection

pub data EnvironmentErrorCode : Type 0 where
  repository_lock_missing uv_unavailable repository_environment_failed : EnvironmentErrorCode
  repository_python_unsupported unsafe_repository_environment : EnvironmentErrorCode
  environment_evidence_invalid repository_state_changed : EnvironmentErrorCode

pub data CheckExecutionErrorCode : Type 0 where
  spawn_failed terminated_by_signal pytest_preflight_failed : CheckExecutionErrorCode
  pytest_evidence_error coverage_preflight_failed missing_primary_process : CheckExecutionErrorCode
  platform_safety_unavailable cleanup_failed : CheckExecutionErrorCode
  repository_environment_unavailable check_dependency_missing : CheckExecutionErrorCode
  check_dependency_incompatible check_dependency_shadowed : CheckExecutionErrorCode
  check_dependency_unusable check_start_evidence_invalid : CheckExecutionErrorCode
  check_execution_failed : CheckExecutionErrorCode

pub data DependencyStatus : Type 0 where
  available missing incompatible shadowed unusable unobserved : DependencyStatus

-- The literal type of a dependency's name
pub data DependencyName : Type 0 where
  ruff ty bandit pytest coverage : DependencyName

-- `PythonVersion` is a triple.
pub record PythonObservation : Type 0 where
  pub implementation : String
  pub version : ℕ × ℕ × ℕ
  pub executable : String

pub record EnvironmentFailureObservation : Type 0 where
  pub code : EnvironmentErrorCode
  pub message : String
  pub hint : Option String

pub record CheckExecutionFailure : Type 0 where
  pub code : CheckExecutionErrorCode
  pub message : String
  pub hint : Option String

pub record CheckStartObservation : Type 0 where
  pub check : CheckName
  pub module_name : String
  pub arguments_sha256 : String
  pub python : PythonObservation

-- Its two fields have one value each.
pub data AnalysisPythonAuthorityObservation : Type 0 where
  repository_tool : AnalysisPythonAuthorityObservation

pub record DependencyObservation : Type 0 where
  pub name : DependencyName
  pub module_name : String
  pub required : String
  pub status : DependencyStatus
  pub version : Option String
  pub origin : Option String
  pub process : Option ExecutedProcess
  pub error : Option CheckExecutionFailure

pub record RepositoryEnvironmentObservation : Type 0 where
  pub manager_version : Option String
  pub path : Option String
  pub python_selection : RepositoryPythonSelection
  pub python : Option PythonObservation
  pub lock_path : String
  pub lock_status : LockStatus
  pub mutation_protection : MutationProtection
  pub dependencies : List DependencyObservation
  pub processes : List ExecutedProcess
  pub error : Option EnvironmentFailureObservation

-- The classifications and the states of an artifact are literal types, here text.
pub record PytestPreflightRecord : Type 0 where
  pub python_version : ℕ × ℕ × ℕ
  pub pytest_available : Bool
  pub pytest_version : Option (ℕ × ℕ × ℕ)

pub record PytestPreflightObservation : Type 0 where
  pub classification : String
  pub preflight_record : Option PytestPreflightRecord
  pub diagnostic : Option String

pub record PytestArtifactObservation : Type 0 where
  pub state : String
  pub content : Option (List ℕ)
  pub writer_ids : List String
  pub diagnostic : Option String

pub record PytestExecutionObservation : Type 0 where
  pub preflight : PytestPreflightObservation
  pub artifact : PytestArtifactObservation
  pub cleanup_error : Option String

pub record CoveragePreflightRecord : Type 0 where
  pub python_version : ℕ × ℕ × ℕ
  pub coverage_available : Bool
  pub coverage_version : Option String

pub data CoveragePreflightClassification : Type 0 where
  supported unsupported_python module_unavailable unsupported_version :
      CoveragePreflightClassification
  preflight_invalid spawn_failed terminated_by_signal : CoveragePreflightClassification

pub data CoverageArtifactState : Type 0 where
  not_attempted snapshot unsupported_parallelism data_missing : CoverageArtifactState
  unexpected_parallel_data generation_failed artifact_missing : CoverageArtifactState
  artifact_invalid spawn_failed terminated_by_signal : CoverageArtifactState

pub record CoveragePreflightObservation : Type 0 where
  pub classification : CoveragePreflightClassification
  pub preflight_record : Option CoveragePreflightRecord
  pub diagnostic : Option String

pub record CoverageArtifactObservation : Type 0 where
  pub state : CoverageArtifactState
  pub content : Option (List ℕ)
  pub diagnostic : Option String

pub record CoverageExecutionObservation : Type 0 where
  pub preflight : CoveragePreflightObservation
  pub artifact : CoverageArtifactObservation
  pub json_exit_code : Option ℤ

-- `execution_environment` is None or "repository".
pub record RepositoryCheckObservation : Type 0 where
  pub invocation : CheckInvocation
  pub execution_environment : Option String
  pub analysis_python_authority : Option AnalysisPythonAuthorityObservation
  pub start : Option CheckStartObservation
  pub processes : List ExecutedProcess
  pub error : Option CheckExecutionFailure
  pub pytest : Option PytestExecutionObservation
  pub coverage : Option CoverageExecutionObservation
  pub environment_error : Option EnvironmentFailureObservation
