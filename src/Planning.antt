-- ===== src/Planning.antt =====
-- planning.py: from a request, the configuration and what exists, to the plan of one run.
-- The types are here; the children build the plan, `Planning.Run` composing them.
pub mod Names
pub mod Python
pub mod Positionals
pub mod Selection
pub mod Run
use pyrepo_check.Base.{String, Bool, Option, some, List}
use pyrepo_check.Config.Toml.{Number}

pub data CheckName : Type 0 where
  ruff annotations annotations_fix ty bandit pytest : CheckName

pub data RunMode : Type 0 where
  focused strict_aggregate : RunMode

pub data OutputFormat : Type 0 where
  terminal json : OutputFormat

pub data PlannedTestScope : Type 0 where
  not_selected partial complete : PlannedTestScope

pub data PlannedCoverageScope : Type 0 where
  not_requested unavailable partial complete : PlannedCoverageScope

pub data PlanningErrorCode : Type 0 where
  platform_safety_unavailable invalid_arguments invalid_project_config : PlanningErrorCode
  invalid_test_shortcut unknown_check unknown_test_shortcut unknown_target : PlanningErrorCode
  coverage_configuration_required unsafe_unlocked_execution : PlanningErrorCode
  uv_project_required internal_planning_error : PlanningErrorCode

pub record PlanningFailure : Type 0 where
  pub code : PlanningErrorCode
  pub message : String
  pub hint : Option String

-- What a planning function may raise: a `PlanningFailure`, or a missing dictionary key.
pub data PlanningException : Type 0 where
  planning_failure : PlanningFailure → PlanningException
  key_error : CheckName → PlanningException

pub record RunRequest : Type 0 where
  pub root : String
  pub positionals : List String
  pub all_selected : Bool
  pub no_frozen : Bool
  pub output_format : OutputFormat
  pub test_shortcut : Option String
  pub coverage_requested : Bool
  pub repository_python : Option String

pub record PlanningFacts : Type 0 where
  pub existing_positionals : List String
  pub pyproject_exists : Bool

pub data RepositoryPythonSelection : Type 0 where
  default : RepositoryPythonSelection
  explicit : String → RepositoryPythonSelection

pub record CoverageExecutionPlan : Type 0 where
  pub config_path : String
  pub fail_under : Option Number

pub record PytestExecutionPlan : Type 0 where
  pub pytest_args : List String
  pub coverage : Option CoverageExecutionPlan

pub record CheckInvocation : Type 0 where
  pub name : CheckName
  pub arguments : List String
  pub pytest : Option PytestExecutionPlan
  pub targets : List String

pub record RunPlan : Type 0 where
  pub root : String
  pub repository_python : RepositoryPythonSelection
  pub mode : RunMode
  pub targets : List String
  pub checks : List CheckInvocation
  pub output_format : OutputFormat
  pub test_shortcut : Option String
  pub pytest_args : Option (List String)
  pub planned_test_scope : PlannedTestScope
  pub planned_coverage_scope : PlannedCoverageScope
  pub pyproject_sha256 : Option String

-- `raise PlanningFailure(code, message, hint=hint)`
abbrev pub failure : PlanningErrorCode → String → String → PlanningException
failure code message hint =
    planning_failure (record { code = code; message = message; hint = some hint })
