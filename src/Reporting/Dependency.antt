-- ===== src/Reporting/Dependency.antt =====
-- reporting.py: what is reported of one dependency, and what a report of it is checked for.
pub mod Laws
use pyrepo_check.Base.{
  ℕ, zero, suc, ◌+◌, ◌-◌, ◌*◌, ◌/◌, ◌%◌, ◌≤◌, ◌<◌, code, String, ◌<>◌, ◌≡◌, refl, sym, ap, ◌∙◌, ◌≢◌,
  ◌↔◌, ◌⊎◌, inl, inr, Bool, true, false, not, ◌&&◌, ◌||◌, Option, none, some, List, [], ◌∷◌, ◌++◌,
  map, arith, eq_iff, ltb, leb, if◌then◌else◌, Eq, ◌==◌, ◌!=◌, nat_eq, string_eq, bool_eq, is_none,
  is_some, or_else, Bool-cases, Option-cases, &&-eq-true, ||-false, ==_refl, ==_sym, length, take,
  drop, is_empty, all, any, keep, first, length-append, length-drop, is_empty-eq-true, All,
  length-map, All-of_keep-nil, All-map, contains, contains-keep, subset, distinct, lists_equal,
  Outcome, returned, raised, ◌>>=◌, ◌>>◌, require, refuse, >>=-eq-returned, refuse-eq-returned,
  refuse-returned, returned-injective, if_is_empty-returned, >>=-cong, Outcome-cases, traverse,
  starts_with,
}
use pyrepo_check.Base.Int.{ℤ}
use pyrepo_check.Planning.{OutputFormat}
use pyrepo_check.Execution.{
  ExecutedProcess, DependencyName, DependencyStatus, available, missing, incompatible, shadowed,
  unusable, unobserved, CheckExecutionErrorCode, CheckExecutionFailure, check_dependency_missing,
  check_dependency_incompatible, check_dependency_shadowed, check_dependency_unusable,
  DependencyObservation,
}
use pyrepo_check.Environment.Dependencies.{
  supported_dependencies, required_range, dependency_version_supported,
}
use pyrepo_check.Environment.Dependencies.Observation.{dependency_text}
use pyrepo_check.Reporting.{ReportingError, ProcessResult, invalid}
use pyrepo_check.Reporting.Process.{process_evidence, successful_process}

-- `CheckErrorV2` has the fields of `CheckExecutionFailure`, and the same codes.
pub record CheckErrorV2 : Type 0 where
  pub code : CheckExecutionErrorCode
  pub message : String
  pub hint : Option String

pub record DependencyEvidence : Type 0 where
  pub name : DependencyName
  pub module_name : String
  pub required : String
  pub status : DependencyStatus
  pub version : Option String
  pub origin : Option String
  pub process : Option ProcessResult
  pub error : Option CheckErrorV2

-- `_check_error_evidence`
unfoldable pub check_error_evidence : Option CheckExecutionFailure → Option CheckErrorV2
check_error_evidence none = none
check_error_evidence (some failure) =
    some (record { code = failure.code; message = failure.message; hint = failure.hint })

-- The parameters are those of `process_evidence`.
module _ (decode : List ℕ → List ℕ) (resolve : String → String) (show : ℤ → String)
    (output_format : OutputFormat) where
  abbrev optional_process : Option ExecutedProcess → Option ProcessResult
  optional_process none = none
  optional_process (some process) =
      some (process_evidence decode resolve show output_format process)

  -- `_dependency_evidence`
  unfoldable pub dependency_evidence : DependencyObservation → DependencyEvidence
  dependency_evidence observation = record {
    name = observation.name;
    module_name = observation.module_name;
    required = observation.required;
    status = observation.status;
    version = observation.version;
    origin = observation.origin;
    process = optional_process observation.process;
    error = check_error_evidence observation.error;
  }

abbrev code_beq : CheckExecutionErrorCode → CheckExecutionErrorCode → Bool
code_beq check_dependency_missing check_dependency_missing = true
code_beq check_dependency_incompatible check_dependency_incompatible = true
code_beq check_dependency_shadowed check_dependency_shadowed = true
code_beq check_dependency_unusable check_dependency_unusable = true
code_beq a b = false

-- The error is there and has the code of a dependency.
abbrev pub has_error_code : CheckExecutionErrorCode → Option CheckErrorV2 → Bool
has_error_code code none = false
has_error_code code (some error) = code_beq error.code code

abbrev pub succeeded : Option ProcessResult → Bool
succeeded none = false
succeeded (some process) = successful_process process

abbrev role_is_probe : Option ProcessResult → Bool
role_is_probe none = true
role_is_probe (some process) = process.role == "dependency_probe"

abbrev problem : String → ReportingError
problem message = record { message = "invalid report: " <> message }

-- The end of `_validate_dependency_evidence_v2`, for a status with its own error code
unfoldable pub validate_typed_status :
    DependencyEvidence → CheckExecutionErrorCode → Bool → String → Outcome ReportingError Unit
validate_typed_status dependency expected known message = do
  require (succeeded dependency.process)
      (problem "typed dependency status requires a successful probe")
  require (has_error_code expected dependency.error)
      (problem "dependency status contradicts its typed error")
  require known (problem message)

unfoldable pub validate_unobserved :
    Bool → Option ProcessResult → Option CheckErrorV2 → Outcome ReportingError Unit
validate_unobserved pre_execution_environment_error none error =
    require (is_none error && pre_execution_environment_error)
      (problem "not-attempted dependency requires a pre-execution environment error")
validate_unobserved pre_execution_environment_error (some process) error =
    require (has_error_code check_dependency_unusable error)
      (problem "attempted unobserved dependency requires unusable evidence error")

-- The branches on the status
unfoldable pub validate_status :
    Bool → DependencyEvidence → DependencyStatus → Outcome ReportingError Unit
validate_status pre_execution_environment_error dependency available =
    require
      (is_some dependency.version
        && is_some dependency.origin
        && succeeded dependency.process
        && is_none dependency.error
        && dependency_version_supported (supported_dependencies dependency.name) dependency.version)
      (problem "available dependency evidence is incomplete")
validate_status pre_execution_environment_error dependency unobserved = do
  require (is_none dependency.version && is_none dependency.origin)
      (problem "unobserved dependency cannot claim version or origin")
  validate_unobserved pre_execution_environment_error dependency.process dependency.error
validate_status pre_execution_environment_error dependency missing =
    validate_typed_status dependency check_dependency_missing true ""
validate_status pre_execution_environment_error dependency incompatible =
    validate_typed_status dependency check_dependency_incompatible (is_some dependency.version)
      "incompatible dependency requires a known version"
validate_status pre_execution_environment_error dependency shadowed =
    validate_typed_status dependency check_dependency_shadowed (is_some dependency.origin)
      "shadowed dependency requires a conflicting origin"
validate_status pre_execution_environment_error dependency unusable =
    validate_typed_status dependency check_dependency_unusable true ""

-- `_validate_dependency_evidence_v2`
unfoldable pub validate_dependency_evidence_v2 :
    Bool → DependencyEvidence → Outcome ReportingError Unit
validate_dependency_evidence_v2 pre_execution_environment_error dependency = do
  require (dependency.module_name == dependency_text dependency.name)
      (problem "dependency module must match dependency name")
  require (dependency.required == required_range (supported_dependencies dependency.name))
      (problem "dependency required range does not match the supported contract")
  require (role_is_probe dependency.process)
      (problem "dependency process role must be dependency_probe")
  validate_status pre_execution_environment_error dependency dependency.status
