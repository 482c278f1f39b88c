-- ===== src/Reporting/Status.antt =====
-- reporting.py: the result of each Check, whether a run is complete, its status and its exit code.
pub mod Laws
use pyrepo_check.Base.{
  ℕ, zero, suc, ◌+◌, ◌-◌, ◌*◌, ◌/◌, ◌%◌, ◌≤◌, ◌<◌, code, String, ◌<>◌, ◌≡◌, refl, sym, ap, ◌∙◌, ◌≢◌,
  ◌↔◌, ◌⊎◌, inl, inr, Bool, true, false, not, ◌&&◌, ◌||◌, Option, none, some, List, [], ◌∷◌, ◌++◌,
  map, arith, eq_iff, ltb, leb, if◌then◌else◌, Eq, ◌==◌, ◌!=◌, nat_eq, string_eq, bool_eq, is_none,
  is_some, or_else, Bool-cases, Option-cases, &&-eq-true, ||-false, ==_refl, ==_sym, length, take,
  drop, is_empty, all, any, keep, first, length-append, length-drop, is_empty-eq-true, All,
  length-map, All-of_keep-nil, All-map, contains, contains-keep, subset, distinct, lists_equal,
  Outcome, returned, raised, ◌>>=◌, ◌>>◌, require, refuse, >>=-eq-returned, refuse-eq-returned,
  refuse-returned, returned-injective, if_is_empty-returned, >>=-cong, Outcome-cases, traverse,
  starts_with,
}
use pyrepo_check.Base.Int.{ℤ, pos, int_eq}
use pyrepo_check.Planning.{CheckName, CheckInvocation, OutputFormat}
use pyrepo_check.Planning.Names.{name_eq, check_text}
use pyrepo_check.Execution.{
  ExecutedProcess, LockStatus, DependencyStatus, MutationProtection, EnvironmentFailureObservation,
  PythonObservation, CheckStartObservation, AnalysisPythonAuthorityObservation,
  RepositoryCheckObservation, RepositoryEnvironmentObservation, pytest_evidence_error,
}
use pyrepo_check.Pytest.{PytestResult, PytestStatus, PytestError, PytestErrorCode}
use pyrepo_check.Coverage.Result.{CoverageResult, CoverageStatus}
use pyrepo_check.Reporting.{ReportingError, ProcessResult}
use pyrepo_check.Reporting.Process.{process_evidence, successful_process}
use pyrepo_check.Reporting.Dependency.{
  CheckErrorV2, DependencyEvidence, check_error_evidence, dependency_evidence,
}
use pyrepo_check.Reporting.Matching.{Matched}

-- `CheckStatus` and `OverallStatus` have the same values.
pub data CheckStatus : Type 0 where
  passed failed error : CheckStatus

-- The evidence of a start and of the environment's Python have the fields of their observations.
pub record CheckResultV2 : Type 0 where
  pub name : CheckName
  pub status : CheckStatus
  pub execution_environment : Option String
  pub analysis_python_authority : Option AnalysisPythonAuthorityObservation
  pub start_evidence : Option CheckStartObservation
  pub processes : List ProcessResult
  pub error : Option CheckErrorV2

pub record RepositoryEnvironmentEvidence : Type 0 where
  pub manager_version : Option String
  pub path : Option String
  pub python : Option PythonObservation
  pub lock_path : String
  pub lock_status : LockStatus
  pub mutation_protection : MutationProtection
  pub dependencies : List DependencyEvidence
  pub processes : List ProcessResult
  pub error : Option EnvironmentFailureObservation

abbrev pytest_status : PytestStatus → CheckStatus
pytest_status PytestStatus.passed = passed
pytest_status PytestStatus.failed = failed
pytest_status PytestStatus.error = error

abbrev is_session_incomplete : PytestErrorCode → Bool
is_session_incomplete PytestErrorCode.session_incomplete = true
is_session_incomplete other = false

-- The error of a Check whose pytest result has one
abbrev nested_error : PytestStatus → Option PytestError → Option CheckErrorV2
nested_error PytestStatus.error (some nested) =
    if is_session_incomplete nested.code
    then none
    else some (record { code = pytest_evidence_error; message = nested.message; hint = none })
nested_error other nested = none

abbrev pub Judged : Type 0
Judged = CheckStatus × Option CheckErrorV2

abbrev pub is_primary : ExecutedProcess → Bool
is_primary process = process.role == "primary"

abbrev pub returned_zero : ExecutedProcess → Bool
returned_zero process = elim process.returncode [ none ↦ false | some code ↦ code == pos 0 ]

unfoldable pub judge_pytest : CheckInvocation → Option PytestResult → Outcome ReportingError Judged
judge_pytest planned none = raised (record { message = "selected pytest requires nested evidence" })
judge_pytest planned (some result) =
    returned (pytest_status result.status, nested_error result.status result.error)

unfoldable pub judge_primary :
    CheckInvocation → Option ExecutedProcess → Outcome ReportingError Judged
judge_primary planned none =
    raised (record {
      message = "selected Check " <> check_text planned.name <> " has no primary process";
    })
judge_primary planned (some process) =
    returned (if returned_zero process then passed else failed, none)

unfoldable pub judge_unfailed :
    CheckInvocation → List ExecutedProcess → Option PytestResult → Outcome ReportingError Judged
judge_unfailed planned processes pytest_result =
    if planned.name == CheckName.pytest
    then judge_pytest planned pytest_result
    else judge_primary planned (first is_primary processes)

-- `status` and `error` of `_build_check_result_v2`
unfoldable pub judge :
    CheckInvocation
    → List ExecutedProcess
    → Option PytestResult
    → Option CheckErrorV2
    → Outcome ReportingError Judged
judge planned processes pytest_result (some failure) = returned (error, some failure)
judge planned processes pytest_result none = judge_unfailed planned processes pytest_result

unfoldable pub observation_at : ℕ → Matched → Option RepositoryCheckObservation
observation_at index [] = none
observation_at index ((i, observation) ∷ rest) =
    let later = observation_at index rest in if i == index then some observation else later

-- The parameters are those of `process_evidence`.
module _ (decode : List ℕ → List ℕ) (resolve : String → String) (show : ℤ → String)
    (output_format : OutputFormat) where
  -- `_build_check_result_v2`
  unfoldable pub build_check_result_v2 :
      CheckInvocation
      → Option RepositoryCheckObservation
      → Option PytestResult
      → Outcome ReportingError CheckResultV2
  build_check_result_v2 planned none pytest_result = raised (record {
    message = "selected Check " <> check_text planned.name <> " has no execution observation";
  })
  build_check_result_v2 planned (some observation) pytest_result =
      judge planned observation.processes pytest_result (check_error_evidence observation.error)
      >>= λ (judged : Judged). returned (record {
        name = planned.name;
        status = judged.0;
        execution_environment = observation.execution_environment;
        analysis_python_authority = observation.analysis_python_authority;
        start_evidence = observation.start;
        processes = map (process_evidence decode resolve show output_format) observation.processes;
        error = judged.1;
      })

  -- `checks` of `build_run_report`, from an index on
  unfoldable pub build_check_results :
      ℕ
      → List CheckInvocation
      → Matched
      → Option PytestResult
      → Outcome ReportingError (List CheckResultV2)
  build_check_results index [] observations pytest_result = returned []
  build_check_results index (planned ∷ rest) observations pytest_result = do
    result ←
        build_check_result_v2 planned (observation_at index observations)
          (if planned.name == CheckName.pytest then pytest_result else none)
    results ← build_check_results (suc index) rest observations pytest_result
    returned (result ∷ results)

  -- `_repository_environment_evidence`; the selection of a Python is not carried along.
  unfoldable pub repository_environment_evidence :
      RepositoryEnvironmentObservation → RepositoryEnvironmentEvidence
  repository_environment_evidence observation = record {
    manager_version = observation.manager_version;
    path = observation.path;
    python = observation.python;
    lock_path = observation.lock_path;
    lock_status = observation.lock_status;
    mutation_protection = observation.mutation_protection;
    dependencies =
        map (dependency_evidence decode resolve show output_format) observation.dependencies;
    processes = map (process_evidence decode resolve show output_format) observation.processes;
    error = observation.error;
  }

abbrev pub is_current : LockStatus → Bool
is_current LockStatus.current = true
is_current other = false

abbrev pub is_available : DependencyStatus → Bool
is_available DependencyStatus.available = true
is_available other = false

abbrev pub is_error : CheckStatus → Bool
is_error error = true
is_error other = false

abbrev pub status_is_failed : CheckStatus → Bool
status_is_failed failed = true
status_is_failed other = false

abbrev process_succeeded : Option ProcessResult → Bool
process_succeeded none = false
process_succeeded (some process) = successful_process process

abbrev pub pytest_is_complete : Option PytestResult → Bool
pytest_is_complete none = true
pytest_is_complete (some result) = result.complete

abbrev pub coverage_is_complete : Option CoverageResult → Bool
coverage_is_complete none = true
coverage_is_complete (some result) = result.evidence_complete

-- `_run_complete_v2`
unfoldable pub run_complete_v2 :
    RepositoryEnvironmentEvidence
    → List CheckResultV2
    → Option PytestResult
    → Option CoverageResult
    → Bool
run_complete_v2 environment checks pytest_result coverage =
    is_none environment.error
    && is_current environment.lock_status
    && all (λ (d : DependencyEvidence). is_available d.status) environment.dependencies
    && all (λ (d : DependencyEvidence). process_succeeded d.process) environment.dependencies
    && all (λ (c : CheckResultV2). not (is_error c.status)) checks
    && pytest_is_complete pytest_result
    && coverage_is_complete coverage

abbrev pub pytest_failed : Option PytestResult → Bool
pytest_failed none = false
pytest_failed (some result) = elim result.status [
  | PytestStatus.passed ↦ false
  | PytestStatus.failed ↦ true
  | PytestStatus.error ↦ false
]

abbrev pub coverage_failed : Option CoverageResult → Bool
coverage_failed none = false
coverage_failed (some result) = elim result.status [ CoverageStatus.failed ↦ true | _ ↦ false ]

-- `overall_status` of `build_run_report`, which `_validate_run_report_v2` expects as well
unfoldable pub overall_status :
    RepositoryEnvironmentEvidence
    → List CheckResultV2
    → Option PytestResult
    → Option CoverageResult
    → CheckStatus
overall_status environment checks pytest_result coverage =
    if not (run_complete_v2 environment checks pytest_result coverage)
    then error
    else if any (λ (c : CheckResultV2). status_is_failed c.status) checks
        || pytest_failed pytest_result
        || coverage_failed coverage
    then failed
    else passed

-- `select_exit_code` of a run report that was validated
unfoldable pub select_exit_code : CheckStatus → ℕ
select_exit_code error = 2
select_exit_code failed = 1
select_exit_code passed = 0
