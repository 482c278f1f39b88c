-- ===== src/Reporting/Status/Laws.antt =====
use pyrepo_check.Base.{
  ℕ, suc, String, ◌≡◌, refl, ap, ◌∙◌, inl, inr, Bool, true, false, not, Option, none, some, List,
  [], ◌∷◌, arith, if◌then◌else◌, ◌==◌, nat_eq, string_eq, bool_eq, is_none, Bool-cases, all, any,
  first, returned, >>=-eq-returned, returned-injective,
}
use pyrepo_check.Base.Int.{ℤ}
use pyrepo_check.Planning.{CheckName, CheckInvocation, OutputFormat}
use pyrepo_check.Planning.Names.{name_eq}
use pyrepo_check.Execution.{ExecutedProcess, CheckExecutionFailure, RepositoryCheckObservation}
use pyrepo_check.Pytest.{PytestResult, PytestStatus}
use pyrepo_check.Coverage.Result.{CoverageResult}
use pyrepo_check.Reporting.Dependency.{DependencyEvidence, check_error_evidence}
use pyrepo_check.Reporting.Matching.{Matched}
use pyrepo_check.Reporting.Status.{
  CheckStatus, passed, failed, error, CheckResultV2, RepositoryEnvironmentEvidence, Judged,
  is_primary, returned_zero, judge_pytest, judge_primary, judge_unfailed, judge, observation_at,
  build_check_result_v2, build_check_results, is_current, is_available, is_error, status_is_failed,
  pytest_is_complete, coverage_is_complete, run_complete_v2, overall_status, select_exit_code,
  coverage_failed,
}

-- Why a Check that has no error counts as passed.
abbrev pub IsPassed : CheckInvocation → List ExecutedProcess → Option PytestResult → Type 0
IsPassed planned processes pytest_result =
    ((planned.name == CheckName.pytest) ≡ true
      → (result : PytestResult) × (pytest_result ≡ some result)
        × (result.status ≡ PytestStatus.passed))
    × ((planned.name == CheckName.pytest) ≡ false
        → (process : ExecutedProcess) × (first is_primary processes ≡ some process)
          × (returned_zero process ≡ true))

-- The observation of a planned Check is there, has no error and is passed.
abbrev pub IsGood :
    CheckInvocation → Option RepositoryCheckObservation → Option PytestResult → Type 0
IsGood planned none pytest_result = ⊥
IsGood planned (some observation) pytest_result =
    (observation.error ≡ none) × IsPassed planned observation.processes pytest_result

abbrev pub AllGood : ℕ → List CheckInvocation → Matched → Option PytestResult → Type 0
AllGood index [] observations pytest_result = Unit
AllGood index (planned ∷ rest) observations pytest_result =
    IsGood planned (observation_at index observations) pytest_result
    × AllGood (suc index) rest observations pytest_result

judge_pytest-passed :
    (planned : CheckInvocation) (pytest_result : Option PytestResult) (judged : Judged)
    → judge_pytest planned pytest_result ≡ returned judged
    → judged.0 ≡ passed
    → (result : PytestResult) × (pytest_result ≡ some result)
      × (result.status ≡ PytestStatus.passed)
unfolding judge_pytest
judge_pytest-passed planned none judged h p = cc
judge_pytest-passed planned (some result) judged h p = (result, refl, ground (arith, h, p))

judge_primary-passed :
    (planned : CheckInvocation) (primary : Option ExecutedProcess) (judged : Judged)
    → judge_primary planned primary ≡ returned judged
    → judged.0 ≡ passed
    → (process : ExecutedProcess) × (primary ≡ some process) × (returned_zero process ≡ true)
unfolding judge_primary
judge_primary-passed planned none judged h p = cc
judge_primary-passed planned (some process) judged h p = (
  process,
  refl,
  zero (returned_zero process) (ap (λ (j : Judged). j.0) (returned-injective h) ∙ p),
)
  where
    zero : (test : Bool) → (if test then passed else failed) ≡ passed → test ≡ true
    zero true e = refl
    zero false e = cc

judge_unfailed-IsPassed :
    (planned : CheckInvocation) (processes : List ExecutedProcess)
    (pytest_result : Option PytestResult) (judged : Judged)
    → judge_unfailed planned processes
        (if planned.name == CheckName.pytest then pytest_result else none)
      ≡ returned judged
    → judged.0 ≡ passed
    → IsPassed planned processes pytest_result
unfolding judge_unfailed
judge_unfailed-IsPassed planned processes pytest_result judged h p = (
  λ is_pytest. judge_pytest-passed planned pytest_result judged (rw is_pytest at h) p,
  λ other. judge_primary-passed planned (first is_primary processes) judged (rw other at h) p,
)

judge-IsPassed :
    (planned : CheckInvocation) (processes : List ExecutedProcess)
    (pytest_result : Option PytestResult) (failure : Option CheckExecutionFailure) (judged : Judged)
    → judge planned processes
        (if planned.name == CheckName.pytest then pytest_result else none)
        (check_error_evidence failure)
      ≡ returned judged
    → judged.0 ≡ passed
    → (failure ≡ none) × IsPassed planned processes pytest_result
unfolding judge check_error_evidence
judge-IsPassed planned processes pytest_result (some failure) judged h p = cc
judge-IsPassed planned processes pytest_result none judged h p =
    (refl, judge_unfailed-IsPassed planned processes pytest_result judged h p)

passed_if :
    (status : CheckStatus)
    → is_error status ≡ false
    → status_is_failed status ≡ false
    → status ≡ passed
passed_if passed e f = refl
passed_if failed e f = cc
passed_if error e f = cc

module _ (decode : List ℕ → List ℕ) (resolve : String → String) (show : ℤ → String)
    (output_format : OutputFormat) where
  result-IsGood :
      (planned : CheckInvocation) (observation : Option RepositoryCheckObservation)
      (pytest_result : Option PytestResult) (result : CheckResultV2)
      → build_check_result_v2 decode resolve show output_format planned observation
          (if planned.name == CheckName.pytest then pytest_result else none)
        ≡ returned result
      → result.status ≡ passed
      → IsGood planned observation pytest_result
  unfolding build_check_result_v2
  result-IsGood planned none pytest_result result h p = cc
  result-IsGood planned (some observation) pytest_result result h p =
      let (judged, j, r) = >>=-eq-returned _ _ h in
      judge-IsPassed planned observation.processes pytest_result observation.error judged j
        (ap (λ (c : CheckResultV2). c.status) (returned-injective r) ∙ p)

  results-AllGood :
      (index : ℕ) (planned : List CheckInvocation) (observations : Matched)
      (pytest_result : Option PytestResult) (results : List CheckResultV2)
      → build_check_results decode resolve show output_format index planned observations
          pytest_result
        ≡ returned results
      → all (λ (c : CheckResultV2). not (is_error c.status)) results ≡ true
      → any (λ (c : CheckResultV2). status_is_failed c.status) results ≡ false
      → AllGood index planned observations pytest_result
  unfolding build_check_results
  results-AllGood index [] observations pytest_result results h e f = tt
  results-AllGood index (check ∷ planned) observations pytest_result results h e f =
      let (result, b, k) = >>=-eq-returned _ _ h in
      let (later, bs, r) = >>=-eq-returned _ _ k in
      let same : result ∷ later ≡ results = returned-injective r in
      let unfailed : any (λ (c : CheckResultV2). status_is_failed c.status) (result ∷ later)
          ≡ false =
        ap (any (λ (c : CheckResultV2). status_is_failed c.status)) same ∙ f in
      let sound : all (λ (c : CheckResultV2). not (is_error c.status)) (result ∷ later) ≡ true =
        ap (all (λ (c : CheckResultV2). not (is_error c.status))) same ∙ e in
      (
        result-IsGood check (observation_at index observations) pytest_result result b
            (passed_if result.status (ground (arith, sound)) (ground (arith, unfailed))),
        results-AllGood (suc index) planned observations pytest_result later bs
            (ground (arith, sound)) (ground (arith, unfailed)),
      )

-- What a run that exits with 0 says beside its Checks.
pub record IsClean (environment : RepositoryEnvironmentEvidence)
    (pytest_result : Option PytestResult) (coverage : Option CoverageResult) : Type 0 where
  pub no_error : is_none environment.error ≡ true
  pub locked : is_current environment.lock_status ≡ true
  pub available :
      all (λ (d : DependencyEvidence). is_available d.status) environment.dependencies ≡ true
  pub tested : pytest_is_complete pytest_result ≡ true
  pub measured : coverage_is_complete coverage ≡ true
  pub over_threshold : coverage_failed coverage ≡ false

module _ (environment : RepositoryEnvironmentEvidence) (results : List CheckResultV2)
    (pytest_result : Option PytestResult) (coverage : Option CoverageResult) where
  abbrev none_failed : Bool
  none_failed = any (λ (c : CheckResultV2). status_is_failed c.status) results

  abbrev none_error : Bool
  none_error = all (λ (c : CheckResultV2). not (is_error c.status)) results

  exit_zero :
      select_exit_code (overall_status environment results pytest_result coverage) ≡ 0
      → (run_complete_v2 environment results pytest_result coverage ≡ true)
        × (none_failed ≡ false)
        × (coverage_failed coverage ≡ false)
  unfolding overall_status select_exit_code
  exit_zero h = elim (Bool-cases (run_complete_v2 environment results pytest_result coverage)) [
    | inl complete ↦ elim (Bool-cases none_failed) [
      | inl bad ↦ ground (arith, h, complete, bad)
      | inr good ↦ elim (Bool-cases (coverage_failed coverage)) [
        | inl low ↦ ground (arith, h, complete, good, low)
        | inr high ↦ (complete, good, high)
      ]
    ]
    | inr incomplete ↦ ground (arith, h, incomplete)
  ]

  complete-IsClean :
      run_complete_v2 environment results pytest_result coverage ≡ true
      → coverage_failed coverage ≡ false
      → IsClean environment pytest_result coverage × (none_error ≡ true)
  unfolding run_complete_v2
  complete-IsClean h low = (
    record {
      no_error = ground (arith, h);
      locked = ground (arith, h);
      available = ground (arith, h);
      tested = ground (arith, h);
      measured = ground (arith, h);
      over_threshold = low;
    },
    ground (arith, h),
  )

-- A report whose exit code is 0 has a current lock, no error of the environment, every dependency
-- available, complete pytest and coverage evidence and no failed threshold; and every planned Check was
-- observed without an error, pytest with a passed session and any other with a primary process that
-- returned 0.
pub select_exit_code-AllGood :
    (decode : List ℕ → List ℕ) (resolve : String → String) (show : ℤ → String)
    (output_format : OutputFormat) (environment : RepositoryEnvironmentEvidence)
    (planned : List CheckInvocation) (observations : Matched) (results : List CheckResultV2)
    (pytest_result : Option PytestResult) (coverage : Option CoverageResult)
    → build_check_results decode resolve show output_format 0 planned observations pytest_result
      ≡ returned results
    → select_exit_code (overall_status environment results pytest_result coverage) ≡ 0
    → IsClean environment pytest_result coverage × AllGood 0 planned observations pytest_result
select_exit_code-AllGood decode resolve show output_format environment planned observations results
      pytest_result coverage built h =
    let (complete, unfailed, low) = exit_zero environment results pytest_result coverage h in
    let (clean, sound) = complete-IsClean environment results pytest_result coverage complete low in
    (
      clean,
      results-AllGood decode resolve show output_format 0 planned observations pytest_result results
          built sound unfailed,
    )
