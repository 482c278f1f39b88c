-- ===== src/Pytest/Result.antt =====
-- pytest_evidence.py: the result reported of a session, and of an execution that is not trusted.
pub mod Laws
pub mod Whole
use pyrepo_check.Base.{
  ℕ, zero, suc, ◌+◌, ◌-◌, ◌*◌, ◌/◌, ◌%◌, ◌≤◌, ◌<◌, code, String, ◌<>◌, ◌≡◌, refl, sym, ap, ◌∙◌, ◌≢◌,
  ◌↔◌, ◌⊎◌, inl, inr, Bool, true, false, not, ◌&&◌, ◌||◌, Option, none, some, List, [], ◌∷◌, ◌++◌,
  map, arith, eq_iff, ltb, leb, if◌then◌else◌, Eq, ◌==◌, ◌!=◌, nat_eq, string_eq, bool_eq, is_none,
  is_some, or_else, Bool-cases, Option-cases, &&-eq-true, ||-false, ==_refl, ==_sym, length, take,
  drop, is_empty, all, any, keep, first, length-append, length-drop, is_empty-eq-true, All,
  length-map, All-of_keep-nil, All-map, contains, contains-keep, subset, distinct, lists_equal,
  Outcome, returned, raised, ◌>>=◌, ◌>>◌, require, refuse, >>=-eq-returned, refuse-eq-returned,
  refuse-returned, returned-injective, if_is_empty-returned, >>=-cong, Outcome-cases, traverse,
  starts_with,
}
use pyrepo_check.Base.Int.{ℤ, pos, int_eq}
use pyrepo_check.Planning.{RunPlan, PlannedTestScope}
use pyrepo_check.Pytest.{
  PytestErrorCode, PytestStatus, TestScope, TestScopeReason, PytestEvidence, PytestError,
  PytestResult, ValidatedPhaseReport, ValidatedPytestSession, PytestValidationFailure, teardown,
  session_incomplete, interrupted, internal_error, usage_error, unknown_exit_code, planned_selector,
  effective_narrowing_option, unclassified_external_option, deselected_tests, collection_reduced,
  incomplete_session, Phase,
}
use pyrepo_check.Pytest.Options.{has_known_narrowing_argument, has_unclassified_option}
use pyrepo_check.Pytest.Evidence.{build_evidence, count_total}

abbrev is_partial : PlannedTestScope → Bool
is_partial PlannedTestScope.partial = true
is_partial PlannedTestScope.complete = false
is_partial PlannedTestScope.not_selected = false

abbrev is_teardown : Phase → Bool
is_teardown Phase.teardown = true
is_teardown Phase.setup = false
is_teardown Phase.call = false

-- `_has_known_narrowing`
unfoldable pub has_known_narrowing : ValidatedPytestSession → Bool
has_known_narrowing session =
    let options = session.semantic_options in
    not (is_empty options.collection_paths)
    || options.keyword != ""
    || options.markexpr != ""
    || not (is_empty options.deselect)
    || not (is_empty options.ignore)
    || not (is_empty options.ignore_glob)
    || options.lf
    || options.pyargs
    || options.collectonly
    || options.setuponly
    || options.setupplan
    || has_known_narrowing_argument session.effective_args

abbrev when : Bool → TestScopeReason → List TestScopeReason → List TestScopeReason
when test reason reasons = if test then reason ∷ reasons else reasons

-- `_scope_reasons`
unfoldable pub scope_reasons :
    RunPlan → ValidatedPytestSession → PytestEvidence → Bool → List TestScopeReason
scope_reasons plan session evidence complete =
    when (is_partial plan.planned_test_scope) planned_selector (
      when (has_known_narrowing session) effective_narrowing_option (
        when (has_unclassified_option session.effective_args) unclassified_external_option (
          when (ltb 0 evidence.deselected) deselected_tests (
            when (not (is_empty session.collection.uncovered_removed_nodeids)) collection_reduced
              (when (not complete) incomplete_session [])))))

abbrev errors_with : PytestErrorCode → String → PytestStatus × Option PytestError
errors_with code message = (PytestStatus.error, some (record { code = code; message = message }))

-- The nodes whose teardown was reported
abbrev pub final_phase_nodeids : List ValidatedPhaseReport → List String
final_phase_nodeids reports =
    map (λ (r : ValidatedPhaseReport). r.nodeid)
      (keep (λ (r : ValidatedPhaseReport). is_teardown r.when) reports)

-- `complete` of `build_pytest_result`
unfoldable pub is_complete : ValidatedPytestSession → PytestEvidence → List String → Bool
is_complete session evidence terminal_nodeids =
    session.collection_completed
    && is_empty evidence.collection_errors
    && not session.stopped_early
    && subset session.collection.final_nodeids terminal_nodeids
    && subset session.collection.final_nodeids (final_phase_nodeids session.reports)
    && count_total evidence.counts == evidence.collected
    && (session.exit_code == pos 0 || session.exit_code == pos 1 || session.exit_code == pos 5)
    && (session.exit_code != pos 5 || evidence.collected == 0)

module _ (show : ℤ → String) where
  -- `_exit_result`, with `show` for the formatting of the code in its last message
  unfoldable pub exit_result : ℤ → Bool → Bool → PytestStatus × Option PytestError
  exit_result exit_code complete stopped_early =
      if exit_code == pos 0
      then (PytestStatus.passed, none)
      else if exit_code == pos 1
      then if not complete && stopped_early
        then (
          PytestStatus.failed,
          some (record {
            code = session_incomplete;
            message = "pytest session stopped before all selected tests completed";
          }),
        )
        else (PytestStatus.failed, none)
      else if exit_code == pos 2
      then errors_with interrupted "pytest execution was interrupted"
      else if exit_code == pos 3
      then errors_with internal_error "pytest encountered an internal error"
      else if exit_code == pos 4
      then errors_with usage_error "pytest reported a usage error"
      else if exit_code == pos 5
      then (PytestStatus.failed, none)
      else errors_with unknown_exit_code ("pytest exited with unknown code " <> show exit_code)

  -- `build_pytest_result` of a validated session
  unfoldable pub session_result : RunPlan → ValidatedPytestSession → PytestResult
  session_result plan session =
      let evidence = (build_evidence session).0 in
      let complete = is_complete session evidence (build_evidence session).1 in
      let outcome = exit_result session.exit_code complete session.stopped_early in
      let reasons = scope_reasons plan session evidence complete in
      record {
        status = outcome.0;
        complete = complete;
        scope = if is_empty reasons then TestScope.complete else TestScope.partial;
        scope_reasons = reasons;
        pytest_version = some session.pytest_version;
        exit_code = some session.exit_code;
        evidence = some evidence;
        error = outcome.1;
      }

  -- `_result_from_validation_failure`
  unfoldable pub result_from_validation_failure : RunPlan → PytestValidationFailure → PytestResult
  result_from_validation_failure plan failure = record {
    status = PytestStatus.error;
    complete = false;
    scope = TestScope.partial;
    scope_reasons =
        when (is_partial plan.planned_test_scope) planned_selector (incomplete_session ∷ []);
    pytest_version = failure.pytest_version;
    exit_code = failure.exit_code;
    evidence = none;
    error = some (record { code = failure.code; message = failure.message });
  }

  -- `build_pytest_result`, from what `validate_pytest_execution` returned
  unfoldable pub build_pytest_result :
      RunPlan → ValidatedPytestSession ⊎ PytestValidationFailure → PytestResult
  build_pytest_result plan (inl session) = session_result plan session
  build_pytest_result plan (inr failure) = result_from_validation_failure plan failure
