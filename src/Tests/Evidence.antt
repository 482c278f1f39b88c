-- ===== src/Tests/Evidence.antt =====
-- pytest_evidence.py and coverage_evidence.py on a session of two tests.
use pyrepo_check.Base.{
  ℕ, Bool, Outcome, returned, map, String, ◌≡◌, refl, ◌↔◌, inl, true, false, not, none, some, List,
  [], ◌∷◌, ◌++◌, ◌==◌, nat_eq, string_eq, bool_eq, length, All,
}
use pyrepo_check.Base.Int.{ℤ, pos}
use pyrepo_check.Config.Toml.{integer}
use pyrepo_check.Planning.{
  RunPlan, default, strict_aggregate, json, PlannedTestScope, PlannedCoverageScope, pytest,
}
use pyrepo_check.Pytest.{
  ValidatedPytestSession, ValidatedPhaseReport, Phase, setup, call, teardown, PhaseOutcome,
  NodeOutcome, unexpected, xfail, TestScope,
}
use pyrepo_check.Pytest.Node.{consolidate_node, consolidate_unfailed, has_terminal_phase}
use pyrepo_check.Pytest.Node.Laws.{IsClean, consolidate_node-IsClean}
use pyrepo_check.Pytest.Options.{
  takes_neutral_operand, is_separator, narrows, is_classified, is_option, takes_narrowing_operand,
  has_known_narrowing_argument, has_unclassified_option,
}
use pyrepo_check.Pytest.Evidence.{
  collection_issues, tally_nodes, tally_node, add_node, increment_count, build_evidence,
  count_total,
}
use pyrepo_check.Pytest.Evidence.Laws.{consolidated_nodes, build_evidence-consolidated_nodes}
use pyrepo_check.Pytest.Result.{
  is_complete, scope_reasons, has_known_narrowing, session_result, build_pytest_result,
}
use pyrepo_check.Pytest.Result.Whole.{IsWhole}
use pyrepo_check.Pytest.Result.Laws.{IsFinished, session_result-IsWhole, session_result-IsFinished}
use pyrepo_check.Pytest.Expected.{
  RawReport, normalize_expected_failures, normalize_report, group_failure, tell_one, marked_failure,
  is_strict_xpass_marker, replace_report,
}
use pyrepo_check.Pytest.Expected.Laws.{IsConsistent, normalize_expected_failures-IsConsistent}
use pyrepo_check.Pytest.Collection.{unique_nodeids, overlaps, same_set, validate_collection}
use pyrepo_check.Pytest.Collection.Laws.{Placed, validate_collection-Placed}
use pyrepo_check.Reporting.Pytest.{validate_pytest_primary_outcome}
use pyrepo_check.Reporting.Pytest.Laws.{session_result-validate_pytest_primary_outcome}
use pyrepo_check.Execution.{
  CoverageExecutionObservation, CoveragePreflightClassification, CoverageArtifactState,
}
use pyrepo_check.Coverage.Build.{build_coverage_result}
use pyrepo_check.Coverage.Decision.Built.{IsAccepted}
use pyrepo_check.Coverage.Decision.Planned.{build_coverage_result-plan_run-IsAccepted}
use pyrepo_check.Coverage.Result.{CoverageTotals, CoverageFile}
use pyrepo_check.Tests.Planning.{strict_plan, strict_request, config, facts, strict_run}
use pyrepo_check.Coverage.Gate.{
  coverage_gate_policy_for_context, gate_is_eligible, exited_with, coverage_gate_policy,
  coverage_threshold_is_configured, coverage_threshold_value,
}
use pyrepo_check.Coverage.Gate.Laws.{
  coverage_gate_policy-skipped_reason, coverage_gate_policy-IsFinished,
}

abbrev show : ℤ → String
show z = "?"

abbrev report : String → Phase → ValidatedPhaseReport
report nodeid when = record {
  nodeid = nodeid;
  when = when;
  outcome = PhaseOutcome.passed;
  duration = record { digits = 25; scale = 4 };
  longrepr = none;
  expected_failure = record {
    kind = unexpected;
    reason = none;
    strict = none;
    affects_exit = false;
  };
}

abbrev reports_of : String → List ValidatedPhaseReport
reports_of nodeid = report nodeid setup ∷ report nodeid call ∷ report nodeid teardown ∷ []

abbrev session : ValidatedPytestSession
session = record {
  pytest_version = "8.0.0";
  exit_code = pos 0;
  effective_args = "-q" ∷ "--tb" ∷ "short" ∷ [];
  semantic_options = record {
    collection_paths = [];
    keyword = "";
    markexpr = "";
    deselect = [];
    ignore = [];
    ignore_glob = [];
    lf = false;
    pyargs = false;
    collectonly = false;
    setuponly = false;
    setupplan = false;
  };
  collection = record {
    initial_nodeids = "a" ∷ "b" ∷ [];
    final_nodeids = "a" ∷ "b" ∷ [];
    deselected_nodeids = [];
    uncovered_removed_nodeids = [];
    errors = [];
    skips = [];
  };
  reports = reports_of "a" ++ reports_of "b";
  collection_completed = true;
  stopped_early = false;
}

abbrev plan : RunPlan
plan = record {
  root = "/repo";
  repository_python = default;
  mode = strict_aggregate;
  targets = [];
  checks =
      record {
        name = pytest;
        arguments = [];
        pytest = some (record {
          pytest_args = [];
          coverage =
              some
                (record { config_path = "pyproject.toml"; fail_under = some (integer (pos 90)) });
        });
        targets = [];
      }
      ∷ [];
  output_format = json;
  test_shortcut = none;
  pytest_args = some [];
  planned_test_scope = PlannedTestScope.complete;
  planned_coverage_scope = PlannedCoverageScope.complete;
  pyproject_sha256 = none;
}

consolidate_node_example :
    All IsClean (reports_of "a") × (has_terminal_phase (reports_of "a") false ≡ true)
unfolding consolidate_node consolidate_unfailed has_terminal_phase
consolidate_node_example =
    consolidate_node-IsClean (reports_of "a") false
      (record { outcome = NodeOutcome.passed; reason = none; strict = none; affects_exit = false })
      refl refl

build_evidence_example :
    (count_total (build_evidence session).0.counts ≡ length (consolidated_nodes session))
    × ((build_evidence session).1 ≡ consolidated_nodes session)
build_evidence_example = build_evidence-consolidated_nodes session

session_result-IsWhole_example :
    ((session_result show plan session).scope ≡ TestScope.complete)
    ↔ IsWhole plan session (session_result show plan session).complete
session_result-IsWhole_example = session_result-IsWhole show plan session

session_complete : (session_result show plan session).complete ≡ true
unfolding session_result is_complete build_evidence collection_issues tally_nodes tally_node
    add_node consolidate_node consolidate_unfailed has_terminal_phase count_total increment_count
session_complete = refl

session_result-IsFinished_example : IsFinished session
session_result-IsFinished_example = session_result-IsFinished show plan session session_complete

validate_collection_example : Placed "b" ("a" ∷ []) ("b" ∷ []) []
unfolding validate_collection unique_nodeids overlaps same_set
validate_collection_example =
    validate_collection-Placed ("a" ∷ "b" ∷ []) ("a" ∷ []) ("b" ∷ []) [] "b" refl refl

coverage_gate_policy-skipped_reason_example :
    (((coverage_gate_policy plan (session_result show plan session) true).skipped_reason ≡ none)
      ↔ ((coverage_gate_policy plan (session_result show plan session) true).gate_eligible ≡ true))
    × ((coverage_gate_policy plan (session_result show plan session) true).force_fail_under_zero
        ≡ not (coverage_gate_policy plan (session_result show plan session) true).gate_eligible)
unfolding coverage_threshold_is_configured coverage_threshold_value
coverage_gate_policy-skipped_reason_example =
    coverage_gate_policy-skipped_reason plan (session_result show plan session) true refl

eligible :
    (coverage_gate_policy plan (build_pytest_result show plan (inl session)) true).gate_eligible
    ≡ true
unfolding coverage_gate_policy coverage_gate_policy_for_context gate_is_eligible exited_with
    build_pytest_result session_result is_complete build_evidence collection_issues tally_nodes
    tally_node add_node consolidate_node consolidate_unfailed has_terminal_phase count_total
    increment_count scope_reasons has_known_narrowing has_unclassified_option
    has_known_narrowing_argument takes_neutral_operand is_separator narrows is_classified is_option
    takes_narrowing_operand
eligible = refl

coverage_gate_policy-IsFinished_example :
    (strict_aggregate ≡ strict_aggregate)
    × (plan.targets ≡ [])
    × (session.exit_code ≡ pos 0)
    × IsWhole plan session true
    × IsFinished session
coverage_gate_policy-IsFinished_example =
    coverage_gate_policy-IsFinished show plan session true eligible

abbrev raw_report : RawReport
raw_report = record {
  nodeid = "a";
  when = call;
  outcome = PhaseOutcome.skipped;
  duration = record { digits = 25; scale = 4 };
  present = true;
  wasxfail = some "known bug";
  longrepr = none;
}

abbrev told_report : ValidatedPhaseReport
told_report = record {
  nodeid = "a";
  when = call;
  outcome = PhaseOutcome.skipped;
  duration = record { digits = 25; scale = 4 };
  longrepr = none;
  expected_failure = record {
    kind = xfail;
    reason = some "known bug";
    strict = none;
    affects_exit = false;
  };
}

told : normalize_expected_failures (raw_report ∷ []) ≡ returned (told_report ∷ [])
unfolding normalize_expected_failures normalize_report group_failure tell_one marked_failure
    is_strict_xpass_marker replace_report
told = refl

normalize_expected_failures_example :
    All IsConsistent (told_report ∷ [])
    × (map (λ (o : ValidatedPhaseReport). o.nodeid) (told_report ∷ [])
        ≡ map (λ (r : RawReport). r.nodeid) (raw_report ∷ []))
normalize_expected_failures_example =
    normalize_expected_failures-IsConsistent (raw_report ∷ []) (told_report ∷ []) told

session_result-validate_pytest_primary_outcome_example :
    validate_pytest_primary_outcome (session_result show plan session) session.exit_code
    ≡ returned tt
session_result-validate_pytest_primary_outcome_example =
    session_result-validate_pytest_primary_outcome show plan session

abbrev observation : CoverageExecutionObservation
observation = record {
  preflight = record {
    classification = CoveragePreflightClassification.supported;
    preflight_record = some (record {
      python_version = (3, 13, 1);
      coverage_available = true;
      coverage_version = some "7.10.0";
    });
    diagnostic = none;
  };
  artifact = record {
    state = CoverageArtifactState.snapshot;
    content = some (123 ∷ 125 ∷ []);
    diagnostic = none;
  };
  json_exit_code = some (pos 2);
}

abbrev is_supported : String → Bool
is_supported version = version == "7.10.0"

abbrev is_stable : String → Bool
is_stable version = true

abbrev validate_json : List ℕ → String → Outcome String (CoverageTotals × List CoverageFile)
validate_json content version = returned (
  record {
    statements = record { covered = 0; missing = 0 };
    branches = record { covered = 0; missing = 0 };
  },
  [],
)

build_coverage_result-plan_run-IsAccepted_example : IsAccepted is_supported (
    build_coverage_result is_supported is_stable validate_json show strict_plan
      (session_result show strict_plan session)
      (some observation)
      none)
build_coverage_result-plan_run-IsAccepted_example =
    build_coverage_result-plan_run-IsAccepted is_supported is_stable validate_json show
      strict_request config facts (session_result show strict_plan session) (some observation) none
      strict_run
