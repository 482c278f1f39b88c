-- ===== src/Coverage/Gate.antt =====
-- coverage_evidence.py: `coverage_gate_policy` and the functions it calls.
pub mod Laws
use pyrepo_check.Base.{
  ℕ, zero, suc, ◌+◌, ◌-◌, ◌*◌, ◌/◌, ◌%◌, ◌≤◌, ◌<◌, code, String, ◌<>◌, ◌≡◌, refl, sym, ap, ◌∙◌, ◌≢◌,
  ◌↔◌, ◌⊎◌, inl, inr, Bool, true, false, not, ◌&&◌, ◌||◌, Option, none, some, List, [], ◌∷◌, ◌++◌,
  map, arith, eq_iff, ltb, leb, if◌then◌else◌, Eq, ◌==◌, ◌!=◌, nat_eq, string_eq, bool_eq, is_none,
  is_some, or_else, Bool-cases, Option-cases, &&-eq-true, ||-false, ==_refl, ==_sym, length, take,
  drop, is_empty, all, any, keep, first, length-append, length-drop, is_empty-eq-true, All,
  length-map, All-of_keep-nil, All-map, contains, contains-keep, subset, distinct, lists_equal,
  Outcome, returned, raised, ◌>>=◌, ◌>>◌, require, refuse, >>=-eq-returned, refuse-eq-returned,
  refuse-returned, returned-injective, if_is_empty-returned, >>=-cong, Outcome-cases, traverse,
  starts_with,
}
use pyrepo_check.Base.Int.{pos, int_eq}
use pyrepo_check.Config.Toml.{Number}
use pyrepo_check.Planning.{RunMode, strict_aggregate, focused, RunPlan, CheckInvocation}
use pyrepo_check.Pytest.{PytestResult, TestScope}

pub data CoverageThresholdSkipReason : Type 0 where
  evidence_error not_configured no_tests_collected : CoverageThresholdSkipReason
  pytest_incomplete pytest_failed partial_run focused_run : CoverageThresholdSkipReason

pub record CoverageGatePolicy : Type 0 where
  pub gate_eligible : Bool
  pub skipped_reason : Option CoverageThresholdSkipReason
  pub force_fail_under_zero : Bool

abbrev pub is_strict_aggregate : RunMode → Bool
is_strict_aggregate strict_aggregate = true
is_strict_aggregate focused = false

abbrev pub is_whole_scope : TestScope → Bool
is_whole_scope TestScope.complete = true
is_whole_scope TestScope.partial = false

-- `result.exit_code == n`
unfoldable pub exited_with : ℕ → PytestResult → Bool
exited_with n result = elim result.exit_code [ none ↦ false | some c ↦ c == pos n ]

-- What the functions are given beside the result
pub record Context : Type 0 where
  pub mode : RunMode
  pub targets : List String
  pub test_shortcut : Option String
  pub evidence_complete : Bool
  pub configured : Bool

-- `_gate_is_eligible_from_context`
unfoldable pub gate_is_eligible : Context → PytestResult → Bool
gate_is_eligible context result =
    context.evidence_complete
    && is_some result.evidence
    && exited_with 0 result
    && result.complete
    && is_whole_scope result.scope
    && is_empty result.scope_reasons
    && is_empty context.targets
    && is_none context.test_shortcut
    && is_strict_aggregate context.mode

-- `_threshold_skipped_reason_from_context`
unfoldable pub threshold_skipped_reason :
    Context → PytestResult → Option CoverageThresholdSkipReason
threshold_skipped_reason context result =
    if not context.evidence_complete || is_none result.evidence
    then some evidence_error
    else if not context.configured
    then some not_configured
    else if exited_with 5 result
    then some no_tests_collected
    else if not result.complete
    then some pytest_incomplete
    else if not (exited_with 0 result)
    then some pytest_failed
    else if not (is_whole_scope result.scope)
        || not (is_empty result.scope_reasons)
        || not (is_empty context.targets)
        || is_some context.test_shortcut
    then some partial_run
    else if not (is_strict_aggregate context.mode)
    then some focused_run
    else none

-- `coverage_gate_policy_for_context`
unfoldable pub coverage_gate_policy_for_context : Context → PytestResult → CoverageGatePolicy
coverage_gate_policy_for_context context result =
    let eligible = gate_is_eligible context result in
    record {
      gate_eligible = eligible;
      skipped_reason = threshold_skipped_reason context result;
      force_fail_under_zero = not eligible;
    }

abbrev fail_under_of : CheckInvocation → Option Number
fail_under_of check = elim check.pytest [
  | none ↦ none
  | some execution ↦ elim execution.coverage [ none ↦ none | some plan ↦ plan.fail_under ]
]

abbrev first_fail_under : List CheckInvocation → Option Number
first_fail_under [] = none
first_fail_under (check ∷ checks) = elim (fail_under_of check) [
  | some value ↦ some value
  | none ↦ first_fail_under checks
]

-- `_coverage_threshold_value`
unfoldable pub coverage_threshold_value : RunPlan → Option Number
coverage_threshold_value plan = first_fail_under plan.checks

-- `_coverage_threshold_is_configured`
unfoldable pub coverage_threshold_is_configured : RunPlan → Bool
coverage_threshold_is_configured plan = is_some (coverage_threshold_value plan)

abbrev pub context_of : RunPlan → Bool → Context
context_of plan evidence_complete = record {
  mode = plan.mode;
  targets = plan.targets;
  test_shortcut = plan.test_shortcut;
  evidence_complete = evidence_complete;
  configured = coverage_threshold_is_configured plan;
}

-- `coverage_gate_policy`
unfoldable pub coverage_gate_policy : RunPlan → PytestResult → Bool → CoverageGatePolicy
coverage_gate_policy plan result evidence_complete =
    coverage_gate_policy_for_context (context_of plan evidence_complete) result
