-- ===== src/Pytest/Node.antt =====
-- pytest_evidence.py: the one outcome that the phases of a test amount to.
pub mod Laws
use pyrepo_check.Base.{
  ℕ, zero, suc, ◌+◌, ◌-◌, ◌*◌, ◌/◌, ◌%◌, ◌≤◌, ◌<◌, code, String, ◌<>◌, ◌≡◌, refl, sym, ap, ◌∙◌, ◌≢◌,
  ◌↔◌, ◌⊎◌, inl, inr, Bool, true, false, not, ◌&&◌, ◌||◌, Option, none, some, List, [], ◌∷◌, ◌++◌,
  map, arith, eq_iff, ltb, leb, if◌then◌else◌, Eq, ◌==◌, ◌!=◌, nat_eq, string_eq, bool_eq, is_none,
  is_some, or_else, Bool-cases, Option-cases, &&-eq-true, ||-false, ==_refl, ==_sym, length, take,
  drop, is_empty, all, any, keep, first, length-append, length-drop, is_empty-eq-true, All,
  length-map, All-of_keep-nil, All-map, contains, contains-keep, subset, distinct, lists_equal,
  Outcome, returned, raised, ◌>>=◌, ◌>>◌, require, refuse, >>=-eq-returned, refuse-eq-returned,
  refuse-returned, returned-injective, if_is_empty-returned, >>=-cong, Outcome-cases, traverse,
  starts_with,
}
use pyrepo_check.Pytest.{
  ExpectedFailureKind, unexpected, xfail, xpass_non_strict, xpass_strict, NodeOutcome, Phase, setup,
  call, teardown, PhaseOutcome, ValidatedPhaseReport,
}

abbrev pub is_call : Phase → Bool
is_call call = true
is_call setup = false
is_call teardown = false

abbrev is_setup : Phase → Bool
is_setup setup = true
is_setup call = false
is_setup teardown = false

abbrev is_teardown : Phase → Bool
is_teardown teardown = true
is_teardown setup = false
is_teardown call = false

abbrev pub has_passed : PhaseOutcome → Bool
has_passed PhaseOutcome.passed = true
has_passed PhaseOutcome.failed = false
has_passed PhaseOutcome.skipped = false

abbrev pub has_failed : PhaseOutcome → Bool
has_failed PhaseOutcome.failed = true
has_failed PhaseOutcome.passed = false
has_failed PhaseOutcome.skipped = false

abbrev pub has_skipped : PhaseOutcome → Bool
has_skipped PhaseOutcome.skipped = true
has_skipped PhaseOutcome.passed = false
has_skipped PhaseOutcome.failed = false

abbrev pub is_xfail : ExpectedFailureKind → Bool
is_xfail xfail = true
is_xfail _ = false

abbrev pub is_xpass_strict : ExpectedFailureKind → Bool
is_xpass_strict xpass_strict = true
is_xpass_strict _ = false

abbrev pub is_xpass_non_strict : ExpectedFailureKind → Bool
is_xpass_non_strict xpass_non_strict = true
is_xpass_non_strict _ = false

abbrev pub setup_or_teardown_failed : ValidatedPhaseReport → Bool
setup_or_teardown_failed r = (is_setup r.when || is_teardown r.when) && has_failed r.outcome

abbrev pub call_failed : ValidatedPhaseReport → Bool
call_failed r = is_call r.when && has_failed r.outcome

-- What `_has_terminal_phase` asks of a report
abbrev pub is_terminal : Bool → ValidatedPhaseReport → Bool
is_terminal setup_only r =
    is_call r.when
    || (is_setup r.when && not (has_passed r.outcome))
    || (is_teardown r.when && (not (has_passed r.outcome) || setup_only))

-- `_has_terminal_phase`
unfoldable pub has_terminal_phase : List ValidatedPhaseReport → Bool → Bool
has_terminal_phase reports setup_only = any (is_terminal setup_only) reports

-- The tuple that `_consolidate_node` returns
pub record Consolidated : Type 0 where
  pub outcome : NodeOutcome
  pub reason : Option String
  pub strict : Option Bool
  pub affects_exit : Bool

abbrev plain : NodeOutcome → Option Consolidated
plain outcome =
    some (record { outcome = outcome; reason = none; strict = none; affects_exit = false })

-- The tests of `_consolidate_node` after that of the failed call phases
unfoldable pub consolidate_unfailed : List ValidatedPhaseReport → Bool → Option Consolidated
consolidate_unfailed reports setup_only =
    elim (first (λ r. is_xfail r.expected_failure.kind) reports) [
      | some r ↦ some (record {
        outcome = NodeOutcome.xfailed;
        reason = r.expected_failure.reason;
        strict = none;
        affects_exit = false;
      })
      | none ↦ elim (first (λ r. is_xpass_non_strict r.expected_failure.kind) reports) [
        | some r ↦ some (record {
          outcome = NodeOutcome.xpassed;
          reason = r.expected_failure.reason;
          strict = some false;
          affects_exit = false;
        })
        | none ↦
            if any (λ r. has_skipped r.outcome) reports
            then plain NodeOutcome.skipped
            else if has_terminal_phase reports setup_only
            then plain NodeOutcome.passed
            else none
      ]
    ]

-- `_consolidate_node`
unfoldable pub consolidate_node : List ValidatedPhaseReport → Bool → Option Consolidated
consolidate_node reports setup_only =
    if is_empty reports
    then none
    else if any setup_or_teardown_failed reports
    then plain NodeOutcome.errors
    else elim (first (λ r. is_xpass_strict r.expected_failure.kind) reports) [
      | some r ↦ some (record {
        outcome = NodeOutcome.xpassed;
        reason = r.expected_failure.reason;
        strict = some true;
        affects_exit = true;
      })
      | none ↦
          if any call_failed reports
          then plain NodeOutcome.failed
          else consolidate_unfailed reports setup_only
    ]
