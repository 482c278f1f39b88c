-- ===== src/Pytest/Expected.antt =====
-- pytest_evidence.py: `_normalize_expected_failures`, which tells the expected failures of each test.
pub mod Laws
use pyrepo_check.Base.{
  ℕ, zero, suc, ◌+◌, ◌-◌, ◌*◌, ◌/◌, ◌%◌, ◌≤◌, ◌<◌, code, String, ◌<>◌, ◌≡◌, refl, sym, ap, ◌∙◌, ◌≢◌,
  ◌↔◌, ◌⊎◌, inl, inr, Bool, true, false, not, ◌&&◌, ◌||◌, Option, none, some, List, [], ◌∷◌, ◌++◌,
  map, arith, eq_iff, ltb, leb, if◌then◌else◌, Eq, ◌==◌, ◌!=◌, nat_eq, string_eq, bool_eq, is_none,
  is_some, or_else, Bool-cases, Option-cases, &&-eq-true, ||-false, ==_refl, ==_sym, length, take,
  drop, is_empty, all, any, keep, first, length-append, length-drop, is_empty-eq-true, All,
  length-map, All-of_keep-nil, All-map, contains, contains-keep, subset, distinct, lists_equal,
  Outcome, returned, raised, ◌>>=◌, ◌>>◌, require, refuse, >>=-eq-returned, refuse-eq-returned,
  refuse-returned, returned-injective, if_is_empty-returned, >>=-cong, Outcome-cases, traverse,
  starts_with,
}
use pyrepo_check.Pytest.{
  ExpectedFailureKind, unexpected, xfail, xpass_non_strict, xpass_strict, Phase, setup, call,
  teardown, PhaseOutcome, Decimal, ValidatedExpectedFailure, ValidatedPhaseReport,
}
use pyrepo_check.Pytest.Node.{is_call, has_passed, has_failed, has_skipped}
use pyrepo_check.Pytest.Collection.{
  ArtifactInvalid, contradictory_strict, malformed_strict, contradictory_expected,
  malformed_expected,
}

-- The tuple of `raw_reports`. A report whose outcome is none of the three makes the session
-- unsupported whatever is told here, and is not modelled.
pub record RawReport : Type 0 where
  pub nodeid : String
  pub when : Phase
  pub outcome : PhaseOutcome
  pub duration : Decimal
  pub present : Bool
  pub wasxfail : Option String
  pub longrepr : Option String

abbrev strict_prefix : String
strict_prefix = "[XPASS(strict)] "

-- `text.removeprefix(prefix)` of a prefix with `n` characters that is there
abbrev drop_chars : ℕ → String → String
drop_chars zero s = s
drop_chars (suc n) String.[] = String.[]
drop_chars (suc n) (String.◌∷◌ c s) = drop_chars n s

-- `_is_strict_xpass_marker`
unfoldable pub is_strict_xpass_marker : RawReport → Bool
is_strict_xpass_marker r = elim r.longrepr [
  | none ↦ false
  | some text ↦ starts_with text strict_prefix
]

-- `_normalized_reason`
abbrev pub normalized_reason : String → Option String
normalized_reason value = if value == "" then none else some value

-- `_none_expected_failure`
abbrev pub none_expected_failure : ValidatedExpectedFailure
none_expected_failure = record {
  kind = unexpected;
  reason = none;
  strict = none;
  affects_exit = false;
}

-- `replace_report` of the report's normalized form
unfoldable pub replace_report : RawReport → ValidatedExpectedFailure → ValidatedPhaseReport
replace_report r expected = record {
  nodeid = r.nodeid;
  when = r.when;
  outcome = r.outcome;
  duration = r.duration;
  longrepr = r.longrepr;
  expected_failure = expected;
}

abbrev pub marker_reason : Option String → Option String
marker_reason none = none
marker_reason (some text) = normalized_reason (drop_chars 16 text)

-- What a report with the strict marker stands for
unfoldable pub strict_failure : RawReport → Outcome ArtifactInvalid ValidatedExpectedFailure
strict_failure r =
    if is_call r.when && has_failed r.outcome && is_some r.longrepr
    then returned (record {
      kind = xpass_strict;
      reason = marker_reason r.longrepr;
      strict = some true;
      affects_exit = true;
    })
    else raised malformed_strict

abbrev pub reasoned : RawReport → String → Outcome ArtifactInvalid ValidatedExpectedFailure
reasoned r reason =
    if has_skipped r.outcome
    then returned (record {
      kind = xfail;
      reason = normalized_reason reason;
      strict = none;
      affects_exit = false;
    })
    else if is_call r.when && has_passed r.outcome
    then returned (record {
      kind = xpass_non_strict;
      reason = normalized_reason reason;
      strict = some false;
      affects_exit = false;
    })
    else raised malformed_expected

-- What a report with an expected-failure reason stands for
unfoldable pub marked_failure : RawReport → Outcome ArtifactInvalid ValidatedExpectedFailure
marked_failure r = elim r.wasxfail [
  | none ↦ raised malformed_expected
  | some reason ↦ reasoned r reason
]

-- The one report of the group that the test picks is told by `tell`, the others are left alone.
unfoldable pub tell_one :
    (RawReport → Bool)
    → (RawReport → Outcome ArtifactInvalid ValidatedExpectedFailure)
    → List RawReport
    → RawReport
    → Outcome ArtifactInvalid ValidatedExpectedFailure
tell_one picks tell [] r = returned none_expected_failure
tell_one picks tell (chosen ∷ others) r = do
  expected ← tell chosen
  if picks r then tell r else returned none_expected_failure

-- The expected failure of the report `r` in the group of its test
unfoldable pub group_failure :
    List RawReport → RawReport → Outcome ArtifactInvalid ValidatedExpectedFailure
group_failure group r =
    let marked = keep (λ (q : RawReport). q.present) group in
    let strict = keep is_strict_xpass_marker group in
    if not (is_empty strict)
    then (do
      refuse (length strict != 1 || not (is_empty marked)) contradictory_strict
      tell_one is_strict_xpass_marker strict_failure strict r)
    else if not (is_empty marked)
    then (do
      refuse (length marked != 1) contradictory_expected
      tell_one (λ (q : RawReport). q.present) marked_failure marked r)
    else returned none_expected_failure

unfoldable pub normalize_report :
    List RawReport → RawReport → Outcome ArtifactInvalid ValidatedPhaseReport
normalize_report reports r = do
  expected ← group_failure (keep (λ (q : RawReport). q.nodeid == r.nodeid) reports) r
  returned (replace_report r expected)

-- `_normalize_expected_failures`. A group is refused at its first report, as the groups are in the
-- order of their first reports; a group that is accepted has one picked report.
unfoldable pub normalize_expected_failures :
    List RawReport → Outcome ArtifactInvalid (List ValidatedPhaseReport)
normalize_expected_failures reports = traverse (normalize_report reports) reports
