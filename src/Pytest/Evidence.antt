-- ===== src/Pytest/Evidence.antt =====
-- pytest_evidence.py: the counts, the durations and the lists that a session amounts to.
pub mod Laws
use pyrepo_check.Base.{
  ℕ, zero, suc, ◌+◌, ◌-◌, ◌*◌, ◌/◌, ◌%◌, ◌^◌, ◌≤◌, ◌<◌, code, String, ◌<>◌, ◌≡◌, refl, sym, ap, ◌∙◌,
  ◌≢◌, ◌↔◌, ◌⊎◌, inl, inr, Bool, true, false, not, ◌&&◌, ◌||◌, Option, none, some, List, [], ◌∷◌,
  ◌++◌, map, arith, eq_iff, ltb, leb, if◌then◌else◌, Eq, ◌==◌, ◌!=◌, nat_eq, string_eq, bool_eq,
  is_none, is_some, or_else, Bool-cases, Option-cases, &&-eq-true, ||-false, ==_refl, ==_sym,
  length, take, drop, is_empty, all, any, keep, first, length-append, length-drop, is_empty-eq-true,
  All, length-map, All-of_keep-nil, All-map, contains, contains-keep, subset, distinct, lists_equal,
  Outcome, returned, raised, ◌>>=◌, ◌>>◌, require, refuse, >>=-eq-returned, refuse-eq-returned,
  refuse-returned, returned-injective, if_is_empty-returned, >>=-cong, Outcome-cases, traverse,
  starts_with,
}
use pyrepo_check.Base.Text.{str_le}
use pyrepo_check.Base.Sorting.{sorted}
use pyrepo_check.Pytest.{
  NodeOutcome, skipped, xfailed, xpassed, PytestCounts, CollectionIssue, SlowTest,
  SpecialTestOutcome, PytestEvidence, Decimal, ValidatedPhaseReport, SemanticOptions,
  ValidatedCollection, ValidatedPytestSession,
}
use pyrepo_check.Pytest.Node.{Consolidated, consolidate_node}

abbrev pub zero_counts : PytestCounts
zero_counts = record { passed = 0; failed = 0; errors = 0; skipped = 0; xfailed = 0; xpassed = 0 }

-- `_increment_count`
unfoldable pub increment_count : PytestCounts → NodeOutcome → PytestCounts
increment_count c NodeOutcome.passed = record {
  passed = suc c.passed;
  failed = c.failed;
  errors = c.errors;
  skipped = c.skipped;
  xfailed = c.xfailed;
  xpassed = c.xpassed;
}
increment_count c NodeOutcome.failed = record {
  passed = c.passed;
  failed = suc c.failed;
  errors = c.errors;
  skipped = c.skipped;
  xfailed = c.xfailed;
  xpassed = c.xpassed;
}
increment_count c NodeOutcome.errors = record {
  passed = c.passed;
  failed = c.failed;
  errors = suc c.errors;
  skipped = c.skipped;
  xfailed = c.xfailed;
  xpassed = c.xpassed;
}
increment_count c NodeOutcome.skipped = record {
  passed = c.passed;
  failed = c.failed;
  errors = c.errors;
  skipped = suc c.skipped;
  xfailed = c.xfailed;
  xpassed = c.xpassed;
}
increment_count c NodeOutcome.xfailed = record {
  passed = c.passed;
  failed = c.failed;
  errors = c.errors;
  skipped = c.skipped;
  xfailed = suc c.xfailed;
  xpassed = c.xpassed;
}
increment_count c NodeOutcome.xpassed = record {
  passed = c.passed;
  failed = c.failed;
  errors = c.errors;
  skipped = c.skipped;
  xfailed = c.xfailed;
  xpassed = suc c.xpassed;
}

-- `_count_total`
unfoldable pub count_total : PytestCounts → ℕ
count_total c = c.passed + c.failed + c.errors + c.skipped + c.xfailed + c.xpassed

-- A `Fraction`, not reduced: neither the quotient below nor the comparison depends on it.
pub record Ratio : Type 0 where
  pub numerator : ℕ
  pub denominator : ℕ

abbrev add_duration : List ValidatedPhaseReport → Ratio
add_duration [] = record { numerator = 0; denominator = 1 }
add_duration (r ∷ reports) =
    let sum = add_duration reports in
    let unit = 10 ^ r.duration.scale in
    record {
      numerator = r.duration.digits * 1000 * sum.denominator + sum.numerator * unit;
      denominator = unit * sum.denominator;
    }

abbrev half_up : Ratio → ℕ
half_up q =
    q.numerator / q.denominator
    + (if leb q.denominator (q.numerator % q.denominator * 2) then 1 else 0)

-- `_round_phase_durations`
unfoldable pub round_phase_durations : List ValidatedPhaseReport → ℕ
round_phase_durations reports = half_up (add_duration reports)

-- `phases_by_nodeid.get(nodeid, [])`
abbrev pub phases_of : List ValidatedPhaseReport → String → List ValidatedPhaseReport
phases_of reports nodeid = keep (λ (r : ValidatedPhaseReport). r.nodeid == nodeid) reports

abbrev is_special : NodeOutcome → Bool
is_special NodeOutcome.skipped = true
is_special NodeOutcome.xfailed = true
is_special NodeOutcome.xpassed = true
is_special NodeOutcome.passed = false
is_special NodeOutcome.failed = false
is_special NodeOutcome.errors = false

-- The variables of the loop of `_build_evidence`
pub record Tally : Type 0 where
  pub counts : PytestCounts
  pub slowest : List SlowTest
  pub special : List SpecialTestOutcome
  pub terminal_nodeids : List String

abbrev pub empty_tally : Tally
empty_tally = record { counts = zero_counts; slowest = []; special = []; terminal_nodeids = [] }

-- What the loop does with a node once it is consolidated
unfoldable pub add_node : Tally → String → List ValidatedPhaseReport → Option Consolidated → Tally
add_node tally nodeid reports none = tally
add_node tally nodeid reports (some c) = record {
  counts = increment_count tally.counts c.outcome;
  slowest =
      tally.slowest ++ record { nodeid = nodeid; duration_ms = round_phase_durations reports } ∷ [];
  special =
      if is_special c.outcome
      then tally.special
        ++ record {
          nodeid = nodeid;
          outcome = c.outcome;
          reason = c.reason;
          strict = c.strict;
          affects_exit = c.affects_exit;
          duration_ms = round_phase_durations reports;
        }
          ∷ []
      else tally.special;
  terminal_nodeids = tally.terminal_nodeids ++ nodeid ∷ [];
}

unfoldable pub tally_node : Bool → List ValidatedPhaseReport → Tally → String → Tally
tally_node setup_only reports tally nodeid =
    add_node tally nodeid (phases_of reports nodeid)
      (consolidate_node (phases_of reports nodeid) setup_only)

unfoldable pub tally_nodes : Bool → List ValidatedPhaseReport → Tally → List String → Tally
tally_nodes setup_only reports tally [] = tally
tally_nodes setup_only reports tally (nodeid ∷ nodeids) =
    tally_nodes setup_only reports (tally_node setup_only reports tally nodeid) nodeids

-- The order on the pairs (-duration, node ID), and on the pairs (node ID, message)
abbrev slower : SlowTest → SlowTest → Bool
slower a b =
    ltb b.duration_ms a.duration_ms || (a.duration_ms == b.duration_ms && str_le a.nodeid b.nodeid)

abbrev issue_le : CollectionIssue → CollectionIssue → Bool
issue_le a b = if a.nodeid == b.nodeid then str_le a.message b.message else str_le a.nodeid b.nodeid

-- `_collection_issues`
unfoldable pub collection_issues : List CollectionIssue → List CollectionIssue
collection_issues issues = sorted issue_le issues

abbrev pub is_setup_only : ValidatedPytestSession → Bool
is_setup_only session = session.semantic_options.setuponly || session.semantic_options.setupplan

abbrev pub tally_of : ValidatedPytestSession → Tally
tally_of session =
    tally_nodes (is_setup_only session) session.reports empty_tally session.collection.final_nodeids

-- `_build_evidence`: the evidence, and the nodes with an outcome. Reports of other nodes than the
-- final ones are in no `phases_of` that the loop asks for.
unfoldable pub build_evidence : ValidatedPytestSession → PytestEvidence × List String
build_evidence session =
    let tally = tally_of session in
    (
      record {
        effective_args = session.effective_args;
        collected = length session.collection.final_nodeids;
        deselected = length session.collection.deselected_nodeids;
        counts = tally.counts;
        collection_errors = collection_issues session.collection.errors;
        collection_skips = collection_issues session.collection.skips;
        slowest = take 10 (sorted slower tally.slowest);
        special_outcomes =
            sorted (λ (a b : SpecialTestOutcome). str_le a.nodeid b.nodeid) tally.special;
      },
      tally.terminal_nodeids,
    )
