-- ===== src/Pytest/Node/Laws.antt =====
-- When a test is counted as passed.
use pyrepo_check.Base.{
  ◌≡◌, inl, inr, Bool, true, false, none, some, List, [], ◌∷◌, arith, nat_eq, string_eq, bool_eq,
  Option-cases, any, first, All,
}
use pyrepo_check.Pytest.{ExpectedFailureKind, NodeOutcome, PhaseOutcome, ValidatedPhaseReport}
use pyrepo_check.Pytest.Node.{
  is_xpass_strict, is_xfail, is_xpass_non_strict, has_skipped, setup_or_teardown_failed,
  call_failed, Consolidated, consolidate_node, consolidate_unfailed, has_terminal_phase,
}

-- The phase passed, and nothing was expected to fail.
pub record IsClean (r : ValidatedPhaseReport) : Type 0 where
  pub outcome : r.outcome ≡ PhaseOutcome.passed
  pub kind : r.expected_failure.kind ≡ ExpectedFailureKind.unexpected

abbrev pub passed_outcome : Consolidated
passed_outcome = record {
  outcome = NodeOutcome.passed;
  reason = none;
  strict = none;
  affects_exit = false;
}

-- What the tests before the last one found, where a node is counted as passed
record Unremarkable (reports : List ValidatedPhaseReport) : Type 0 where
  no_error : any setup_or_teardown_failed reports ≡ false
  no_strict : first (λ r. is_xpass_strict r.expected_failure.kind) reports ≡ none
  no_failure : any call_failed reports ≡ false
  no_xfail : first (λ r. is_xfail r.expected_failure.kind) reports ≡ none
  no_xpass : first (λ r. is_xpass_non_strict r.expected_failure.kind) reports ≡ none
  no_skip : any (λ r. has_skipped r.outcome) reports ≡ false

Unremarkable-IsClean :
    (reports : List ValidatedPhaseReport)
    → any setup_or_teardown_failed reports ≡ false
    → first (λ r. is_xpass_strict r.expected_failure.kind) reports ≡ none
    → any call_failed reports ≡ false
    → first (λ r. is_xfail r.expected_failure.kind) reports ≡ none
    → first (λ r. is_xpass_non_strict r.expected_failure.kind) reports ≡ none
    → any (λ r. has_skipped r.outcome) reports ≡ false
    → All IsClean reports
Unremarkable-IsClean [] a b c d e f = tt
Unremarkable-IsClean (r ∷ reports) a b c d e f = (
  record { outcome = ground arith; kind = ground arith },
  Unremarkable-IsClean reports (ground arith) (ground arith) (ground arith) (ground arith)
      (ground arith) (ground arith),
)

consolidate_node-Unremarkable :
    (reports : List ValidatedPhaseReport) (setup_only : Bool) (c : Consolidated)
    → consolidate_node reports setup_only ≡ some c
    → c.outcome ≡ NodeOutcome.passed
    → Unremarkable reports
unfolding consolidate_node consolidate_unfailed
consolidate_node-Unremarkable reports setup_only c e p =
    elim (Option-cases (first (λ r. is_xpass_strict r.expected_failure.kind) reports)) [
      | inr (r, f) ↦ ground (arith, f)
      | inl f ↦ elim (Option-cases (first (λ r. is_xfail r.expected_failure.kind) reports)) [
        | inr (r, g) ↦ ground (arith, f, g)
        | inl g ↦
            elim (Option-cases (first (λ r. is_xpass_non_strict r.expected_failure.kind) reports)) [
              | inr (r, h) ↦ ground (arith, f, g, h)
              | inl h ↦ record {
                no_error = ground (arith, f, g, h);
                no_strict = f;
                no_failure = ground (arith, f, g, h);
                no_xfail = g;
                no_xpass = h;
                no_skip = ground (arith, f, g, h);
              }
            ]
      ]
    ]

consolidate_node-has_terminal_phase :
    (reports : List ValidatedPhaseReport) (setup_only : Bool) (c : Consolidated)
    → consolidate_node reports setup_only ≡ some c
    → c.outcome ≡ NodeOutcome.passed
    → Unremarkable reports
    → has_terminal_phase reports setup_only ≡ true
unfolding consolidate_node consolidate_unfailed
consolidate_node-has_terminal_phase reports setup_only c e p u =
    let f : first (λ (r : ValidatedPhaseReport). is_xpass_strict r.expected_failure.kind) reports
        ≡ none =
      u.no_strict in
    let g : first (λ (r : ValidatedPhaseReport). is_xfail r.expected_failure.kind) reports ≡ none =
      u.no_xfail in
    let h : first (λ (r : ValidatedPhaseReport). is_xpass_non_strict r.expected_failure.kind)
          reports
        ≡ none =
      u.no_xpass in
    ground (arith, f, g, h)

-- A test is counted as passed only if every reported phase of it passed, none was expected to fail,
-- and one of the phases is final: a call, or with setup only a teardown.
pub consolidate_node-IsClean :
    (reports : List ValidatedPhaseReport) (setup_only : Bool) (c : Consolidated)
    → consolidate_node reports setup_only ≡ some c
    → c.outcome ≡ NodeOutcome.passed
    → All IsClean reports × (has_terminal_phase reports setup_only ≡ true)
consolidate_node-IsClean reports setup_only c e p =
    let u : Unremarkable reports = consolidate_node-Unremarkable reports setup_only c e p in
    (
      Unremarkable-IsClean reports u.no_error u.no_strict u.no_failure u.no_xfail u.no_xpass
          u.no_skip,
      consolidate_node-has_terminal_phase reports setup_only c e p u,
    )
