-- ===== src/Pytest/Expected/Laws.antt =====
-- That an expected failure fits the phase it is told of.
use pyrepo_check.Base.{
  String, ◌≡◌, refl, ◌≢◌, inl, inr, Bool, true, false, not, ◌&&◌, ◌||◌, some, List, [], ◌∷◌, map,
  arith, if◌then◌else◌, ◌==◌, ◌!=◌, nat_eq, string_eq, bool_eq, is_some, Bool-cases, Option-cases,
  length, is_empty, keep, All, Outcome, returned, raised, >>=-eq-returned, refuse-eq-returned,
  returned-injective, traverse,
}
use pyrepo_check.Pytest.{
  ExpectedFailureKind, unexpected, xfail, xpass_non_strict, xpass_strict, Phase, PhaseOutcome,
  ValidatedExpectedFailure, ValidatedPhaseReport,
}
use mathlib.Core.Path.{subst}
use pyrepo_check.Pytest.Node.{is_call, has_passed, has_failed, has_skipped}
use pyrepo_check.Pytest.Collection.{
  ArtifactInvalid, contradictory_strict, contradictory_expected, malformed_strict,
  malformed_expected,
}
use pyrepo_check.Pytest.Expected.{
  marker_reason, normalized_reason, reasoned, RawReport, is_strict_xpass_marker, replace_report,
  strict_failure, marked_failure, tell_one, group_failure, normalize_report,
  normalize_expected_failures,
}

-- The phase and the outcome that the kind can go with
abbrev pub Fits : ExpectedFailureKind → Phase → PhaseOutcome → Type 0
Fits unexpected when outcome = Unit
Fits xfail when outcome = outcome ≡ PhaseOutcome.skipped
Fits xpass_non_strict when outcome = (when ≡ Phase.call) × (outcome ≡ PhaseOutcome.passed)
Fits xpass_strict when outcome = (when ≡ Phase.call) × (outcome ≡ PhaseOutcome.failed)

abbrev pub IsConsistent : ValidatedPhaseReport → Type 0
IsConsistent r = Fits r.expected_failure.kind r.when r.outcome

abbrev Told : RawReport → ValidatedExpectedFailure → Type 0
Told r f = Fits f.kind r.when r.outcome

is_call-eq : (p : Phase) → is_call p ≡ true → p ≡ Phase.call
is_call-eq p e = ground (arith, e)

has_failed-eq : (o : PhaseOutcome) → has_failed o ≡ true → o ≡ PhaseOutcome.failed
has_failed-eq o e = ground (arith, e)

has_passed-eq : (o : PhaseOutcome) → has_passed o ≡ true → o ≡ PhaseOutcome.passed
has_passed-eq o e = ground (arith, e)

has_skipped-eq : (o : PhaseOutcome) → has_skipped o ≡ true → o ≡ PhaseOutcome.skipped
has_skipped-eq o e = ground (arith, e)

raised_returned : {E A : Type 0} {x : E} {a : A} → ◌≢◌ {A = Outcome E A} (raised x) (returned a)
raised_returned h = cc

if_raised :
    {E A : Type 0} (test : Bool) (a b : A) (x : E)
    → (if test then returned a else raised x) ≡ returned b
    → (test ≡ true) × (a ≡ b)
if_raised true a b x h = (refl, returned-injective h)
if_raised false a b x h = cc

strict_failure-Told :
    (r : RawReport) (f : ValidatedExpectedFailure) → strict_failure r ≡ returned f → Told r f
unfolding strict_failure
strict_failure-Told r f e =
    let (test, same) =
      if_raised (is_call r.when && has_failed r.outcome && is_some r.longrepr)
        (record {
          kind = xpass_strict;
          reason = marker_reason r.longrepr;
          strict = some true;
          affects_exit = true;
        })
        f malformed_strict e in
    subst (λ g. Told r g) same
      (is_call-eq r.when (ground (arith, test)), has_failed-eq r.outcome (ground (arith, test)))

reasoned-Told :
    (r : RawReport) (reason : String) (f : ValidatedExpectedFailure)
    → reasoned r reason ≡ returned f
    → Told r f
reasoned-Told r reason f e = elim (Bool-cases (has_skipped r.outcome)) [
  | inl s ↦ subst (λ g. Told r g) (returned-injective (rw s at e)) (has_skipped-eq r.outcome s)
  | inr s ↦
      let (test, same) =
        if_raised (is_call r.when && has_passed r.outcome)
          (record {
            kind = xpass_non_strict;
            reason = normalized_reason reason;
            strict = some false;
            affects_exit = false;
          })
          f malformed_expected (rw s at e) in
      subst (λ g. Told r g) same
        (is_call-eq r.when (ground (arith, test)), has_passed-eq r.outcome (ground (arith, test)))
]

marked_failure-Told :
    (r : RawReport) (f : ValidatedExpectedFailure) → marked_failure r ≡ returned f → Told r f
unfolding marked_failure
marked_failure-Told r f e = elim (Option-cases r.wasxfail) [
  | inl w ↦ absurd (raised_returned (rw w at e))
  | inr (reason, w) ↦ reasoned-Told r reason f (rw w at e)
]

tell_one-Told :
    (picks : RawReport → Bool) (tell : RawReport → Outcome ArtifactInvalid ValidatedExpectedFailure)
    → ((q : RawReport) (g : ValidatedExpectedFailure) → tell q ≡ returned g → Told q g)
    → (chosen : List RawReport) (r : RawReport) (f : ValidatedExpectedFailure)
    → tell_one picks tell chosen r ≡ returned f
    → Told r f
unfolding tell_one
tell_one-Told picks tell h [] r f e = subst (λ g. Told r g) (returned-injective e) tt
tell_one-Told picks tell h (q ∷ qs) r f e =
    let (_, _, e1) = >>=-eq-returned (tell q) _ e in
    elim (Bool-cases (picks r)) [
      | inl p ↦ h r f (rw p at e1)
      | inr p ↦ subst (λ g. Told r g) (returned-injective (rw p at e1)) tt
    ]

group_failure-Told :
    (group : List RawReport) (r : RawReport) (f : ValidatedExpectedFailure)
    → group_failure group r ≡ returned f
    → Told r f
unfolding group_failure
group_failure-Told group r f e =
    let marked : List RawReport = keep (λ (q : RawReport). q.present) group in
    let strict : List RawReport = keep is_strict_xpass_marker group in
    elim (Bool-cases (not (is_empty strict))) [
      | inl s ↦
          let (_, e1) =
            refuse-eq-returned (length strict != 1 || not (is_empty marked)) contradictory_strict _
              (rw s at e) in
          tell_one-Told is_strict_xpass_marker strict_failure strict_failure-Told strict r f e1
      | inr s ↦ elim (Bool-cases (not (is_empty marked))) [
        | inl m ↦
            let (_, e1) =
              refuse-eq-returned (length marked != 1) contradictory_expected _
                (rw m at (rw s at e)) in
            tell_one-Told (λ (q : RawReport). q.present) marked_failure marked_failure-Told marked r
              f e1
        | inr m ↦ subst (λ g. Told r g) (returned-injective (rw m at (rw s at e))) tt
      ]
    ]

normalize_report-IsConsistent :
    (reports : List RawReport) (r : RawReport) (out : ValidatedPhaseReport)
    → normalize_report reports r ≡ returned out
    → IsConsistent out × (out.nodeid ≡ r.nodeid)
unfolding normalize_report replace_report
normalize_report-IsConsistent reports r out e =
    let (f, told, e1) =
      >>=-eq-returned (group_failure (keep (λ (q : RawReport). q.nodeid == r.nodeid) reports) r) _
        e in
    subst (λ (o : ValidatedPhaseReport). IsConsistent o × (o.nodeid ≡ r.nodeid))
      (returned-injective e1) (group_failure-Told _ r f told, refl)

traverse-IsConsistent :
    (all_reports reports : List RawReport) (out : List ValidatedPhaseReport)
    → traverse (normalize_report all_reports) reports ≡ returned out
    → All IsConsistent out
      × (map (λ (o : ValidatedPhaseReport). o.nodeid) out
          ≡ map (λ (r : RawReport). r.nodeid) reports)
traverse-IsConsistent all_reports [] out e =
    subst (λ os. All IsConsistent os × (map (λ (o : ValidatedPhaseReport). o.nodeid) os ≡ []))
      (returned-injective e) (tt, refl)
traverse-IsConsistent all_reports (r ∷ reports) out e =
    let (o, one, e1) = >>=-eq-returned (normalize_report all_reports r) _ e in
    let (os, more, e2) = >>=-eq-returned (traverse (normalize_report all_reports) reports) _ e1 in
    let (consistent, same) = normalize_report-IsConsistent all_reports r o one in
    let (rest, same_rest) = traverse-IsConsistent all_reports reports os more in
    subst
      (λ os.
        All IsConsistent os
        × (map (λ (o : ValidatedPhaseReport). o.nodeid) os
            ≡ map (λ (q : RawReport). q.nodeid) (r ∷ reports)))
      (returned-injective e2) ((consistent, rest), λ i. same i ∷ same_rest i)

-- If the expected failures of a session's reports are told, then each report stands for the same
-- test as before, an xfail is a skipped phase, a non-strict xpass is a call that passed and a strict
-- xpass is a call that failed.
pub normalize_expected_failures-IsConsistent :
    (reports : List RawReport) (out : List ValidatedPhaseReport)
    → normalize_expected_failures reports ≡ returned out
    → All IsConsistent out
      × (map (λ (o : ValidatedPhaseReport). o.nodeid) out
          ≡ map (λ (r : RawReport). r.nodeid) reports)
unfolding normalize_expected_failures
normalize_expected_failures-IsConsistent reports out e = traverse-IsConsistent reports reports out e
