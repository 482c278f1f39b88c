-- ===== src/Coverage/Gate/Laws.antt =====
-- When the threshold is evaluated, and what that says of the run.
use pyrepo_check.Base.{
  String, ◌≡◌, refl, ◌↔◌, inl, Bool, true, false, not, Option, none, some, [], arith, ◌==◌, nat_eq,
  string_eq, bool_eq, is_empty, is_empty-eq-true,
}
use pyrepo_check.Base.Int.{ℤ, pos, int_eq, int_beq_iff}
use mathlib.Core.Path.{subst}
use pyrepo_check.Planning.{RunPlan, RunMode, strict_aggregate}
use pyrepo_check.Pytest.{PytestResult, TestScope, ValidatedPytestSession}
use pyrepo_check.Pytest.Result.{session_result, build_pytest_result}
use pyrepo_check.Pytest.Result.Whole.{IsWhole}
use pyrepo_check.Pytest.Result.Laws.{IsFinished, session_result-IsWhole, session_result-IsFinished}
use pyrepo_check.Coverage.Gate.{
  Context, context_of, exited_with, is_strict_aggregate, is_whole_scope, gate_is_eligible,
  threshold_skipped_reason, coverage_gate_policy_for_context, coverage_gate_policy,
  coverage_threshold_is_configured,
}

not_both : (z : ℤ) → (z == pos 0) ≡ true → (z == pos 5) ≡ false
not_both z e = rw ((int_beq_iff z (pos 0)).0 e) refl

exited_with-zero_five :
    (code : Option ℤ)
    → elim code [ none ↦ false | some c ↦ c == pos 0 ] ≡ true
    → elim code [ none ↦ false | some c ↦ c == pos 5 ] ≡ false
exited_with-zero_five none e = refl
exited_with-zero_five (some z) e = not_both z e

exited_with-five :
    (result : PytestResult) → exited_with 0 result ≡ true → exited_with 5 result ≡ false
unfolding exited_with
exited_with-five result e = exited_with-zero_five result.exit_code e

threshold_skipped_reason-gate_is_eligible :
    (context : Context) (result : PytestResult)
    → context.configured ≡ true
    → (exited_with 0 result ≡ true → exited_with 5 result ≡ false)
    → (threshold_skipped_reason context result ≡ none) ↔ (gate_is_eligible context result ≡ true)
unfolding gate_is_eligible threshold_skipped_reason
threshold_skipped_reason-gate_is_eligible context result h zero_five = ground (arith, h, zero_five)

-- With a threshold configured, the policy gives no reason for skipping the threshold exactly when
-- the run is eligible for it, and it forces the threshold to zero exactly when the run is not.
pub coverage_gate_policy-skipped_reason :
    (plan : RunPlan) (result : PytestResult) (evidence_complete : Bool)
    → coverage_threshold_is_configured plan ≡ true
    → (((coverage_gate_policy plan result evidence_complete).skipped_reason ≡ none)
        ↔ ((coverage_gate_policy plan result evidence_complete).gate_eligible ≡ true))
      × ((coverage_gate_policy plan result evidence_complete).force_fail_under_zero
          ≡ not (coverage_gate_policy plan result evidence_complete).gate_eligible)
unfolding coverage_gate_policy coverage_gate_policy_for_context
coverage_gate_policy-skipped_reason plan result evidence_complete h = (
  threshold_skipped_reason-gate_is_eligible (context_of plan evidence_complete) result h
      (exited_with-five result),
  refl,
)

record Eligible (context : Context) (result : PytestResult) : Type 0 where
  exit : exited_with 0 result ≡ true
  complete : result.complete ≡ true
  scope : is_whole_scope result.scope ≡ true
  targets : is_empty context.targets ≡ true
  mode : is_strict_aggregate context.mode ≡ true

gate_is_eligible-Eligible :
    (context : Context) (result : PytestResult)
    → gate_is_eligible context result ≡ true
    → Eligible context result
unfolding gate_is_eligible
gate_is_eligible-Eligible context result e = record {
  exit = ground (arith, e);
  complete = ground (arith, e);
  scope = ground (arith, e);
  targets = ground (arith, e);
  mode = ground (arith, e);
}

is_strict_aggregate-eq :
    (mode : RunMode) → is_strict_aggregate mode ≡ true → mode ≡ strict_aggregate
is_strict_aggregate-eq mode e = ground (arith, e)

is_whole_scope-eq : (scope : TestScope) → is_whole_scope scope ≡ true → scope ≡ TestScope.complete
is_whole_scope-eq scope e = ground (arith, e)

exit_code-session_result :
    (show : ℤ → String) (plan : RunPlan) (session : ValidatedPytestSession)
    → exited_with 0 (session_result show plan session) ≡ true
    → session.exit_code ≡ pos 0
unfolding exited_with session_result
exit_code-session_result show plan session e = (int_beq_iff session.exit_code (pos 0)).0 e

-- With a validated session, a run is eligible for the coverage threshold only if it is a strict
-- aggregate run without targets, pytest exited with 0, nothing kept the session from being a run of
-- all the tests, and the session is finished.
pub coverage_gate_policy-IsFinished :
    (show : ℤ → String) (plan : RunPlan) (session : ValidatedPytestSession)
    (evidence_complete : Bool)
    → (coverage_gate_policy plan
        (build_pytest_result show plan (inl session))
        evidence_complete).gate_eligible
      ≡ true
    → (plan.mode ≡ strict_aggregate)
      × (plan.targets ≡ [])
      × (session.exit_code ≡ pos 0)
      × IsWhole plan session true
      × IsFinished session
unfolding coverage_gate_policy coverage_gate_policy_for_context build_pytest_result
coverage_gate_policy-IsFinished show plan session evidence_complete e =
    let result : PytestResult = session_result show plan session in
    let eligible : Eligible (context_of plan evidence_complete) result =
      gate_is_eligible-Eligible (context_of plan evidence_complete) result e in
    let whole : IsWhole plan session result.complete =
      (session_result-IsWhole show plan session).0
        (is_whole_scope-eq result.scope eligible.scope) in
    (
      is_strict_aggregate-eq plan.mode eligible.mode,
      is_empty-eq-true plan.targets eligible.targets,
      exit_code-session_result show plan session eligible.exit,
      subst (λ b. IsWhole plan session b) eligible.complete whole,
      session_result-IsFinished show plan session eligible.complete,
    )
