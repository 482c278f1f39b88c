-- ===== src/Reporting/Pytest/Laws.antt =====
-- What is reported of a validated session fits the exit code of its process.
use pyrepo_check.Base.{
  ℕ, String, ◌≡◌, refl, ap, ◌∙◌, inl, inr, Bool, true, false, not, ◌&&◌, ◌||◌, Option, none, some,
  List, arith, ◌==◌, ◌!=◌, nat_eq, string_eq, bool_eq, is_some, Bool-cases, returned,
}
use pyrepo_check.Base.Int.{ℤ, pos, int_eq, int_beq_iff}
use pyrepo_check.Planning.{RunPlan}
use pyrepo_check.Pytest.{
  PytestErrorCode, PytestStatus, PytestEvidence, PytestError, PytestResult, ValidatedPytestSession,
}
use pyrepo_check.Pytest.Evidence.{build_evidence}
use pyrepo_check.Pytest.Result.{is_complete, exit_result, session_result}
use pyrepo_check.Reporting.Pytest.{
  is_passed_status, is_failed_status, is_error_status, collected_none, validate_unerring,
  validate_matrix, validate_erring, validate_outcome_error, validate_pytest_primary_outcome,
}

-- A complete session exited with 0 or 1, or with 5 and no collected test.
abbrev IsEnded : PytestResult → ℤ → Type 0
IsEnded result z =
    (result.complete ≡ true → (z == pos 0 || z == pos 1 || z == pos 5) ≡ true)
    × ((z != pos 5 || not result.complete || collected_none result.evidence) ≡ true)

module _ (show : ℤ → String) (result : PytestResult) (z : ℤ) (ended : IsEnded result z) where
  incomplete :
      (z == pos 0) ≡ false → (z == pos 1) ≡ false → (z == pos 5) ≡ false → result.complete ≡ false
  incomplete a b c = elim (Bool-cases result.complete) [
    | inl complete ↦ ground (arith, ended.0 complete, a, b, c)
    | inr other ↦ other
  ]

  abbrev Reports : PytestStatus × Option PytestError → Type 0
  Reports outcome = (result.status ≡ outcome.0) × (result.error ≡ outcome.1)

  unerring :
      result.error ≡ none
      → validate_unerring result z ≡ returned tt
      → validate_pytest_primary_outcome result z ≡ returned tt
  unfolding validate_pytest_primary_outcome validate_outcome_error
  unerring e h = ap (validate_outcome_error result z) e ∙ h

  erring :
      (error : PytestError)
      → result.error ≡ some error
      → validate_erring result z error.code ≡ returned tt
      → validate_pytest_primary_outcome result z ≡ returned tt
  unfolding validate_pytest_primary_outcome validate_outcome_error
  erring error e h = ap (validate_outcome_error result z) e ∙ h

  matrix :
      (expected : Bool) (message : String)
      → expected ≡ true
      → result.status ≡ PytestStatus.error
      → result.complete ≡ false
      → is_some result.evidence ≡ true
      → validate_matrix result expected message ≡ returned tt
  unfolding validate_matrix
  matrix expected message x s c v =
      let status : is_error_status result.status ≡ true = ap is_error_status s in
      rw (x, status, c, v) refl

  passed-accepted :
      (z == pos 0) ≡ true
      → result.status ≡ PytestStatus.passed
      → validate_unerring result z ≡ returned tt
  unfolding validate_unerring
  passed-accepted p s =
      let status : is_passed_status result.status ≡ true = ap is_passed_status s in
      rw (p, status) refl

  failed-accepted :
      (z == pos 0) ≡ false
      → (z == pos 1 || z == pos 5) ≡ true
      → result.status ≡ PytestStatus.failed
      → validate_unerring result z ≡ returned tt
  unfolding validate_unerring
  failed-accepted p q s =
      let status : is_failed_status result.status ≡ true = ap is_failed_status s in
      rw (p, q, status, ended.1) refl

  stopped-accepted :
      (z == pos 1) ≡ true
      → result.status ≡ PytestStatus.failed
      → result.complete ≡ false
      → is_some result.evidence ≡ true
      → validate_erring result z PytestErrorCode.session_incomplete ≡ returned tt
  unfolding validate_erring
  stopped-accepted p s c v =
      let status : is_failed_status result.status ≡ true = ap is_failed_status s in
      rw (p, status, c, v) refl

  not_five : (n : ℕ) → (z == pos n) ≡ true → (n == 5) ≡ false → (z == pos 5) ≡ false
  not_five n p q = ap (λ w. w == pos 5) ((int_beq_iff z (pos n)).0 p) ∙ q

  abbrev IsReported : Bool → Type 0
  IsReported stopped =
      (result.status ≡ (exit_result show z result.complete stopped).0)
      × (result.error ≡ (exit_result show z result.complete stopped).1)

  one-accepted :
      (stopped : Bool)
      → (z == pos 0) ≡ false
      → (z == pos 1) ≡ true
      → is_some result.evidence ≡ true
      → IsReported stopped
      → validate_pytest_primary_outcome result z ≡ returned tt
  unfolding exit_result
  one-accepted stopped a b v (s, e) = elim (Bool-cases (not result.complete && stopped)) [
    | inl early ↦
        erring _ (rw (a, b, early) at e)
          (stopped-accepted b (rw (a, b, early) at s) (ground (arith, early)) v)
    | inr late ↦
        unerring (rw (a, b, late) at e) (failed-accepted a (rw b refl) (rw (a, b, late) at s))
  ]

  large-accepted :
      (stopped : Bool)
      → (z == pos 0) ≡ false
      → (z == pos 1) ≡ false
      → is_some result.evidence ≡ true
      → IsReported stopped
      → validate_pytest_primary_outcome result z ≡ returned tt
  unfolding exit_result validate_erring
  large-accepted stopped a b v (s, e) = elim (Bool-cases (z == pos 2)) [
    | inl two ↦
        erring _ (rw (a, b, two) at e)
          (matrix (z == pos 2) _ two (rw (a, b, two) at s) (incomplete a b (not_five 2 two refl)) v)
    | inr c ↦ elim (Bool-cases (z == pos 3)) [
      | inl three ↦ erring _ (rw (a, b, c, three) at e) (
          matrix (z == pos 3) _ three (rw (a, b, c, three) at s)
            (incomplete a b (not_five 3 three refl)) v)
      | inr d ↦ elim (Bool-cases (z == pos 4)) [
        | inl four ↦ erring _ (rw (a, b, c, d, four) at e) (
            matrix (z == pos 4) _ four (rw (a, b, c, d, four) at s)
              (incomplete a b (not_five 4 four refl)) v)
        | inr f ↦ elim (Bool-cases (z == pos 5)) [
          | inl five ↦
              unerring (rw (a, b, c, d, f, five) at e)
                (failed-accepted a (rw (b, five) refl) (rw (a, b, c, d, f, five) at s))
          | inr g ↦ erring _ (rw (a, b, c, d, f, g) at e) (
              matrix _ _ (rw (a, b, c, d, f, g) refl) (rw (a, b, c, d, f, g) at s)
                (incomplete a b g) v)
        ]
      ]
    ]
  ]

  reported-accepted :
      (stopped : Bool)
      → is_some result.evidence ≡ true
      → IsReported stopped
      → validate_pytest_primary_outcome result z ≡ returned tt
  unfolding exit_result
  reported-accepted stopped v (s, e) = elim (Bool-cases (z == pos 0)) [
    | inl p ↦ unerring (rw p at e) (passed-accepted p (rw p at s))
    | inr a ↦ elim (Bool-cases (z == pos 1)) [
      | inl b ↦ one-accepted stopped a b v (s, e)
      | inr b ↦ large-accepted stopped a b v (s, e)
    ]
  ]

ends :
    (session : ValidatedPytestSession) (evidence : PytestEvidence) (terminal : List String)
    → is_complete session evidence terminal ≡ true
    → ((session.exit_code == pos 0 || session.exit_code == pos 1 || session.exit_code == pos 5)
        ≡ true)
      × ((session.exit_code != pos 5 || evidence.collected == 0) ≡ true)
unfolding is_complete
ends session evidence terminal h = (ground (arith, h), ground (arith, h))

none_collected :
    (session : ValidatedPytestSession) (evidence : PytestEvidence) (terminal : List String)
    → (session.exit_code != pos 5
        || not (is_complete session evidence terminal)
        || collected_none (some evidence))
      ≡ true
none_collected session evidence terminal =
    elim (Bool-cases (is_complete session evidence terminal)) [
      | inl complete ↦ rw complete (ground (arith, (ends session evidence terminal complete).1))
      | inr other ↦ rw other (ground arith)
    ]

-- What is reported of a validated session passes the report's check against the exit code of that
-- session, for every exit code.
pub session_result-validate_pytest_primary_outcome :
    (show : ℤ → String) (plan : RunPlan) (session : ValidatedPytestSession)
    → validate_pytest_primary_outcome (session_result show plan session) session.exit_code
      ≡ returned tt
unfolding session_result
session_result-validate_pytest_primary_outcome show plan session =
    let evidence = (build_evidence session).0 in
    let terminal = (build_evidence session).1 in
    reported-accepted show (session_result show plan session) session.exit_code
      (λ h. (ends session evidence terminal h).0, none_collected session evidence terminal)
      session.stopped_early refl (refl, refl)
