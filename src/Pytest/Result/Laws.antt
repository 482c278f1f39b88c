-- ===== src/Pytest/Result/Laws.antt =====
-- When a session is reported as complete, and that only a complete session is.
use pyrepo_check.Base.{
  ℕ, ◌≤◌, String, ◌≡◌, refl, sym, ◌∙◌, ◌↔◌, ◌⊎◌, inl, inr, Bool, true, false, ◌||◌, List, [], ◌∷◌,
  arith, ◌==◌, ◌!=◌, nat_eq, string_eq, bool_eq, Bool-cases, length, keep, All, subset,
}
use pyrepo_check.Base.Int.{ℤ, pos, int_eq, int_beq_iff}
use pyrepo_check.Planning.{RunPlan}
use pyrepo_check.Pytest.{TestScope, PytestEvidence, ValidatedPytestSession, TestScopeReason}
use pyrepo_check.Pytest.Evidence.{build_evidence, count_total, is_setup_only}
use pyrepo_check.Pytest.Evidence.Laws.{
  consolidates, consolidated_nodes, build_evidence-consolidated_nodes,
}
use pyrepo_check.Pytest.Result.Whole.{IsWhole, scope_reasons-IsWhole, IsWhole-scope_reasons}
use pyrepo_check.Pytest.Result.{scope_reasons, is_complete, session_result, final_phase_nodeids}

deselected-build_evidence :
    (session : ValidatedPytestSession)
    → (build_evidence session).0.deselected ≡ length session.collection.deselected_nodeids
unfolding build_evidence
deselected-build_evidence session = refl

collected-build_evidence :
    (session : ValidatedPytestSession)
    → (build_evidence session).0.collected ≡ length session.collection.final_nodeids
unfolding build_evidence
collected-build_evidence session = refl

exit_cases :
    (z : ℤ) (collected final : ℕ)
    → collected ≡ final
    → (z == pos 0 || z == pos 1 || z == pos 5) ≡ true
    → (z != pos 5 || collected == 0) ≡ true
    → (z ≡ pos 0) ⊎ (z ≡ pos 1) ⊎ ((z ≡ pos 5) × (final ≡ 0))
exit_cases z collected final c e f = elim (Bool-cases (z == pos 0)) [
  | inl p ↦ inl ((int_beq_iff z (pos 0)).0 p)
  | inr p ↦ elim (Bool-cases (z == pos 1)) [
    | inl q ↦ inr (inl ((int_beq_iff z (pos 1)).0 q))
    | inr q ↦
        let five : z == pos 5 ≡ true = ground (arith, e, p, q) in
        inr (inr ((int_beq_iff z (pos 5)).0 five, ground (arith, c, f, five)))
  ]
]

length-keep : (p : String → Bool) (xs : List String) → length (keep p xs) ≤ length xs
length-keep p [] = omega arith
length-keep p (x ∷ xs) = ground (arith, length-keep p xs)

All-of_length-keep :
    (p : String → Bool) (xs : List String)
    → length (keep p xs) ≡ length xs
    → All (λ x. p x ≡ true) xs
All-of_length-keep p [] e = tt
All-of_length-keep p (x ∷ xs) e = ground (arith, All-of_length-keep p xs, length-keep p xs)

-- What a complete session amounts to
pub record IsFinished (session : ValidatedPytestSession) : Type 0 where
  pub collected : session.collection_completed ≡ true
  pub unstopped : session.stopped_early ≡ false
  pub counted :
      All
        (λ nodeid. consolidates (is_setup_only session) session.reports nodeid ≡ true)
        session.collection.final_nodeids
  pub closed : subset session.collection.final_nodeids (final_phase_nodeids session.reports) ≡ true
  pub exit :
      (session.exit_code ≡ pos 0)
      ⊎ (session.exit_code ≡ pos 1)
      ⊎ ((session.exit_code ≡ pos 5) × (length session.collection.final_nodeids ≡ 0))

module _ (show : ℤ → String) (plan : RunPlan) where
  -- The scope that is reported of a validated session is complete exactly when the plan did not
  -- select some tests only, none of pytest's options selects, leaves out or merely lists tests, its
  -- effective arguments are harmless ones, no test was deselected or removed from the collection, and
  -- the session is reported as complete.
  pub session_result-IsWhole :
      (session : ValidatedPytestSession)
      → ((session_result show plan session).scope ≡ TestScope.complete)
        ↔ IsWhole plan session (session_result show plan session).complete
  unfolding session_result
  session_result-IsWhole session =
      let evidence : PytestEvidence = (build_evidence session).0 in
      let complete : Bool = is_complete session evidence (build_evidence session).1 in
      let reasons : List TestScopeReason = scope_reasons plan session evidence complete in
      (
        λ e.
            scope_reasons-IsWhole plan session evidence complete (deselected-build_evidence session)
              (ground (arith, e)),
        λ w.
            rw
              (IsWhole-scope_reasons plan session evidence complete
                (deselected-build_evidence session) w)
              refl,
      )

  is_complete-IsFinished :
      (session : ValidatedPytestSession) (evidence : PytestEvidence) (terminal : List String)
      → evidence.collected ≡ length session.collection.final_nodeids
      → count_total evidence.counts ≡ length (consolidated_nodes session)
      → is_complete session evidence terminal ≡ true
      → IsFinished session
  unfolding is_complete
  is_complete-IsFinished session evidence terminal c t e =
      let total : count_total evidence.counts == evidence.collected ≡ true = ground (arith, e) in
      let ended : (session.exit_code == pos 0
            || session.exit_code == pos 1
            || session.exit_code == pos 5)
          ≡ true =
        ground (arith, e) in
      let none_if_five : (session.exit_code != pos 5 || evidence.collected == 0) ≡ true =
        ground (arith, e) in
      record {
        collected = ground (arith, e);
        unstopped = ground (arith, e);
        counted =
            All-of_length-keep (consolidates (is_setup_only session) session.reports)
              session.collection.final_nodeids (sym t ∙ ground (arith, total) ∙ c);
        closed = ground (arith, e);
        exit =
            exit_cases session.exit_code evidence.collected
              (length session.collection.final_nodeids) c ended none_if_five;
      }

  -- A validated session is reported as complete only if its collection was completed, it was not
  -- stopped early, every final test has an outcome and its teardown was reported, and pytest exited
  -- with 0 or 1, or with 5 and without any final test.
  pub session_result-IsFinished :
      (session : ValidatedPytestSession)
      → (session_result show plan session).complete ≡ true
      → IsFinished session
  unfolding session_result
  session_result-IsFinished session e =
      is_complete-IsFinished session (build_evidence session).0 (build_evidence session).1
        (collected-build_evidence session) (build_evidence-consolidated_nodes session).0 e
