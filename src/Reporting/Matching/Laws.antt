-- ===== src/Reporting/Matching/Laws.antt =====
-- The observations that the executor returns are matched, each to its own Check.
use pyrepo_check.Base.{
  ℕ, suc, String, ◌≡◌, refl, sym, ap, ◌∙◌, Bool, true, false, not, Option, some, List, [], ◌∷◌, map,
  ◌!=◌, nat_eq, string_eq, bool_eq, length, All, length-map, returned,
}
use pyrepo_check.Base.Int.{ℤ}
use pyrepo_check.Planning.{CheckInvocation, RunPlan}
use pyrepo_check.Execution.{RepositoryCheckObservation}
use pyrepo_check.Executor.{WorkspaceRun}
use pyrepo_check.Executor.Checks.{
  RepositoryVerificationResult, Prepared, RepositoryExecutionResult, execute_repository_plan,
}
use pyrepo_check.Executor.Checks.Laws.{IsExecutable}
use pyrepo_check.Executor.Plan.{execute_repository_plan-IsComplete}
use pyrepo_check.Reporting.Matching.{Matched, find_from, match_from, match_repository_observations}

-- `enumerate` from an index on
abbrev pub enumerated : ℕ → List RepositoryCheckObservation → Matched
enumerated index [] = []
enumerated index (o ∷ os) = (index, o) ∷ enumerated (suc index) os

length-enumerated :
    (index : ℕ) (os : List RepositoryCheckObservation) → length (enumerated index os) ≡ length os
length-enumerated index [] = refl
length-enumerated index (o ∷ os) = ap suc (length-enumerated (suc index) os)

abbrev invocations : List RepositoryCheckObservation → List CheckInvocation
invocations os = map (λ (o : RepositoryCheckObservation). o.invocation) os

module _ (equal : CheckInvocation → CheckInvocation → Bool)
    (reflexive : (invocation : CheckInvocation) → equal invocation invocation ≡ true) where
  find_from-first :
      (invocation : CheckInvocation) (index : ℕ) (rest : List CheckInvocation)
      → find_from equal invocation index (invocation ∷ rest) ≡ some (index, rest)
  unfolding find_from
  find_from-first invocation index rest = rw (reflexive invocation) refl

  match_from-enumerated :
      (index : ℕ) (os : List RepositoryCheckObservation)
      → match_from equal index (invocations os) os ≡ returned (enumerated index os)
  unfolding match_from
  match_from-enumerated index [] = refl
  match_from-enumerated index (o ∷ os) =
      rw (find_from-first o.invocation index (invocations os), match_from-enumerated (suc index) os)
        refl

  match-enumerated :
      (os : List RepositoryCheckObservation)
      → match_repository_observations equal (invocations os) os ≡ returned (enumerated 0 os)
  unfolding match_repository_observations
  match-enumerated os =
      let same : (length (enumerated 0 os) != length (invocations os)) ≡ false = ap not (
        (nat_eq.beq_exact (length (enumerated 0 os)) (length (invocations os))).1 (
          length-enumerated 0 os
          ∙ sym (length-map (λ (o : RepositoryCheckObservation). o.invocation) os))) in
      rw (match_from-enumerated 0 os, same) refl

-- What the execution of a plan returns is accepted by the report, which matches each planned Check with
-- the observation of that Check, under the conditions on which the execution returns.
pub execute_repository_plan-match_repository_observations :
    (equal : CheckInvocation → CheckInvocation → Bool)
    → ((invocation : CheckInvocation) → equal invocation invocation ≡ true)
    → (show : ℤ → String) (workspaces : CheckInvocation → WorkspaceRun)
      (verify : Option (List String) → RepositoryVerificationResult) (helpers_changed : Bool)
      (plan : RunPlan) (safe : Prepared)
    → All (IsExecutable safe.observation.dependencies) plan.checks
    → (result : RepositoryExecutionResult) × (execute_repository_plan show workspaces verify
          helpers_changed plan safe
        ≡ returned result)
      × (match_repository_observations equal plan.checks result.checks
          ≡ returned (enumerated 0 result.checks))
execute_repository_plan-match_repository_observations equal reflexive show workspaces verify
      helpers_changed plan safe h =
    let (result, e, complete) =
      execute_repository_plan-IsComplete show workspaces verify helpers_changed plan safe h in
    (
      result,
      e,
      ap (λ checks. match_repository_observations equal checks result.checks)
            (sym complete.in_order)
          ∙ match-enumerated equal reflexive result.checks,
    )
