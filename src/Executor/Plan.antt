-- ===== src/Executor/Plan.antt =====
-- repository_executor.py: what `execute_repository_plan` returns, from how the loop over its Checks goes.
use pyrepo_check.Base.{
  String, ◌≡◌, refl, sym, ◌∙◌, Bool, true, false, Option, none, some, List, [], ◌∷◌, map, nat_eq,
  string_eq, bool_eq, All, returned,
}
use mathlib.Core.Bool.{false≢true}
use pyrepo_check.Base.Int.{ℤ}
use pyrepo_check.Planning.{CheckInvocation, RunPlan}
use pyrepo_check.Execution.{
  DependencyObservation, RepositoryCheckObservation, EnvironmentFailureObservation,
  RepositoryEnvironmentObservation,
}
use pyrepo_check.Executor.{WorkspaceRun}
use pyrepo_check.Executor.Checks.{
  unavailable, Executed, RepositoryVerificationResult, Prepared, RepositoryExecutionResult, either,
  with_error, verified, executed, observed_error, execute_repository_plan,
}
use pyrepo_check.Executor.Checks.Laws.{
  IsExecutable, Ran, Tracks, finished, ran, lost, stopped, invocations-unavailable,
  execute_checks-Tracks, Tracks-invocations,
}

module _ (show : ℤ → String) (workspaces : CheckInvocation → WorkspaceRun)
    (verify : Option (List String) → RepositoryVerificationResult) (helpers_changed : Bool) where
  -- The loop's observations, one for each Check
  abbrev pub AllRan :
      List DependencyObservation → List CheckInvocation → List RepositoryCheckObservation → Type 0
  AllRan dependencies [] [] = Unit
  AllRan dependencies [] (o ∷ os) = ⊥
  AllRan dependencies (c ∷ cs) [] = ⊥
  AllRan dependencies (c ∷ cs) (o ∷ os) =
      Ran show workspaces dependencies c o × AllRan dependencies cs os

  Tracks-AllRan :
      {dependencies : List DependencyObservation} {checks : List CheckInvocation}
      {result : Executed}
      → Tracks show workspaces dependencies checks result
      → result.1 ≡ none
      → AllRan dependencies checks result.0
  Tracks-AllRan finished e = tt
  Tracks-AllRan (ran observation same run t) e = (run, Tracks-AllRan t e)
  Tracks-AllRan (lost outcome x p) e = cc
  Tracks-AllRan (stopped observation error p same run x) e = cc

  either-none : (a b : Option EnvironmentFailureObservation) → either a b ≡ none → b ≡ none
  either-none none b e = e
  either-none (some a) b e = cc

  verified-clear :
      (plan : RunPlan) (has_baseline : Bool) (observation : RepositoryEnvironmentObservation)
      → (verified show workspaces verify helpers_changed plan has_baseline observation).error ≡ none
      → observation.error ≡ none
  unfolding verified with_error
  verified-clear plan false observation e = e
  verified-clear plan true observation e = either-none _ observation.error (either-none _ _ e)

  observed_error-clear :
      (observation : RepositoryEnvironmentObservation)
      (error : Option EnvironmentFailureObservation)
      → (observed_error show workspaces verify helpers_changed observation error).error ≡ none
      → error ≡ none
  unfolding with_error
  observed_error-clear observation none e = refl
  observed_error-clear observation (some error) e = cc

  -- What a returned result says of the Checks of a plan, `error` being that of the loop.
  pub record IsComplete (plan : RunPlan) (safe : Prepared) (result : RepositoryExecutionResult)
      : Type 0 where
    pub in_order :
        map (λ (o : RepositoryCheckObservation). o.invocation) result.checks ≡ plan.checks
    pub unprepared : safe.is_prepared ≡ false → result.checks ≡ map unavailable plan.checks
    pub tracked :
        safe.is_prepared ≡ true
        → (error : Option EnvironmentFailureObservation) × Tracks show workspaces
            safe.observation.dependencies plan.checks
            (result.checks, error)
    pub all_ran :
        safe.is_prepared ≡ true
        → result.repository_environment.error ≡ none
        → AllRan safe.observation.dependencies plan.checks result.checks

  abbrev result_of : RunPlan → Prepared → Executed → RepositoryExecutionResult
  result_of plan safe result = record {
    repository_environment =
        verified show workspaces verify helpers_changed plan safe.has_baseline
          (observed_error show workspaces verify helpers_changed safe.observation result.1);
    checks = result.0;
  }

  executed-IsComplete :
      (plan : RunPlan) (safe : Prepared) (is_prepared : Bool)
      → safe.is_prepared ≡ is_prepared
      → All (IsExecutable safe.observation.dependencies) plan.checks
      → (result : Executed) × (executed show workspaces verify helpers_changed plan safe is_prepared
          ≡ returned result)
        × IsComplete plan safe (result_of plan safe result)
  executed-IsComplete plan safe false p h = (
    (map unavailable plan.checks, none),
    refl,
    record {
      in_order = invocations-unavailable plan.checks;
      unprepared = λ q. refl;
      tracked = λ q. absurd (false≢true (sym p ∙ q));
      all_ran = λ q. absurd (false≢true (sym p ∙ q));
    },
  )
  executed-IsComplete plan safe true p h =
      let (result, e, t) =
        execute_checks-Tracks show workspaces safe.observation.dependencies plan.checks h in
      (
        result,
        e,
        record {
          in_order = Tracks-invocations show workspaces safe.observation.dependencies t;
          unprepared = λ q. absurd (false≢true (sym q ∙ p));
          tracked = λ q. (result.1, t);
          all_ran = λ q clear. Tracks-AllRan t (
              observed_error-clear safe.observation result.1 (
                verified-clear plan safe.has_baseline
                  (observed_error show workspaces verify helpers_changed safe.observation result.1)
                  clear));
        },
      )

  pub execute_repository_plan-IsComplete :
      (plan : RunPlan) (safe : Prepared)
      → All (IsExecutable safe.observation.dependencies) plan.checks
      → (result : RepositoryExecutionResult) × (execute_repository_plan show workspaces verify
            helpers_changed plan safe
          ≡ returned result)
        × IsComplete plan safe result
  unfolding execute_repository_plan
  execute_repository_plan-IsComplete plan safe h =
      let (result, e, complete) = executed-IsComplete plan safe safe.is_prepared refl h in
      (result_of plan safe result, rw e refl, complete)
