-- ===== src/Executor/Checks/Laws.antt =====
-- Each Check of a plan is observed once and in order, and none is left out unless an error is reported.
use pyrepo_check.Base.{
  String, ◌≡◌, ◌≢◌, ◌∙◌, refl, sym, ap, inl, inr, Bool, true, false, Option, none, some, List, [],
  ◌∷◌, map, ◌==◌, nat_eq, string_eq, bool_eq, is_some, Bool-cases, All, Outcome, returned, raised,
}
use mathlib.Core.Path.{subst}
use mathlib.Core.Bool.{false≢true}
use pyrepo_check.Base.Int.{ℤ}
use pyrepo_check.Planning.{CheckName, PytestExecutionPlan, CheckInvocation}
use pyrepo_check.Planning.Names.{name_eq}
use pyrepo_check.Execution.{
  DependencyStatus, DependencyObservation, RepositoryCheckObservation,
  EnvironmentFailureObservation,
}
use pyrepo_check.Environment.Dependencies.{dependency_eq, dependency_name_for_check}
use pyrepo_check.Executor.{
  Raised, identity_lost, assertion_error, WorkspaceRun, check_failure,
  controller_helper_identity_failure,
}
use pyrepo_check.Executor.Workspace.{execute_in_workspace}
use pyrepo_check.Executor.Workspace.Laws.{IsOf, IsProvided, execute_in_workspace-IsOf}
use pyrepo_check.Executor.Checks.Lookup.{
  Latest, lookup-Latest, status-available, status-unavailable,
}
use pyrepo_check.Executor.Checks.{
  ExecutorException, lookup, unavailable, status_is_available, unavailable_dependency, Executed,
  with_observation, continued, observed, turn, execute_checks,
}

pub invocations-unavailable :
    (checks : List CheckInvocation)
    → map (λ (o : RepositoryCheckObservation). o.invocation) (map unavailable checks) ≡ checks
unfolding unavailable check_failure
invocations-unavailable [] = refl
invocations-unavailable (check ∷ checks) = ap (λ cs. check ∷ cs) (invocations-unavailable checks)

-- Only a pytest Check carries a pytest plan, and the dependency of each Check is among those observed.
abbrev pub IsExecutable : List DependencyObservation → CheckInvocation → Type 0
IsExecutable dependencies check =
    ((check.name == CheckName.pytest) ≡ false → check.pytest ≡ none)
    × (is_some (lookup dependencies (dependency_name_for_check check.name)) ≡ true)

module _ (show : ℤ → String) (workspaces : CheckInvocation → WorkspaceRun)
    (dependencies : List DependencyObservation) where
  -- What the loop does with a Check and the latest dependency of its name: pytest is executed in its
  -- workspace with the dependency, whatever its status; another Check is executed there without it,
  -- exactly if the dependency is available.
  pub data Executes (check : CheckInvocation)
      : Outcome Raised RepositoryCheckObservation → Type 0 where
    tested :
        (dependency : DependencyObservation)
        → check.name ≡ CheckName.pytest
        → Latest (dependency_name_for_check check.name) dependencies dependency
        → Executes check (execute_in_workspace show check (some dependency) (workspaces check))
    checked :
        (dependency : DependencyObservation)
        → check.name ≢ CheckName.pytest
        → Latest (dependency_name_for_check check.name) dependencies dependency
        → dependency.status ≡ DependencyStatus.available
        → Executes check (execute_in_workspace show check none (workspaces check))
    without_dependency :
        (dependency : DependencyObservation)
        → check.name ≢ CheckName.pytest
        → Latest (dependency_name_for_check check.name) dependencies dependency
        → dependency.status ≢ DependencyStatus.available
        → Executes check (returned (unavailable_dependency check dependency))

  -- The observation is what the loop gets for the Check.
  abbrev pub Ran : CheckInvocation → RepositoryCheckObservation → Type 0
  Ran check observation =
      (outcome : Outcome Raised RepositoryCheckObservation) × Executes check outcome
      × (outcome ≡ returned observation)

  -- How the loop goes: it runs the Checks one after another to the end, or until the identity of a
  -- helper is lost or pytest reports an error of the environment; from then on every Check is
  -- unavailable.
  pub data Tracks : List CheckInvocation → Executed → Type 0 where
    finished : Tracks [] ([], none)
    ran :
        {check : CheckInvocation} {checks : List CheckInvocation} {executed : Executed}
        (observation : RepositoryCheckObservation)
        → observation.invocation ≡ check
        → Ran check observation
        → Tracks checks executed
        → Tracks (check ∷ checks) (observation ∷ executed.0, executed.1)
    lost :
        {check : CheckInvocation} {checks : List CheckInvocation}
        (outcome : Outcome Raised RepositoryCheckObservation)
        → Executes check outcome
        → outcome ≡ raised identity_lost
        → Tracks
            (check ∷ checks)
            (map unavailable (check ∷ checks), some controller_helper_identity_failure)
    stopped :
        {check : CheckInvocation} {checks : List CheckInvocation}
        (observation : RepositoryCheckObservation) (error : EnvironmentFailureObservation)
        → check.name ≡ CheckName.pytest
        → observation.invocation ≡ check
        → Ran check observation
        → observation.environment_error ≡ some error
        → Tracks (check ∷ checks) (observation ∷ map unavailable checks, some error)

  abbrev Result : List CheckInvocation → Outcome ExecutorException Executed → Type 0
  Result checks outcome =
      (executed : Executed) × (outcome ≡ returned executed) × Tracks checks executed

  with_observation-Result :
      (check : CheckInvocation) (checks : List CheckInvocation)
      (observation : RepositoryCheckObservation) (later : Outcome ExecutorException Executed)
      → observation.invocation ≡ check
      → Ran check observation
      → Result checks later
      → Result (check ∷ checks) (with_observation observation later)
  with_observation-Result check checks observation later same run (executed, e, t) =
      ((observation ∷ executed.0, executed.1), rw e refl, ran observation same run t)

  continued-Result :
      (error : Option EnvironmentFailureObservation) (check : CheckInvocation)
      (checks : List CheckInvocation) (observation : RepositoryCheckObservation)
      (later : Outcome ExecutorException Executed)
      → check.name ≡ CheckName.pytest
      → observation.invocation ≡ check
      → Ran check observation
      → observation.environment_error ≡ error
      → Result checks later
      → Result (check ∷ checks) (continued error observation checks later)
  continued-Result none check checks observation later p same run e r =
      with_observation-Result check checks observation later same run r
  continued-Result (some error) check checks observation later p same run e r = (
    (observation ∷ map unavailable checks, some error),
    refl,
    stopped observation error p same run e,
  )

  observed-Result :
      (stops : Bool) (check : CheckInvocation) (checks : List CheckInvocation)
      (outcome : Outcome Raised RepositoryCheckObservation)
      (later : Outcome ExecutorException Executed)
      → (stops ≡ true → check.name ≡ CheckName.pytest)
      → Executes check outcome
      → IsOf check outcome
      → Result checks later
      → Result (check ∷ checks) (observed show workspaces stops check checks outcome later)
  unfolding observed
  observed-Result stops check checks (raised identity_lost) later p e h r = (
    (map unavailable (check ∷ checks), some controller_helper_identity_failure),
    refl,
    lost _ e refl,
  )
  observed-Result stops check checks (raised assertion_error) later p e h r = absurd h
  observed-Result false check checks (returned observation) later p e h r =
      with_observation-Result check checks observation later h (returned observation, e, refl) r
  observed-Result true check checks (returned observation) later p e h r =
      continued-Result observation.environment_error check checks observation later (p refl) h
        (returned observation, e, refl) refl r

  turn-Result :
      (check : CheckInvocation) (checks : List CheckInvocation)
      (dependency : Option DependencyObservation) (later : Outcome ExecutorException Executed)
      → lookup dependencies (dependency_name_for_check check.name) ≡ dependency
      → ((check.name == CheckName.pytest) ≡ false → check.pytest ≡ none)
      → is_some dependency ≡ true
      → Result checks later
      → Result (check ∷ checks) (turn show workspaces check checks dependency later)
  unfolding turn unavailable_dependency
  turn-Result check checks none later found plain known r = cc
  turn-Result check checks (some dependency) later found plain known r =
      let last =
        lookup-Latest (dependency_name_for_check check.name) dependencies dependency found in
      elim (Bool-cases (check.name == CheckName.pytest)) [
        | inl is_pytest ↦
            let pytest_path : check.name ≡ CheckName.pytest =
              (name_eq.beq_exact check.name CheckName.pytest).0 is_pytest in
            rw is_pytest (
              observed-Result true check checks
                (execute_in_workspace show check (some dependency) (workspaces check)) later
                (λ t. pytest_path) (tested dependency pytest_path last)
                (execute_in_workspace-IsOf show check (some dependency) (workspaces check)
                  (provided check.pytest))
                r)
        | inr other ↦
            let other_path : check.name ≢ CheckName.pytest =
              λ e. false≢true (sym other ∙ (name_eq.beq_exact check.name CheckName.pytest).1 e) in
            elim (Bool-cases (status_is_available dependency.status)) [
              | inl usable ↦
                  rw (other, usable)
                    (observed-Result false check checks
                      (execute_in_workspace show check none (workspaces check)) later
                      (λ t. absurd (false≢true t))
                      (checked dependency other_path last
                        (status-available dependency.status usable))
                      (execute_in_workspace-IsOf show check none (workspaces check)
                        (subst (λ plan. IsProvided plan none) (sym (plain other)) tt))
                      r)
              | inr unusable ↦
                  rw (other, unusable)
                    (with_observation-Result check checks (unavailable_dependency check dependency)
                      later refl
                      (
                        returned (unavailable_dependency check dependency),
                        without_dependency dependency other_path last
                            (status-unavailable dependency.status unusable),
                        refl,
                      )
                      r)
            ]
      ]
    where
      provided : (plan : Option PytestExecutionPlan) → IsProvided plan (some dependency)
      provided none = tt
      provided (some plan) = tt

  pub execute_checks-Tracks :
      (checks : List CheckInvocation)
      → All (IsExecutable dependencies) checks
      → Result checks (execute_checks show workspaces dependencies checks)
  unfolding execute_checks
  execute_checks-Tracks [] h = (([], none), refl, finished)
  execute_checks-Tracks (check ∷ checks) ((plain, known), h) =
      turn-Result check checks (lookup dependencies (dependency_name_for_check check.name))
        (execute_checks show workspaces dependencies checks) refl plain known
        (execute_checks-Tracks checks h)

  pub Tracks-invocations :
      {checks : List CheckInvocation} {executed : Executed}
      → Tracks checks executed
      → map (λ (o : RepositoryCheckObservation). o.invocation) executed.0 ≡ checks
  Tracks-invocations finished = refl
  Tracks-invocations (ran observation same run t) = rw (same, Tracks-invocations t) refl
  Tracks-invocations (lost outcome e p) = invocations-unavailable _
  Tracks-invocations (stopped observation error p same run e) =
      rw (same, invocations-unavailable _) refl
