-- ===== src/Executor/Checks.antt =====
-- repository_executor.py: the loop over the Checks of a plan, and the verification after it.
pub mod Laws
pub mod Lookup
use pyrepo_check.Base.{
  ℕ, zero, suc, ◌+◌, ◌-◌, ◌*◌, ◌/◌, ◌%◌, ◌≤◌, ◌<◌, code, String, ◌<>◌, ◌≡◌, refl, sym, ap, ◌∙◌, ◌≢◌,
  ◌↔◌, ◌⊎◌, inl, inr, Bool, true, false, not, ◌&&◌, ◌||◌, Option, none, some, List, [], ◌∷◌, ◌++◌,
  map, arith, eq_iff, ltb, leb, if◌then◌else◌, Eq, ◌==◌, ◌!=◌, nat_eq, string_eq, bool_eq, is_none,
  is_some, or_else, Bool-cases, Option-cases, &&-eq-true, ||-false, ==_refl, ==_sym, length, take,
  drop, is_empty, all, any, keep, first, length-append, length-drop, is_empty-eq-true, All,
  length-map, All-of_keep-nil, All-map, contains, contains-keep, subset, distinct, lists_equal,
  Outcome, returned, raised, ◌>>=◌, ◌>>◌, require, refuse, >>=-eq-returned, refuse-eq-returned,
  refuse-returned, returned-injective, if_is_empty-returned, >>=-cong, Outcome-cases, traverse,
  starts_with,
}
use pyrepo_check.Base.Int.{ℤ}
use pyrepo_check.Planning.{CheckName, CheckInvocation, RunPlan, annotations_fix}
use pyrepo_check.Planning.Names.{name_eq}
use pyrepo_check.Execution.{
  DependencyName, DependencyStatus, available, DependencyObservation, CheckExecutionFailure,
  check_dependency_unusable, repository_environment_unavailable, RepositoryCheckObservation,
  ExecutedProcess, EnvironmentFailureObservation, RepositoryEnvironmentObservation,
  MutationProtection,
}
use pyrepo_check.Environment.Dependencies.{dependency_eq, dependency_name_for_check}
use pyrepo_check.Environment.Dependencies.Observation.{dependency_text}
use pyrepo_check.Executor.{
  Raised, identity_lost, assertion_error, WorkspaceRun, check_failure,
  controller_helper_identity_failure,
}
use pyrepo_check.Executor.Workspace.{execute_in_workspace}

-- What may leave `execute_repository_plan`: a missing key of `dependencies`, or a failed assertion.
pub data ExecutorException : Type 0 where
  key_error : DependencyName → ExecutorException
  failed_assertion : ExecutorException

-- `dependencies.get(name)`: a later item of the dict comprehension replaces an earlier one.
unfoldable pub lookup : List DependencyObservation → DependencyName → Option DependencyObservation
lookup [] name = none
lookup (dependency ∷ rest) name =
    let later = lookup rest name in
    if is_some later then later else if dependency.name == name then some dependency else none

unfoldable pub unavailable : CheckInvocation → RepositoryCheckObservation
unavailable invocation =
    check_failure invocation repository_environment_unavailable
      "Repository Environment is unavailable for this Check."

abbrev status_is_available : DependencyStatus → Bool
status_is_available available = true
status_is_available other = false

unfoldable pub dependency_failure : DependencyObservation → CheckExecutionFailure
dependency_failure dependency = or_else dependency.error (record {
  code = check_dependency_unusable;
  message = "Repository dependency " <> dependency_text dependency.name <> " is unavailable.";
  hint = none;
})

unfoldable pub unavailable_dependency :
    CheckInvocation → DependencyObservation → RepositoryCheckObservation
unavailable_dependency invocation dependency = record {
  invocation = invocation;
  execution_environment = none;
  analysis_python_authority = none;
  start = none;
  processes = [];
  error = some (dependency_failure dependency);
  pytest = none;
  coverage = none;
  environment_error = none;
}

-- The observations and the error of the environment that the loop adds
abbrev pub Executed : Type 0
Executed = List RepositoryCheckObservation × Option EnvironmentFailureObservation

abbrev pub with_observation :
    RepositoryCheckObservation
    → Outcome ExecutorException Executed
    → Outcome ExecutorException Executed
with_observation observation later =
    later >>= λ (executed : Executed). returned (observation ∷ executed.0, executed.1)

-- An environment error ends the loop after this observation.
abbrev pub continued :
    Option EnvironmentFailureObservation
    → RepositoryCheckObservation
    → List CheckInvocation
    → Outcome ExecutorException Executed
    → Outcome ExecutorException Executed
continued none observation rest later = with_observation observation later
continued (some error) observation rest later =
    returned (observation ∷ map unavailable rest, some error)

module _ (show : ℤ → String) (workspaces : CheckInvocation → WorkspaceRun) where
  -- What one turn of the loop takes from its workspace: `stops` is whether the environment error of
  -- the observation ends the loop, as it does for pytest only.
  unfoldable pub observed :
      Bool
      → CheckInvocation
      → List CheckInvocation
      → Outcome Raised RepositoryCheckObservation
      → Outcome ExecutorException Executed
      → Outcome ExecutorException Executed
  observed stops invocation rest (raised identity_lost) later =
      returned (map unavailable (invocation ∷ rest), some controller_helper_identity_failure)
  observed stops invocation rest (raised assertion_error) later = raised failed_assertion
  observed false invocation rest (returned observation) later = with_observation observation later
  observed true invocation rest (returned observation) later =
      continued observation.environment_error observation rest later

  unfoldable pub turn :
      CheckInvocation
      → List CheckInvocation
      → Option DependencyObservation
      → Outcome ExecutorException Executed
      → Outcome ExecutorException Executed
  turn invocation rest none later = raised (key_error (dependency_name_for_check invocation.name))
  turn invocation rest (some dependency) later =
      if invocation.name == CheckName.pytest
      then observed true invocation rest
          (execute_in_workspace show invocation (some dependency) (workspaces invocation)) later
      else if not (status_is_available dependency.status)
      then with_observation (unavailable_dependency invocation dependency) later
      else observed false invocation rest
          (execute_in_workspace show invocation none (workspaces invocation)) later

  -- The loop of `execute_repository_plan` over the Checks of a prepared plan
  unfoldable pub execute_checks :
      List DependencyObservation → List CheckInvocation → Outcome ExecutorException Executed
  execute_checks dependencies [] = returned ([], none)
  execute_checks dependencies (invocation ∷ rest) =
      let later = execute_checks dependencies rest in
      turn invocation rest (lookup dependencies (dependency_name_for_check invocation.name)) later

pub record RepositoryVerificationResult : Type 0 where
  pub processes : List ExecutedProcess
  pub mutation_protection : MutationProtection
  pub error : Option EnvironmentFailureObservation

-- What `execute_repository_plan` starts from, and ends with: whether an environment was prepared,
-- whether there is a baseline, and the observation of the environment.
pub record Prepared : Type 0 where
  pub is_prepared : Bool
  pub has_baseline : Bool
  pub observation : RepositoryEnvironmentObservation

pub record RepositoryExecutionResult : Type 0 where
  pub repository_environment : RepositoryEnvironmentObservation
  pub checks : List RepositoryCheckObservation

-- `a or b` on optional values that are never falsy
abbrev pub either {ℓ} : {A : Type ℓ} → Option A → Option A → Option A
either none b = b
either (some a) b = some a

unfoldable pub with_error :
    RepositoryEnvironmentObservation
    → List ExecutedProcess
    → MutationProtection
    → Option EnvironmentFailureObservation
    → RepositoryEnvironmentObservation
with_error observation processes mutation_protection error = record {
  manager_version = observation.manager_version;
  path = observation.path;
  python_selection = observation.python_selection;
  python = observation.python;
  lock_path = observation.lock_path;
  lock_status = observation.lock_status;
  mutation_protection = mutation_protection;
  dependencies = observation.dependencies;
  processes = processes;
  error = error;
}

-- The targets that the final verification lets annotations-fix change
unfoldable pub annotations_fix_targets : List CheckInvocation → Option (List String)
annotations_fix_targets checks =
    elim (first (λ (check : CheckInvocation). check.name == annotations_fix) checks) [
      | none ↦ none
      | some check ↦ some check.targets
    ]

module _ (show : ℤ → String) (workspaces : CheckInvocation → WorkspaceRun)
    (verify : Option (List String) → RepositoryVerificationResult) (helpers_changed : Bool) where
  -- The `finally` of `execute_repository_plan`
  unfoldable pub verified :
      RunPlan → Bool → RepositoryEnvironmentObservation → RepositoryEnvironmentObservation
  verified plan false observation = observation
  verified plan true observation =
      let verification = verify (annotations_fix_targets plan.checks) in
      with_error observation (observation.processes ++ verification.processes)
        verification.mutation_protection
        (either (if helpers_changed then some controller_helper_identity_failure else none)
          (either verification.error observation.error))

  abbrev pub executed : RunPlan → Prepared → Bool → Outcome ExecutorException Executed
  executed plan safe false = returned (map unavailable plan.checks, none)
  executed plan safe true = execute_checks show workspaces safe.observation.dependencies plan.checks

  abbrev pub observed_error :
      RepositoryEnvironmentObservation
      → Option EnvironmentFailureObservation
      → RepositoryEnvironmentObservation
  observed_error observation none = observation
  observed_error observation (some error) =
      with_error observation observation.processes observation.mutation_protection (some error)

  -- `execute_repository_plan`, once `prepare_safe_repository` has returned
  unfoldable pub execute_repository_plan :
      RunPlan → Prepared → Outcome ExecutorException RepositoryExecutionResult
  execute_repository_plan plan safe = executed plan safe safe.is_prepared >>= λ (result : Executed).
      returned (record {
        repository_environment =
            verified plan safe.has_baseline (observed_error safe.observation result.1);
        checks = result.0;
      })
