-- ===== src/Executor/Workspace/Laws.antt =====
-- Whatever happens in a workspace, what is observed is the Check that was asked for.
use pyrepo_check.Base.{
  String, ◌≡◌, refl, Option, none, some, List, [], ◌∷◌, ◌++◌, nat_eq, string_eq, bool_eq, Outcome,
  returned, raised, ◌>>=◌, ◌>>◌,
}
use pyrepo_check.Base.Int.{ℤ}
use pyrepo_check.Planning.{CheckInvocation, PytestExecutionPlan}
use pyrepo_check.Execution.{
  DependencyObservation, ExecutedProcess, CheckStartObservation, RepositoryCheckObservation,
}
use pyrepo_check.Executor.{
  Fault, platform_safety_error, controller_helper_identity_error, os_error, Raised, identity_lost,
  assertion_error, LauncherRun, PreparedPytestExecution, WorkspaceRun, check_failure,
}
use pyrepo_check.Executor.Workspace.{
  refused_start, started_observation, prepared_invocation, spawned, execute_invocation,
  pytest_observation, Failure, fault, failed_assertion, faulty, passing, dispatched, attempt,
  settled, cleanup_diagnostics, conclude, in_workspace, execute_in_workspace,
}

-- The observation, if there is one, is of this invocation, and no assertion has failed.
abbrev pub IsOf : CheckInvocation → Outcome Raised RepositoryCheckObservation → Type 0
IsOf invocation (returned observation) = observation.invocation ≡ invocation
IsOf invocation (raised identity_lost) = Unit
IsOf invocation (raised assertion_error) = ⊥

abbrev IsFailureOf : CheckInvocation → Outcome Failure RepositoryCheckObservation → Type 0
IsFailureOf invocation (returned observation) = observation.invocation ≡ invocation
IsFailureOf invocation (raised (fault f)) = Unit
IsFailureOf invocation (raised failed_assertion) = ⊥

-- A pytest Check comes with the observation of its dependency.
abbrev pub IsProvided : Option PytestExecutionPlan → Option DependencyObservation → Type 0
IsProvided none dependency = Unit
IsProvided (some plan) none = ⊥
IsProvided (some plan) (some dependency) = Unit

module _ (show : ℤ → String) (invocation : CheckInvocation) where
  started-invocation :
      (process : ExecutedProcess) (start : Outcome String CheckStartObservation)
      → (started_observation show invocation process start).invocation ≡ invocation
  unfolding started_observation refused_start
  started-invocation process (raised marker_error) = refl
  started-invocation process (returned start) = refl

  spawned-invocation :
      (run : LauncherRun) (spawn_error : Option String)
      → (spawned show invocation run spawn_error).invocation ≡ invocation
  unfolding refused_start
  spawned-invocation run (some error) = refl
  spawned-invocation run none = started-invocation run.process run.start

  prepared-invocation :
      (run : LauncherRun) (unprepared : Option String)
      → (prepared_invocation show invocation run unprepared).invocation ≡ invocation
  unfolding check_failure
  prepared-invocation run (some error) = refl
  prepared-invocation run none = spawned-invocation run run.process.spawn_error

  invoked-IsFailureOf :
      (invoked : Outcome Fault LauncherRun)
      → IsFailureOf invocation
          (faulty invoked >>= λ launched. returned (execute_invocation show invocation launched))
  unfolding execute_invocation
  invoked-IsFailureOf (raised f) = tt
  invoked-IsFailureOf (returned run) = prepared-invocation run run.unprepared

  pytest-IsFailureOf :
      (executed : Outcome Fault PreparedPytestExecution)
      → IsFailureOf invocation
          (faulty executed >>= λ prepared. returned (pytest_observation show invocation prepared))
  unfolding pytest_observation
  pytest-IsFailureOf (raised f) = tt
  pytest-IsFailureOf (returned prepared) = refl

  dispatched-IsFailureOf :
      (dependency : Option DependencyObservation) (run : WorkspaceRun)
      (plan : Option PytestExecutionPlan)
      → IsProvided plan dependency
      → IsFailureOf invocation (dispatched show invocation dependency run plan)
  dispatched-IsFailureOf dependency run none p = invoked-IsFailureOf run.invoked
  dispatched-IsFailureOf (some dependency) run (some plan) p =
      pytest-IsFailureOf run.pytest_executed
  dispatched-IsFailureOf none run (some plan) p = absurd p

  passing-IsFailureOf :
      (check : Option Fault) (rest : Outcome Failure RepositoryCheckObservation)
      → IsFailureOf invocation rest
      → IsFailureOf invocation (passing check >> rest)
  passing-IsFailureOf none rest h = h
  passing-IsFailureOf (some f) rest h = tt

  attempt-IsFailureOf :
      (dependency : Option DependencyObservation) (run : WorkspaceRun)
      → IsProvided invocation.pytest dependency
      → IsFailureOf invocation (attempt show invocation dependency run)
  unfolding attempt
  attempt-IsFailureOf dependency run p =
      passing-IsFailureOf run.opened _ (
        passing-IsFailureOf run.staged _
          (dispatched-IsFailureOf dependency run invocation.pytest p))

  conclude-invocation :
      (observation : RepositoryCheckObservation) (diagnostics : List String)
      → observation.invocation ≡ invocation
      → (conclude show invocation (some observation) diagnostics).invocation ≡ invocation
  unfolding conclude
  conclude-invocation observation [] h = h
  conclude-invocation observation (d ∷ ds) h = h

  settled-IsOf :
      (run : WorkspaceRun) (attempted : Outcome Failure RepositoryCheckObservation)
      → IsFailureOf invocation attempted
      → IsOf invocation (
          settled show invocation attempted
          >>= λ (state : Option RepositoryCheckObservation × List String).
              returned (conclude show invocation state.0 (state.1 ++ cleanup_diagnostics show run)))
  unfolding settled check_failure conclude
  settled-IsOf run (returned observation) h =
      conclude-invocation observation (cleanup_diagnostics show run) h
  settled-IsOf run (raised (fault (platform_safety_error details))) h =
      conclude-invocation (check_failure invocation _ _) (cleanup_diagnostics show run) refl
  settled-IsOf run (raised (fault controller_helper_identity_error)) h = tt
  settled-IsOf run (raised (fault (os_error error))) h = refl
  settled-IsOf run (raised failed_assertion) h = absurd h

  in_workspace-IsOf :
      (dependency : Option DependencyObservation) (run : WorkspaceRun) (created : Option Fault)
      → IsProvided invocation.pytest dependency
      → IsOf invocation (in_workspace show invocation dependency run created)
  unfolding in_workspace check_failure
  in_workspace-IsOf dependency run (some (platform_safety_error details)) p = refl
  in_workspace-IsOf dependency run (some controller_helper_identity_error) p = tt
  in_workspace-IsOf dependency run (some (os_error error)) p = refl
  in_workspace-IsOf dependency run none p =
      settled-IsOf run (attempt show invocation dependency run)
        (attempt-IsFailureOf dependency run p)

  -- The observation of a Check is of its own invocation, and no assertion fails if a pytest Check
  -- comes with the observation of its dependency.
  pub execute_in_workspace-IsOf :
      (dependency : Option DependencyObservation) (run : WorkspaceRun)
      → IsProvided invocation.pytest dependency
      → IsOf invocation (execute_in_workspace show invocation dependency run)
  unfolding execute_in_workspace
  execute_in_workspace-IsOf dependency run p = in_workspace-IsOf dependency run run.created p
