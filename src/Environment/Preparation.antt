-- ===== src/Environment/Preparation.antt =====
-- repository_environment.py: the preparation of the repository's environment by uv. What the file
-- system and the two processes do is in the record `PreparationRun`.
pub mod Laws
pub mod Ready
use pyrepo_check.Base.{
  ℕ, zero, suc, ◌+◌, ◌-◌, ◌*◌, ◌/◌, ◌%◌, ◌≤◌, ◌<◌, code, String, ◌<>◌, ◌≡◌, refl, sym, ap, ◌∙◌, ◌≢◌,
  ◌↔◌, ◌⊎◌, inl, inr, Bool, true, false, not, ◌&&◌, ◌||◌, Option, none, some, List, [], ◌∷◌, ◌++◌,
  map, arith, eq_iff, ltb, leb, if◌then◌else◌, Eq, ◌==◌, ◌!=◌, nat_eq, string_eq, bool_eq, is_none,
  is_some, or_else, Bool-cases, Option-cases, &&-eq-true, ||-false, ==_refl, ==_sym, length, take,
  drop, is_empty, all, any, keep, first, length-append, length-drop, is_empty-eq-true, All,
  length-map, All-of_keep-nil, All-map, contains, contains-keep, subset, distinct, lists_equal,
  Outcome, returned, raised, ◌>>=◌, ◌>>◌, require, refuse, >>=-eq-returned, refuse-eq-returned,
  refuse-returned, returned-injective, if_is_empty-returned, >>=-cong, Outcome-cases, traverse,
  starts_with,
}
use pyrepo_check.Base.Int.{ℤ, pos, int_eq}
use pyrepo_check.Planning.{RepositoryPythonSelection, RunPlan}
use pyrepo_check.Execution.{
  ExecutedProcess, CapturedBytes, LockStatus, MutationProtection, EnvironmentErrorCode,
  EnvironmentFailureObservation, PythonObservation, RepositoryEnvironmentObservation,
}
use pyrepo_check.Environment.Dependencies.Observation.{complete_stdout, exited_with_zero}

-- The `state` of `RepositoryLockPresence`
pub data LockState : Type 0 where
  missing present unsafe : LockState

pub record ParsedEnvironmentProbe : Type 0 where
  pub python : PythonObservation
  pub environment_root : String

-- Without `child_environment` and `controller_uv`
pub record PreparedRepositoryEnvironment : Type 0 where
  pub root : String
  pub path : String
  pub python : PythonObservation
  pub python_selection : RepositoryPythonSelection
  pub manager_version : String

pub record RepositoryPreparation : Type 0 where
  pub prepared : Option PreparedRepositoryEnvironment
  pub observation : RepositoryEnvironmentObservation

-- `invalid_presence` is what `_validate_lock_presence` returns and `storage_error` what
-- `validate_uv_storage_boundaries` does; uv is there, and unchanged at its first and second use.
-- `version_of` is the match of uv's output, `parse_probe` is `_parse_environment_probe` and
-- `probe_error` is `_validate_environment_probe`.
pub record PreparationRun : Type 0 where
  pub lock_path : String
  pub lock_state : LockState
  pub invalid_presence : Option EnvironmentFailureObservation
  pub storage_error : Option EnvironmentFailureObservation
  pub has_uv : Bool
  pub uv_changed : Bool
  pub uv_process : ExecutedProcess
  pub version_of : List ℕ → Outcome String String
  pub uv_changed_again : Bool
  pub probe_process : ExecutedProcess
  pub parse_probe : ExecutedProcess → Outcome EnvironmentFailureObservation ParsedEnvironmentProbe
  pub probe_error : ParsedEnvironmentProbe → Option EnvironmentFailureObservation

abbrev failure_of : EnvironmentErrorCode → String → String → EnvironmentFailureObservation
failure_of code message hint = record { code = code; message = message; hint = some hint }

-- `_invalid_evidence`
abbrev invalid_evidence : String → EnvironmentFailureObservation
invalid_evidence message =
    failure_of EnvironmentErrorCode.environment_evidence_invalid message
      "Retry with a supported uv executable and an unchanged locked repository."

-- `_repository_environment_failed`
abbrev repository_environment_failed : String → EnvironmentFailureObservation
repository_environment_failed message =
    failure_of EnvironmentErrorCode.repository_environment_failed message
      "Run uv lock --check and repair the lock outside pyrepo-check, then retry."

module _ (limit : ℕ) (plan : RunPlan) (run : PreparationRun) where
  -- `_failed_preparation`
  unfoldable pub failed_preparation :
      LockStatus
      → EnvironmentFailureObservation
      → Option String
      → Option ParsedEnvironmentProbe
      → List ExecutedProcess
      → RepositoryPreparation
  failed_preparation lock_status error manager_version probe processes = record {
    prepared = none;
    observation = record {
      manager_version = manager_version;
      path = elim probe [ none ↦ none | some parsed ↦ some parsed.environment_root ];
      python_selection = plan.repository_python;
      python = elim probe [ none ↦ none | some parsed ↦ some parsed.python ];
      lock_path = run.lock_path;
      lock_status = lock_status;
      mutation_protection = MutationProtection.unobserved;
      dependencies = [];
      processes = processes;
      error = some error;
    };
  }

  abbrev told : Outcome String String → Outcome EnvironmentFailureObservation String
  told (returned version) = returned version
  told (raised message) = raised (invalid_evidence message)

  abbrev read_version : Option (List ℕ) → Outcome EnvironmentFailureObservation String
  read_version none = raised (invalid_evidence "uv --version output is missing or truncated.")
  read_version (some content) = told (run.version_of content)

  -- `_parse_uv_version`
  unfoldable pub parse_uv_version : ExecutedProcess → Outcome EnvironmentFailureObservation String
  parse_uv_version process =
      if is_some process.spawn_error || is_none process.returncode
      then raised (
          failure_of EnvironmentErrorCode.uv_unavailable
            "uv is unavailable to the Tool Environment."
            "Install uv on the Tool Environment PATH, then retry.")
      else if not (exited_with_zero process.returncode)
      then raised (
          failure_of EnvironmentErrorCode.uv_unavailable
            "uv --version did not complete successfully."
            "Repair the uv executable available to the Tool Environment, then retry.")
      else read_version (complete_stdout limit process.stdout)

  abbrev both_processes : List ExecutedProcess
  both_processes = run.uv_process ∷ run.probe_process ∷ []

  unfoldable pub after_validation :
      String → ParsedEnvironmentProbe → Option EnvironmentFailureObservation → RepositoryPreparation
  after_validation manager_version probe (some error) =
      failed_preparation LockStatus.current error (some manager_version) (some probe) both_processes
  after_validation manager_version probe none = record {
    prepared = some (record {
      root = plan.root;
      path = probe.environment_root;
      python = probe.python;
      python_selection = plan.repository_python;
      manager_version = manager_version;
    });
    observation = record {
      manager_version = some manager_version;
      path = some probe.environment_root;
      python_selection = plan.repository_python;
      python = some probe.python;
      lock_path = run.lock_path;
      lock_status = LockStatus.current;
      mutation_protection = MutationProtection.unobserved;
      dependencies = [];
      processes = both_processes;
      error = none;
    };
  }

  abbrev after_parse :
      String → Outcome EnvironmentFailureObservation ParsedEnvironmentProbe → RepositoryPreparation
  after_parse manager_version (raised error) =
      failed_preparation LockStatus.unverified error (some manager_version) none both_processes
  after_parse manager_version (returned probe) =
      after_validation manager_version probe (run.probe_error probe)

  -- From the second use of uv on
  unfoldable pub probe_environment : String → RepositoryPreparation
  probe_environment manager_version =
      if run.uv_changed_again
      then failed_preparation LockStatus.unverified
          (failure_of EnvironmentErrorCode.unsafe_repository_environment
            "The pinned controller-owned uv executable changed."
            "Restore the controller uv installation and retry.")
          (some manager_version) none (run.uv_process ∷ [])
      else if is_some run.probe_process.spawn_error || is_none run.probe_process.returncode
      then failed_preparation LockStatus.unverified
          (repository_environment_failed "The locked Repository Environment probe could not start.")
          (some manager_version) none both_processes
      else if not (exited_with_zero run.probe_process.returncode)
      then failed_preparation LockStatus.unverified
          (repository_environment_failed
            "The locked Repository Environment probe did not complete successfully.")
          (some manager_version) none both_processes
      else after_parse manager_version (run.parse_probe run.probe_process)

  abbrev after_version : Outcome EnvironmentFailureObservation String → RepositoryPreparation
  after_version (raised error) =
      failed_preparation LockStatus.unverified error none none (run.uv_process ∷ [])
  after_version (returned manager_version) = probe_environment manager_version

  -- From the first use of uv on
  unfoldable pub ask_uv : RepositoryPreparation
  ask_uv =
      if not run.has_uv
      then failed_preparation LockStatus.unverified
          (failure_of EnvironmentErrorCode.uv_unavailable
            "A safe controller-owned uv executable is unavailable."
            "Install uv outside the selected repository and add it to PATH.")
          none none []
      else if run.uv_changed
      then failed_preparation LockStatus.unverified
          (failure_of EnvironmentErrorCode.unsafe_repository_environment
            "The pinned controller-owned uv executable changed."
            "Restore the controller uv installation and retry.")
          none none []
      else after_version (parse_uv_version run.uv_process)

  abbrev with_storage : Option EnvironmentFailureObservation → RepositoryPreparation
  with_storage (some error) = failed_preparation LockStatus.unverified error none none []
  with_storage none = ask_uv

  abbrev with_lock : LockState → RepositoryPreparation
  with_lock missing =
      failed_preparation LockStatus.missing
        (failure_of EnvironmentErrorCode.repository_lock_missing "uv.lock is required."
          "Create and commit uv.lock outside pyrepo-check, then retry.")
        none none []
  with_lock unsafe =
      failed_preparation LockStatus.unverified
        (failure_of EnvironmentErrorCode.unsafe_repository_environment
          "uv.lock could not be safely inspected."
          "Replace uv.lock with a regular non-symlink file, then retry.")
        none none []
  with_lock present = with_storage run.storage_error

  abbrev with_presence : Option EnvironmentFailureObservation → RepositoryPreparation
  with_presence (some error) = failed_preparation LockStatus.unverified error none none []
  with_presence none = with_lock run.lock_state

  -- `prepare_repository_environment`
  unfoldable pub prepare_repository_environment : RepositoryPreparation
  prepare_repository_environment = with_presence run.invalid_presence
