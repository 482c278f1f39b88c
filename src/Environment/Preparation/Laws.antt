-- ===== src/Environment/Preparation/Laws.antt =====
-- When the preparation of an environment gives one, and what it ran.
use pyrepo_check.Base.{
  ℕ, String, ◌≡◌, refl, sym, ap, ◌∙◌, Bool, true, false, not, ◌||◌, Option, none, some, List, [],
  ◌∷◌, arith, if◌then◌else◌, nat_eq, string_eq, bool_eq, is_none, is_some, Outcome, returned,
  raised, returned-injective,
}
use mathlib.Core.Bool.{false≢true}
use pyrepo_check.Planning.{RunPlan}
use pyrepo_check.Execution.{ExecutedProcess, EnvironmentFailureObservation, LockStatus}
use pyrepo_check.Environment.Dependencies.Observation.{exited_with_zero}
use pyrepo_check.Environment.Preparation.{
  LockState, missing, present, unsafe, ParsedEnvironmentProbe, RepositoryPreparation,
  PreparationRun, failed_preparation, parse_uv_version, after_validation, after_parse,
  probe_environment, after_version, ask_uv, with_storage, with_lock, with_presence,
  prepare_repository_environment,
}
use pyrepo_check.Environment.Preparation.Ready.{
  Guarded, Succeeded, Versioned, Ready, Attempted, nothing, asked, probed, environment_of,
  Succeeded-of_tests, unstarted-Succeeded, failing-Succeeded, parse-of_Versioned,
  Versioned-of_parse,
}

module _ (limit : ℕ) (plan : RunPlan) (run : PreparationRun) where
  -- Something that an environment takes does not hold.
  abbrev pub Unready : Type 0
  Unready =
      (version : String) (parsed : ParsedEnvironmentProbe) → Ready limit plan run version parsed → ⊥

  -- Either something is missing, and there is an error and no environment, or nothing is, and there is
  -- the environment that the plan, the version and the probe describe, and no error.
  pub data Settled (preparation : RepositoryPreparation) : Type 0 where
    failed :
        (error : EnvironmentFailureObservation)
        → Unready
        → preparation.prepared ≡ none
        → preparation.observation.error ≡ some error
        → Settled preparation
    ready :
        (version : String) (parsed : ParsedEnvironmentProbe)
        → Ready limit plan run version parsed
        → preparation.prepared ≡ some (environment_of limit plan run version parsed)
        → preparation.observation.error ≡ none
        → preparation.observation.lock_status ≡ LockStatus.current
        → preparation.observation.processes ≡ run.uv_process ∷ (run.probe_process ∷ [])
        → Settled preparation

  unfoldable pub IsSound : RepositoryPreparation → Type 0
  IsSound preparation =
      Attempted limit plan run preparation.observation.processes × Settled preparation

  failed-IsSound :
      (lock_status : LockStatus) (error : EnvironmentFailureObservation)
      (manager_version : Option String) (probe : Option ParsedEnvironmentProbe)
      (processes : List ExecutedProcess)
      → Attempted limit plan run processes
      → Unready
      → IsSound
          (failed_preparation limit plan run lock_status error manager_version probe processes)
  unfolding failed_preparation IsSound
  failed-IsSound lock_status error manager_version probe processes a u =
      (a, failed error u refl refl)

  if-IsSound :
      (test : Bool) (a b : RepositoryPreparation)
      → (test ≡ true → IsSound a)
      → (test ≡ false → IsSound b)
      → IsSound (if test then a else b)
  if-IsSound true a b h k = h refl
  if-IsSound false a b h k = k refl

  module _ (guarded : Guarded limit plan run) where
    module _ (version : String) (versioned : Versioned limit plan run version)
        (unchanged : run.uv_changed_again ≡ false) where
      both : Attempted limit plan run (run.uv_process ∷ (run.probe_process ∷ []))
      both = probed version guarded versioned unchanged

      validated-IsSound :
          (parsed : ParsedEnvironmentProbe) (error : Option EnvironmentFailureObservation)
          → Succeeded limit plan run run.probe_process
          → run.parse_probe run.probe_process ≡ returned parsed
          → run.probe_error parsed ≡ error
          → IsSound (after_validation limit plan run version parsed error)
      unfolding after_validation IsSound
      validated-IsSound parsed (some error) s p e = failed-IsSound _ _ _ _ _ both (λ v found r.
          let same : found ≡ parsed = returned-injective (sym r.parsing ∙ p) in
          let accepted : run.probe_error found ≡ none = r.accepted in
          let q : some error ≡ none = sym e ∙ ap run.probe_error (sym same) ∙ accepted in cc)
      validated-IsSound parsed none s p e = (
        both,
        ready version parsed
            (record {
              guarded = guarded;
              versioned = versioned;
              unchanged = unchanged;
              succeeded = s;
              parsing = p;
              accepted = e;
            })
            refl refl refl refl,
      )

      parsed-IsSound :
          (parsed : Outcome EnvironmentFailureObservation ParsedEnvironmentProbe)
          → Succeeded limit plan run run.probe_process
          → run.parse_probe run.probe_process ≡ parsed
          → IsSound (after_parse limit plan run version parsed)
      parsed-IsSound (raised error) s p =
          failed-IsSound _ _ _ _ _ both
            (λ v found r. let q : raised error ≡ returned found = sym p ∙ r.parsing in cc)
      parsed-IsSound (returned parsed) s p =
          validated-IsSound parsed (run.probe_error parsed) s p refl

    probed-IsSound :
        (version : String)
        → Versioned limit plan run version
        → IsSound (probe_environment limit plan run version)
    unfolding probe_environment
    probed-IsSound version versioned =
        let process = run.probe_process in
        if-IsSound run.uv_changed_again _ _
          (λ c.
            failed-IsSound _ _ _ _ _ (asked guarded) (λ v p r. false≢true (sym r.unchanged ∙ c)))
          (λ unchanged.
            if-IsSound (is_some process.spawn_error || is_none process.returncode) _ _
              (λ s.
                failed-IsSound _ _ _ _ _ (both version versioned unchanged)
                  (λ v p r. unstarted-Succeeded limit plan run process s r.succeeded))
              (λ s.
                if-IsSound (not (exited_with_zero process.returncode)) _ _
                  (λ e.
                    failed-IsSound _ _ _ _ _ (both version versioned unchanged)
                      (λ v p r. failing-Succeeded limit plan run process e r.succeeded))
                  (λ e.
                    parsed-IsSound version versioned unchanged (run.parse_probe process)
                      (Succeeded-of_tests limit plan run process s e) refl)))

    versioned-IsSound :
        (version : Outcome EnvironmentFailureObservation String)
        → parse_uv_version limit plan run run.uv_process ≡ version
        → IsSound (after_version limit plan run version)
    versioned-IsSound (raised error) p = failed-IsSound _ _ _ _ _ (asked guarded) (λ v parsed r.
        let q : raised error ≡ returned v =
          sym p ∙ parse-of_Versioned limit plan run v r.versioned in
        cc)
    versioned-IsSound (returned version) p =
        probed-IsSound version (Versioned-of_parse limit plan run version p)

  asked-IsSound :
      run.invalid_presence ≡ none
      → run.lock_state ≡ present
      → run.storage_error ≡ none
      → IsSound (ask_uv limit plan run)
  unfolding ask_uv
  asked-IsSound valid locked stored =
      if-IsSound (not run.has_uv) _ _
        (λ h. failed-IsSound _ _ _ _ _ nothing (λ v p r. false≢true (rw r.guarded.pinned at h)))
        (λ h.
          if-IsSound run.uv_changed _ _
            (λ c.
              failed-IsSound _ _ _ _ _ nothing (λ v p r. false≢true (sym r.guarded.unchanged ∙ c)))
            (λ c.
              versioned-IsSound
                (record {
                  valid = valid;
                  locked = locked;
                  stored = stored;
                  pinned = ground (arith, h);
                  unchanged = c;
                })
                (parse_uv_version limit plan run run.uv_process) refl))

  stored-IsSound :
      (error : Option EnvironmentFailureObservation)
      → run.storage_error ≡ error
      → run.invalid_presence ≡ none
      → run.lock_state ≡ present
      → IsSound (with_storage limit plan run error)
  stored-IsSound (some error) e valid locked =
      failed-IsSound _ _ _ _ _ nothing
        (λ v p r. let q : some error ≡ none = sym e ∙ r.guarded.stored in cc)
  stored-IsSound none e valid locked = asked-IsSound valid locked e

  locked-IsSound :
      (state : LockState)
      → run.lock_state ≡ state
      → run.invalid_presence ≡ none
      → IsSound (with_lock limit plan run state)
  locked-IsSound missing e valid =
      failed-IsSound _ _ _ _ _ nothing
        (λ v p r. let q : missing ≡ present = sym e ∙ r.guarded.locked in cc)
  locked-IsSound unsafe e valid =
      failed-IsSound _ _ _ _ _ nothing
        (λ v p r. let q : unsafe ≡ present = sym e ∙ r.guarded.locked in cc)
  locked-IsSound present e valid = stored-IsSound run.storage_error refl valid e

  present-IsSound :
      (error : Option EnvironmentFailureObservation)
      → run.invalid_presence ≡ error
      → IsSound (with_presence limit plan run error)
  present-IsSound (some error) e =
      failed-IsSound _ _ _ _ _ nothing
        (λ v p r. let q : some error ≡ none = sym e ∙ r.guarded.valid in cc)
  present-IsSound none e = locked-IsSound run.lock_state refl e

-- Preparing an environment gives one, without an error and with a current lock, exactly if the lock is
-- present, the storage of uv is safe, uv is there and stays unchanged, uv told its version and the
-- probe exited with 0 and its document was parsed and accepted; otherwise it gives an error and no
-- environment. It asks uv for its version only once the lock, the storage and uv were found in order,
-- and runs the probe only after uv told its version.
pub prepare_repository_environment-IsSound :
    (limit : ℕ) (plan : RunPlan) (run : PreparationRun)
    → IsSound limit plan run (prepare_repository_environment limit plan run)
unfolding prepare_repository_environment
prepare_repository_environment-IsSound limit plan run =
    present-IsSound limit plan run run.invalid_presence refl
