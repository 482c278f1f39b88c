-- ===== src/Reporting/Dependency/Laws.antt =====
-- What is concluded from the probe of a dependency is what a report of it may say.
use pyrepo_check.Base.{
  ℕ, code, String, ◌≡◌, refl, ap, inl, inr, Bool, true, false, not, ◌||◌, Option, none, some, List,
  arith, ◌==◌, nat_eq, string_eq, bool_eq, is_none, is_some, Bool-cases, ==_refl, returned,
}
use pyrepo_check.Base.Int.{ℤ, pos, int_eq, int_beq_iff}
use pyrepo_check.Planning.{OutputFormat}
use pyrepo_check.Execution.{
  CapturedBytes, ExecutedProcess, DependencyName, ruff, ty, bandit, pytest, coverage, missing,
  incompatible, shadowed, unusable, CheckExecutionErrorCode, DependencyObservation,
}
use pyrepo_check.Environment.Dependencies.{
  CheckDependency, supported_dependencies, required_range, dependency_version_supported,
}
use pyrepo_check.Environment.Dependencies.Observation.{
  dependency_text, ParsedDependencyProbe, ProbeStatus, unobserved_dependency, refused_dependency,
  available_dependency, classify_available, classify_shadowed, parsed_observation, parsed_stdout,
  classify_probe, classify_available, classify_shadowed, parsed_observation, parsed_stdout,
  dependency_observation, complete_stdout, exited_with_zero,
}
use pyrepo_check.Reporting.Process.{process_evidence, successful_process, report_process_role}
use pyrepo_check.Reporting.Process.Laws.{IsWhole, process_evidence-successful}
use pyrepo_check.Reporting.Dependency.{
  dependency_evidence, check_error_evidence, validate_dependency_evidence_v2, validate_status,
  validate_typed_status, validate_unobserved,
}

-- An item of the mapping of supported dependencies
record IsSupported (dependency : CheckDependency) : Type 0 where
  itself : supported_dependencies dependency.name ≡ dependency
  named : (dependency.module_name == dependency_text dependency.name) ≡ true

supported_dependencies-IsSupported :
    (name : DependencyName) → IsSupported (supported_dependencies name)
supported_dependencies-IsSupported ruff = record { itself = refl; named = refl }
supported_dependencies-IsSupported ty = record { itself = refl; named = refl }
supported_dependencies-IsSupported bandit = record { itself = refl; named = refl }
supported_dependencies-IsSupported pytest = record { itself = refl; named = refl }
supported_dependencies-IsSupported coverage = record { itself = refl; named = refl }

module _ (decode : List ℕ → List ℕ) (resolve : String → String) (show : ℤ → String)
    (output_format : OutputFormat) (before : Bool) (dependency : CheckDependency)
    (supported : IsSupported dependency) (process : ExecutedProcess)
    (probe : process.role ≡ "dependency_probe") where
  abbrev IsReportable : DependencyObservation → Type 0
  IsReportable observation =
      validate_dependency_evidence_v2 before
        (dependency_evidence decode resolve show output_format observation)
      ≡ returned tt

  required :
      (required_range dependency == required_range (supported_dependencies dependency.name)) ≡ true
  required = rw supported.itself (==_refl (required_range dependency))

  role : (report_process_role process.role == "dependency_probe") ≡ true
  unfolding report_process_role
  role = rw probe refl

  unobserved-IsReportable : IsReportable (unobserved_dependency dependency process)
  unfolding unobserved_dependency dependency_evidence check_error_evidence process_evidence
      validate_dependency_evidence_v2 validate_status validate_unobserved
  unobserved-IsReportable = rw (supported.named, required, role) refl

  -- What was made of a document of a probe that succeeded
  module _
      (success : successful_process (process_evidence decode resolve show output_format process)
        ≡ true)
      (parsed : ParsedDependencyProbe) where
    missing-IsReportable :
        (message hint : String)
        → IsReportable (
            refused_dependency dependency process parsed missing
              CheckExecutionErrorCode.check_dependency_missing message hint)
    unfolding refused_dependency dependency_evidence check_error_evidence process_evidence
        validate_dependency_evidence_v2 validate_status validate_typed_status
    missing-IsReportable message hint = rw (supported.named, required, role, success) refl

    unusable-IsReportable :
        (message hint : String)
        → IsReportable (
            refused_dependency dependency process parsed unusable
              CheckExecutionErrorCode.check_dependency_unusable message hint)
    unfolding refused_dependency dependency_evidence check_error_evidence process_evidence
        validate_dependency_evidence_v2 validate_status validate_typed_status
    unusable-IsReportable message hint = rw (supported.named, required, role, success) refl

    shadowed-IsReportable :
        (message hint : String)
        → is_some parsed.origin ≡ true
        → IsReportable (
            refused_dependency dependency process parsed shadowed
              CheckExecutionErrorCode.check_dependency_shadowed message hint)
    unfolding refused_dependency dependency_evidence check_error_evidence process_evidence
        validate_dependency_evidence_v2 validate_status validate_typed_status
    shadowed-IsReportable message hint o = rw (supported.named, required, role, success, o) refl

    incompatible-IsReportable :
        (message hint : String)
        → is_some parsed.version ≡ true
        → IsReportable (
            refused_dependency dependency process parsed incompatible
              CheckExecutionErrorCode.check_dependency_incompatible message hint)
    unfolding refused_dependency dependency_evidence check_error_evidence process_evidence
        validate_dependency_evidence_v2 validate_status validate_typed_status
    incompatible-IsReportable message hint v = rw (supported.named, required, role, success, v) refl

    available-IsReportable :
        (version : String)
        → parsed.version ≡ some version
        → is_none parsed.origin ≡ false
        → IsReportable (available_dependency dependency process parsed version)
    unfolding available_dependency dependency_evidence check_error_evidence process_evidence
        validate_dependency_evidence_v2 validate_status
    available-IsReportable version v o =
        elim (Bool-cases (dependency_version_supported dependency (some version))) [
          | inl fits ↦
              let origin : is_some parsed.origin ≡ true = ground (arith, o) in
              rw (fits, supported.named, required, role, origin, success, supported.itself, fits)
                refl
          | inr outside ↦ rw outside (incompatible-IsReportable _ _ (ap is_some v))
        ]

    classify_available-IsReportable :
        (version : Option String)
        → parsed.version ≡ version
        → IsReportable (classify_available dependency process parsed version)
    unfolding classify_available
    classify_available-IsReportable none v = unobserved-IsReportable
    classify_available-IsReportable (some version) v =
        elim (Bool-cases (is_none parsed.origin || is_some parsed.diagnostic)) [
          | inl bad ↦ rw bad unobserved-IsReportable
          | inr good ↦ rw good (available-IsReportable version v (ground (arith, good)))
        ]

    classify_shadowed-IsReportable :
        (origin : Option String)
        → parsed.origin ≡ origin
        → IsReportable (classify_shadowed dependency process parsed origin)
    unfolding classify_shadowed
    classify_shadowed-IsReportable none o = unobserved-IsReportable
    classify_shadowed-IsReportable (some origin) o = shadowed-IsReportable _ _ (ap is_some o)

    classify-IsReportable :
        (status : ProbeStatus) → IsReportable (classify_probe dependency process parsed status)
    unfolding classify_probe
    classify-IsReportable ProbeStatus.missing = missing-IsReportable _ _
    classify-IsReportable ProbeStatus.unusable = unusable-IsReportable _ _
    classify-IsReportable ProbeStatus.shadowed = classify_shadowed-IsReportable parsed.origin refl
    classify-IsReportable ProbeStatus.available =
        classify_available-IsReportable parsed.version refl

  complete_stdout-IsWhole :
      (limit : ℕ) (stream : Option CapturedBytes) (content : List ℕ)
      → complete_stdout limit stream ≡ some content
      → IsWhole stream
  unfolding complete_stdout
  complete_stdout-IsWhole limit none content h = cc
  complete_stdout-IsWhole limit (some raw) content h = (raw, refl, ground (arith, h))

  exited-eq :
      (returncode : Option ℤ) → exited_with_zero returncode ≡ true → returncode ≡ some (pos 0)
  exited-eq none h = cc
  exited-eq (some code) h = ap some ((int_beq_iff code (pos 0)).0 h)

  parsed-IsReportable :
      (limit : ℕ) (parse : CheckDependency → List ℕ → Option ParsedDependencyProbe)
      → exited_with_zero process.returncode ≡ true
      → IsWhole process.stderr
      → (content : Option (List ℕ)) → complete_stdout limit process.stdout ≡ content
      → IsReportable
          (parsed_observation dependency process (parsed_stdout limit parse dependency content))
  parsed-IsReportable limit parse z err none h = unobserved-IsReportable
  parsed-IsReportable limit parse z err (some content) h = go (parse dependency content)
    where
      success :
          successful_process (process_evidence decode resolve show output_format process) ≡ true
      success =
          process_evidence-successful decode resolve show output_format process
            (exited-eq process.returncode z)
            (complete_stdout-IsWhole limit process.stdout content h) err

      go :
          (parsed : Option ParsedDependencyProbe)
          → IsReportable (parsed_observation dependency process parsed)
      go none = unobserved-IsReportable
      go (some parsed) = classify-IsReportable success parsed parsed.status

-- What is concluded from a process of the role dependency_probe for a supported dependency, whatever
-- the process did and printed, is accepted by `_validate_dependency_evidence_v2`, if all that the
-- process wrote to its error stream was captured.
pub dependency_observation-accepted :
    (decode : List ℕ → List ℕ) (resolve : String → String) (show : ℤ → String)
    (output_format : OutputFormat) (before : Bool) (limit : ℕ)
    (parse : CheckDependency → List ℕ → Option ParsedDependencyProbe) (name : DependencyName)
    (process : ExecutedProcess)
    → process.role ≡ "dependency_probe"
    → IsWhole process.stderr
    → validate_dependency_evidence_v2 before (
        dependency_evidence decode resolve show output_format
          (dependency_observation limit parse (supported_dependencies name) process))
      ≡ returned tt
unfolding dependency_observation
dependency_observation-accepted decode resolve show output_format before limit parse name process
      role err =
    let dependency = supported_dependencies name in
    let supported = supported_dependencies-IsSupported name in
    elim (Bool-cases (is_some process.spawn_error || not (exited_with_zero process.returncode))) [
      | inl failed ↦ rw failed (
          unobserved-IsReportable decode resolve show output_format before dependency supported
            process role)
      | inr ran ↦ rw ran (
          parsed-IsReportable decode resolve show output_format before dependency supported process
            role limit parse (ground (arith, ran)) err (complete_stdout limit process.stdout) refl)
    ]
