-- ===== src/Tests/Environment.antt =====
-- repository_environment.py on concrete versions, Checks and probes.
use pyrepo_check.Base.{
  ℕ, ◌≡◌, refl, ◌↔◌, true, Option, none, some, List, [], ◌∷◌, map, arith, if◌then◌else◌, ◌==◌,
  nat_eq, string_eq, bool_eq, returned,
}
use pyrepo_check.Base.Int.{pos}
use pyrepo_check.Planning.{CheckName}
use pyrepo_check.Execution.{DependencyName, DependencyObservation, ExecutedProcess}
use pyrepo_check.Environment.Versions.{numeric_version, format_numeric_version}
use pyrepo_check.Environment.Versions.RoundTrip.{numeric_version-format_numeric_version}
use pyrepo_check.Environment.Dependencies.{
  CheckDependency, supported_dependencies, required_dependencies, dependency_version_supported,
  probe_each,
}
use pyrepo_check.Environment.Dependencies.Laws.{required_dependencies-needed, map-probe_each}
use pyrepo_check.Environment.Dependencies.Observation.{unobserved_dependency}
use pyrepo_check.Environment.Dependencies.Range.{IsInside, dependency_version_supported-IsInside}
use pyrepo_check.Environment.Versions.{int_digit_limit}

numeric_version-format_numeric_version_example :
    numeric_version 4 (format_numeric_version (10 ∷ 0 ∷ 345 ∷ [])) ≡ some (10 ∷ 0 ∷ 345 ∷ [])
numeric_version-format_numeric_version_example =
    numeric_version-format_numeric_version 4 10 (0 ∷ 345 ∷ [])
      (omega arith, (omega arith, (omega arith, tt)))

required_dependencies-needed_example :
    required_dependencies (CheckName.annotations ∷ CheckName.pytest ∷ CheckName.ruff ∷ []) true
    ≡ returned (
        map supported_dependencies
          (DependencyName.ruff ∷ DependencyName.pytest ∷ DependencyName.coverage ∷ []))
required_dependencies-needed_example =
    required_dependencies-needed (CheckName.annotations ∷ CheckName.pytest ∷ CheckName.ruff ∷ [])
      true

dependency_version_supported-IsInside_example :
    (dependency_version_supported (supported_dependencies DependencyName.ty) (some "0.0.35") ≡ true)
    ↔ ((numeric : List ℕ) × (numeric_version int_digit_limit "0.0.35" ≡ some numeric)
        × IsInside (supported_dependencies DependencyName.ty) numeric)
dependency_version_supported-IsInside_example =
    dependency_version_supported-IsInside (supported_dependencies DependencyName.ty) "0.0.35"

abbrev probe : ExecutedProcess
probe = record {
  role = "dependency_probe";
  command = "uv" ∷ [];
  cwd = "/repo";
  returncode = some (pos 1);
  duration_ms = 3;
  stdout = none;
  stderr = none;
  spawn_error = none;
}

-- The controller's uv changes before the second probe.
abbrev run : CheckDependency → Option ExecutedProcess
run dependency = if dependency.module_name == "ty" then none else some probe

same_name :
    (dependency : CheckDependency) (process : ExecutedProcess)
    → (unobserved_dependency dependency process).name ≡ dependency.name
unfolding unobserved_dependency
same_name dependency process = refl

map-probe_each_example :
    map
      (λ (o : DependencyObservation). o.name)
      (probe_each run unobserved_dependency
        (map supported_dependencies (DependencyName.ruff ∷ DependencyName.ty ∷ [])))
    ≡ DependencyName.ruff ∷ DependencyName.ty ∷ []
map-probe_each_example =
    map-probe_each run unobserved_dependency same_name
      (map supported_dependencies (DependencyName.ruff ∷ DependencyName.ty ∷ []))
