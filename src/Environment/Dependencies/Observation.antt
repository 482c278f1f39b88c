-- ===== src/Environment/Dependencies/Observation.antt =====
-- repository_environment.py: what is concluded from the probe of one dependency.
use pyrepo_check.Base.{
  ℕ, code, String, ◌<>◌, Bool, false, not, ◌||◌, Option, none, some, List, ltb, if◌then◌else◌, ◌==◌,
  ◌!=◌, nat_eq, string_eq, bool_eq, is_none, is_some, length,
}
use pyrepo_check.Base.Int.{ℤ, pos, int_eq}
use pyrepo_check.Execution.{
  ExecutedProcess, CapturedBytes, DependencyStatus, DependencyObservation, CheckExecutionErrorCode,
  incompatible, unobserved, check_dependency_missing, check_dependency_incompatible,
  check_dependency_shadowed, check_dependency_unusable, DependencyName, ruff, ty, bandit, pytest,
  coverage,
}
use pyrepo_check.Environment.Dependencies.{
  CheckDependency, required_range, dependency_version_supported,
}

-- The `status` of `_ParsedDependencyProbe`
pub data ProbeStatus : Type 0 where
  available missing shadowed unusable : ProbeStatus

pub record ParsedDependencyProbe : Type 0 where
  pub status : ProbeStatus
  pub version : Option String
  pub origin : Option String
  pub diagnostic : Option String

-- `_complete_stdout`, with the limit as a parameter
unfoldable pub complete_stdout : ℕ → Option CapturedBytes → Option (List ℕ)
complete_stdout limit none = none
complete_stdout limit (some stdout) =
    if stdout.omitted_bytes != 0 || ltb limit (length stdout.tail) then none else some stdout.tail

abbrev pub dependency_text : DependencyName → String
dependency_text ruff = "ruff"
dependency_text ty = "ty"
dependency_text bandit = "bandit"
dependency_text pytest = "pytest"
dependency_text coverage = "coverage"

-- `_unobserved_dependency`
unfoldable pub unobserved_dependency : CheckDependency → ExecutedProcess → DependencyObservation
unobserved_dependency dependency process = record {
  name = dependency.name;
  module_name = dependency.module_name;
  required = required_range dependency;
  status = unobserved;
  version = none;
  origin = none;
  process = some process;
  error = some (record {
    code = check_dependency_unusable;
    message =
        "Repository dependency "
        <> dependency_text dependency.name
        <> " probe evidence is unavailable.";
    hint = some (
        "Repair the locked ordinary "
        <> dependency_text dependency.name
        <> " installation and retry.");
  });
}

abbrev with_diagnostic : String → Option String → String
with_diagnostic message none = message
with_diagnostic message (some diagnostic) = message <> " " <> diagnostic <> "."

-- The observation of a dependency that is not available, with its error.
unfoldable pub refused_dependency :
    CheckDependency
    → ExecutedProcess
    → ParsedDependencyProbe
    → DependencyStatus
    → CheckExecutionErrorCode
    → String
    → String
    → DependencyObservation
refused_dependency dependency process parsed status code message hint = record {
  name = dependency.name;
  module_name = dependency.module_name;
  required = required_range dependency;
  status = status;
  version = parsed.version;
  origin = parsed.origin;
  process = some process;
  error = some (record {
    code = code;
    message = with_diagnostic message parsed.diagnostic;
    hint = some hint;
  });
}

unfoldable pub available_dependency :
    CheckDependency → ExecutedProcess → ParsedDependencyProbe → String → DependencyObservation
available_dependency dependency process parsed version =
    let name = dependency_text dependency.name in
    let required = required_range dependency in
    if dependency_version_supported dependency (some version)
    then record {
      name = dependency.name;
      module_name = dependency.module_name;
      required = required;
      status = DependencyStatus.available;
      version = some version;
      origin = parsed.origin;
      process = some process;
      error = none;
    }
    else refused_dependency dependency process parsed incompatible check_dependency_incompatible
        ("Repository dependency " <> name <> " version " <> version <> " does not satisfy "
          <> required <> ".")
        ("Lock " <> name <> " to " <> required <> " in the Repository Environment, then retry.")

unfoldable pub classify_available :
    CheckDependency
    → ExecutedProcess
    → ParsedDependencyProbe
    → Option String
    → DependencyObservation
classify_available dependency process parsed none = unobserved_dependency dependency process
classify_available dependency process parsed (some version) =
    if is_none parsed.origin || is_some parsed.diagnostic
    then unobserved_dependency dependency process
    else available_dependency dependency process parsed version

unfoldable pub classify_shadowed :
    CheckDependency
    → ExecutedProcess
    → ParsedDependencyProbe
    → Option String
    → DependencyObservation
classify_shadowed dependency process parsed none = unobserved_dependency dependency process
classify_shadowed dependency process parsed (some origin) =
    let name = dependency_text dependency.name in
    refused_dependency dependency process parsed DependencyStatus.shadowed check_dependency_shadowed
      ("Repository dependency " <> name <> " is shadowed at " <> origin <> ".")
      ("Remove the shadowing path and use the locked ordinary " <> name
        <> " distribution, then retry.")

-- The branches of `_dependency_observation` on the parsed status
unfoldable pub classify_probe :
    CheckDependency → ExecutedProcess → ParsedDependencyProbe → ProbeStatus → DependencyObservation
classify_probe dependency process parsed ProbeStatus.available =
    classify_available dependency process parsed parsed.version
classify_probe dependency process parsed ProbeStatus.shadowed =
    classify_shadowed dependency process parsed parsed.origin
classify_probe dependency process parsed ProbeStatus.missing =
    let name = dependency_text dependency.name in
    refused_dependency dependency process parsed DependencyStatus.missing check_dependency_missing
      ("Repository dependency " <> name <> " is missing.")
      ("Add "
        <> name
        <> " "
        <> required_range dependency
        <> " to the locked Repository Environment, then retry.")
classify_probe dependency process parsed ProbeStatus.unusable =
    let name = dependency_text dependency.name in
    refused_dependency dependency process parsed DependencyStatus.unusable check_dependency_unusable
      ("Repository dependency " <> name <> " is unusable.")
      ("Install " <> name
        <> " as a locked ordinary distribution in the Repository Environment, then retry.")

abbrev pub parsed_observation :
    CheckDependency → ExecutedProcess → Option ParsedDependencyProbe → DependencyObservation
parsed_observation dependency process none = unobserved_dependency dependency process
parsed_observation dependency process (some parsed) =
    classify_probe dependency process parsed parsed.status

abbrev pub exited_with_zero : Option ℤ → Bool
exited_with_zero none = false
exited_with_zero (some code) = code == pos 0

-- `parse` reads the document of the probe, bytes within the limit, as `_parse_dependency_probe` does
-- after `_complete_stdout`.
module _ (limit : ℕ) (parse : CheckDependency → List ℕ → Option ParsedDependencyProbe) where
  abbrev pub parsed_stdout : CheckDependency → Option (List ℕ) → Option ParsedDependencyProbe
  parsed_stdout dependency none = none
  parsed_stdout dependency (some content) = parse dependency content

  -- `_dependency_observation`
  unfoldable pub dependency_observation : CheckDependency → ExecutedProcess → DependencyObservation
  dependency_observation dependency process =
      if is_some process.spawn_error || not (exited_with_zero process.returncode)
      then unobserved_dependency dependency process
      else parsed_observation dependency process
          (parsed_stdout dependency (complete_stdout limit process.stdout))
