-- ===== src/Coverage/Codes.antt =====
-- coverage_evidence.py: what a preflight's classification and an artifact's state come to as errors.
use pyrepo_check.Base.{
  code, String, ◌<>◌, Bool, true, false, Option, none, some, if◌then◌else◌, ◌==◌, nat_eq, string_eq,
  bool_eq,
}
use pyrepo_check.Execution.{CoveragePreflightClassification, CoverageArtifactState}
use pyrepo_check.Coverage.Result.{CoverageErrorCode, CoverageError}

-- `cast(CoverageErrorCode, classification)`, where the classification is one
unfoldable pub preflight_code : CoveragePreflightClassification → Option CoverageErrorCode
preflight_code CoveragePreflightClassification.supported = none
preflight_code CoveragePreflightClassification.unsupported_python =
    some CoverageErrorCode.unsupported_python
preflight_code CoveragePreflightClassification.module_unavailable =
    some CoverageErrorCode.module_unavailable
preflight_code CoveragePreflightClassification.unsupported_version =
    some CoverageErrorCode.unsupported_version
preflight_code CoveragePreflightClassification.preflight_invalid =
    some CoverageErrorCode.preflight_invalid
preflight_code CoveragePreflightClassification.spawn_failed = some CoverageErrorCode.spawn_failed
preflight_code CoveragePreflightClassification.terminated_by_signal =
    some CoverageErrorCode.terminated_by_signal

-- The code that an artifact's state other than a snapshot stands for
unfoldable pub artifact_code : CoverageArtifactState → Option CoverageErrorCode
artifact_code CoverageArtifactState.snapshot = none
artifact_code CoverageArtifactState.not_attempted = some CoverageErrorCode.data_missing
artifact_code CoverageArtifactState.unsupported_parallelism =
    some CoverageErrorCode.unsupported_parallelism
artifact_code CoverageArtifactState.data_missing = some CoverageErrorCode.data_missing
artifact_code CoverageArtifactState.unexpected_parallel_data =
    some CoverageErrorCode.unexpected_parallel_data
artifact_code CoverageArtifactState.generation_failed = some CoverageErrorCode.generation_failed
artifact_code CoverageArtifactState.artifact_missing = some CoverageErrorCode.artifact_missing
artifact_code CoverageArtifactState.artifact_invalid = some CoverageErrorCode.artifact_invalid
artifact_code CoverageArtifactState.spawn_failed = some CoverageErrorCode.spawn_failed
artifact_code CoverageArtifactState.terminated_by_signal =
    some CoverageErrorCode.terminated_by_signal

-- The text of a code, as Python has it
abbrev pub code_text : CoverageErrorCode → String
code_text CoverageErrorCode.unsupported_python = "unsupported_python"
code_text CoverageErrorCode.module_unavailable = "module_unavailable"
code_text CoverageErrorCode.unsupported_version = "unsupported_version"
code_text CoverageErrorCode.preflight_invalid = "preflight_invalid"
code_text CoverageErrorCode.spawn_failed = "spawn_failed"
code_text CoverageErrorCode.terminated_by_signal = "terminated_by_signal"
code_text CoverageErrorCode.unsupported_parallelism = "unsupported_parallelism"
code_text CoverageErrorCode.data_missing = "data_missing"
code_text CoverageErrorCode.unexpected_parallel_data = "unexpected_parallel_data"
code_text CoverageErrorCode.generation_failed = "generation_failed"
code_text CoverageErrorCode.artifact_missing = "artifact_missing"
code_text CoverageErrorCode.artifact_invalid = "artifact_invalid"

abbrev pub is_trusted : CoveragePreflightClassification → Bool
is_trusted CoveragePreflightClassification.supported = true
is_trusted CoveragePreflightClassification.unsupported_version = true
is_trusted other = false

abbrev pub has_supported : (String → Bool) → Option String → Bool
has_supported is_supported none = false
has_supported is_supported (some version) = is_supported version

abbrev pub error_of : CoverageErrorCode → String → CoverageError
error_of code message = record { code = code; message = message }

-- `diagnostic or message`
abbrev pub diagnostic_or : Option String → String → String
diagnostic_or none message = message
diagnostic_or (some diagnostic) message = if diagnostic == "" then message else diagnostic

-- The error of a code, where there is one, with a diagnostic or a text that names the code
abbrev pub error_for : String → Option String → Option CoverageErrorCode → Option CoverageError
error_for label diagnostic none = none
error_for label diagnostic (some code) =
    some (error_of code (diagnostic_or diagnostic (label <> code_text code)))
