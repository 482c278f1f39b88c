-- ===== src/Reporting/Process.antt =====
-- reporting.py and reporting_schema.py: what is reported of one process, and what a report of one is
-- checked for.
pub mod Laws
use pyrepo_check.Base.{
  ℕ, zero, suc, ◌+◌, ◌-◌, ◌*◌, ◌/◌, ◌%◌, ◌≤◌, ◌<◌, code, String, ◌<>◌, ◌≡◌, refl, sym, ap, ◌∙◌, ◌≢◌,
  ◌↔◌, ◌⊎◌, inl, inr, Bool, true, false, not, ◌&&◌, ◌||◌, Option, none, some, List, [], ◌∷◌, ◌++◌,
  map, arith, eq_iff, ltb, leb, if◌then◌else◌, Eq, ◌==◌, ◌!=◌, nat_eq, string_eq, bool_eq, is_none,
  is_some, or_else, Bool-cases, Option-cases, &&-eq-true, ||-false, ==_refl, ==_sym, length, take,
  drop, is_empty, all, any, keep, first, length-append, length-drop, is_empty-eq-true, All,
  length-map, All-of_keep-nil, All-map, contains, contains-keep, subset, distinct, lists_equal,
  Outcome, returned, raised, ◌>>=◌, ◌>>◌, require, refuse, >>=-eq-returned, refuse-eq-returned,
  refuse-returned, returned-injective, if_is_empty-returned, >>=-cong, Outcome-cases, traverse,
  starts_with,
}
use pyrepo_check.Base.Int.{ℤ, pos, negsuc, int_eq, is_negative}
use pyrepo_check.Planning.{OutputFormat}
use pyrepo_check.Execution.{CapturedBytes, ExecutedProcess}
use pyrepo_check.Reporting.{
  ReportingError, CapturedText, ProcessResult, ProcessOutcome, exited, signaled, spawn_failed,
  invalid,
}
use pyrepo_check.Reporting.Text.{capture_text}

-- `_report_process_role`
unfoldable pub report_process_role : String → String
report_process_role role =
    if role == "repository_git_root"
      || role == "repository_venv_tracked"
      || role == "repository_venv_ignored"
      || role == "repository_tracked_snapshot"
    then "repository_safety"
    else role

abbrev pub is_json : OutputFormat → Bool
is_json OutputFormat.json = true
is_json OutputFormat.terminal = false

-- What a return code says, as `_process_evidence` reports it.
pub record Ending : Type 0 where
  pub outcome : ProcessOutcome
  pub exit_code : Option ℤ
  pub signal : Option ℤ
  pub error_message : Option String

abbrev non_empty : String → String → String
non_empty message fallback = if message == "" then fallback else message

abbrev error_text : Option String → String
error_text none = "Process failed to spawn."
error_text (some message) = non_empty message "Process failed to spawn."

-- `decode` is UTF-8 with replacement, `resolve` is `str(path.resolve())`, `show` prints a number.
module _ (decode : List ℕ → List ℕ) (resolve : String → String) (show : ℤ → String)
    (output_format : OutputFormat) where
  unfoldable pub ending : Option ℤ → Option String → Ending
  ending none spawn_error = record {
    outcome = spawn_failed;
    exit_code = none;
    signal = none;
    error_message = some (error_text spawn_error);
  }
  ending (some (negsuc n)) spawn_error = record {
    outcome = signaled;
    exit_code = none;
    signal = some (pos (suc n));
    error_message = some ("Process terminated by signal " <> show (pos (suc n)) <> ".");
  }
  ending (some (pos n)) spawn_error = record {
    outcome = exited;
    exit_code = some (pos n);
    signal = none;
    error_message = none;
  }

  -- `_captured_stream`
  unfoldable pub captured_stream : Option CapturedBytes → CapturedText
  captured_stream none = record {
    captured = is_json output_format;
    text = [];
    truncated = false;
    omitted_bytes = 0;
  }
  captured_stream (some raw) = capture_text decode raw

  -- `_process_evidence`
  unfoldable pub process_evidence : ExecutedProcess → ProcessResult
  process_evidence observation =
      let end = ending observation.returncode observation.spawn_error in
      record {
        role = report_process_role observation.role;
        argv = observation.command;
        cwd = resolve observation.cwd;
        outcome = end.outcome;
        exit_code = end.exit_code;
        signal = end.signal;
        duration_ms = observation.duration_ms;
        stdout = captured_stream observation.stdout;
        stderr = captured_stream observation.stderr;
        error_message = end.error_message;
      }

-- `_complete_captured_output`
abbrev pub complete_captured_output : CapturedText → Bool
complete_captured_output captured =
    captured.captured && not captured.truncated && captured.omitted_bytes == 0

abbrev pub outcome_is_exited : ProcessOutcome → Bool
outcome_is_exited exited = true
outcome_is_exited signaled = false
outcome_is_exited spawn_failed = false

abbrev pub is_code : ℤ → Option ℤ → Bool
is_code code none = false
is_code code (some actual) = actual == code

-- `_zero_exit_process` of a process that is there
unfoldable pub zero_exit_process : ProcessResult → Bool
zero_exit_process process = outcome_is_exited process.outcome && is_code (pos 0) process.exit_code

-- `_successful_process` of a process that is there
unfoldable pub successful_process : ProcessResult → Bool
successful_process process =
    outcome_is_exited process.outcome
    && is_code (pos 0) process.exit_code
    && complete_captured_output process.stdout
    && complete_captured_output process.stderr

-- `_failed_process` of a process that is there
unfoldable pub failed_process : ProcessResult → Bool
failed_process process =
    not (outcome_is_exited process.outcome)
    || (is_some process.exit_code && not (is_code (pos 0) process.exit_code))

abbrev process_roles : List String
process_roles =
    "primary" ∷ "pytest_preflight" ∷ "coverage_preflight" ∷ "coverage_json" ∷ "repository_safety"
    ∷ "uv_version" ∷ "environment_probe" ∷ "dependency_probe" ∷ []

-- `_validate_captured_text`; the types of the fields are those of the record.
unfoldable pub validate_captured_text : CapturedText → Outcome ReportingError Unit
validate_captured_text captured = do
  require
      (captured.captured
        || (is_empty captured.text && not captured.truncated && captured.omitted_bytes == 0))
      (record { message = "invalid report: uncaptured stream must be empty" })
  require (not captured.captured || captured.truncated == ltb 0 captured.omitted_bytes)
      (record { message = "invalid report: captured truncation must match omitted bytes" })

abbrev is_whole_number : Option ℤ → Bool
is_whole_number none = false
is_whole_number (some code) = not (is_negative code)

abbrev is_signal : Option ℤ → Bool
is_signal none = false
is_signal (some (pos n)) = ltb 0 n
is_signal (some (negsuc n)) = false

-- The checks of `_validate_process` on the outcome
unfoldable pub validate_outcome :
    ProcessOutcome → Option ℤ → Option ℤ → Option String → Outcome ReportingError Unit
validate_outcome exited exit_code signal error_message = do
  require (is_whole_number exit_code) (record {
    message = "invalid report: exited process requires a non-negative integer exit_code";
  })
  require (is_none signal && is_none error_message)
      (record { message = "invalid report: exited process requires null signal and error_message" })
validate_outcome signaled exit_code signal error_message = do
  require (is_none exit_code && is_signal signal) (record {
    message = "invalid report: signaled process requires positive signal and null exit_code";
  })
  require (is_some error_message)
      (record { message = "invalid report: signaled process requires error_message" })
validate_outcome spawn_failed exit_code signal error_message =
    require (is_none exit_code && is_none signal && is_some error_message) (record {
      message = "invalid report: spawn_failed process requires null codes and error_message";
    })

-- `_validate_process`; `is_normal` is `_validate_absolute_normal_path`.
unfoldable pub validate_process : (String → Bool) → ProcessResult → Outcome ReportingError Unit
validate_process is_normal process = do
  require (contains process_roles process.role)
      (record { message = "invalid report: unknown process role" })
  require (is_normal process.cwd) (record {
    message = "invalid report: process cwd must be an absolute lexically normalized path string";
  })
  validate_captured_text process.stdout
  validate_captured_text process.stderr
  validate_outcome process.outcome process.exit_code process.signal process.error_message
