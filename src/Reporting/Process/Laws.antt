-- ===== src/Reporting/Process/Laws.antt =====
-- What is reported of a process is accepted, and when it counts as successful.
use pyrepo_check.Base.{
  ℕ, String, ◌≡◌, refl, Bool, true, Option, none, some, List, arith, nat_eq, string_eq, bool_eq,
  contains, returned,
}
use pyrepo_check.Base.Int.{ℤ, pos, negsuc, int_eq}
use pyrepo_check.Planning.{OutputFormat}
use pyrepo_check.Execution.{CapturedBytes, ExecutedProcess}
use pyrepo_check.Reporting.{}
use pyrepo_check.Reporting.Text.{capture_text}
use pyrepo_check.Reporting.Process.{
  report_process_role, process_roles, ending, captured_stream, process_evidence, successful_process,
  validate_captured_text, validate_outcome, validate_process, complete_captured_output,
}

-- A role that some report knows, once the safety roles are one.
abbrev pub IsReported : String → Type 0
IsReported role = contains process_roles (report_process_role role) ≡ true

-- All of a stream was captured.
abbrev pub IsWhole : Option CapturedBytes → Type 0
IsWhole stream = (raw : CapturedBytes) × (stream ≡ some raw) × (raw.omitted_bytes ≡ 0)

module _ (decode : List ℕ → List ℕ) (resolve : String → String) (show : ℤ → String)
    (output_format : OutputFormat) where
  captured_stream-accepted :
      (stream : Option CapturedBytes)
      → validate_captured_text (captured_stream decode resolve show output_format stream)
        ≡ returned tt
  unfolding captured_stream validate_captured_text capture_text
  captured_stream-accepted none = ground arith
  captured_stream-accepted (some raw) = ground arith

  ending-accepted :
      (returncode : Option ℤ) (spawn_error : Option String)
      → let end = ending decode resolve show output_format returncode spawn_error in
        validate_outcome end.outcome end.exit_code end.signal end.error_message ≡ returned tt
  unfolding ending validate_outcome
  ending-accepted none spawn_error = refl
  ending-accepted (some (pos n)) spawn_error = refl
  ending-accepted (some (negsuc n)) spawn_error = ground arith

  -- What is reported of a process with a known role passes the checks of a report, whatever the
  -- process did, if resolved paths are absolute and normal.
  pub process_evidence-accepted :
      (is_normal : String → Bool)
      → ((path : String) → is_normal (resolve path) ≡ true)
      → (observation : ExecutedProcess) → IsReported observation.role
      → validate_process is_normal (process_evidence decode resolve show output_format observation)
        ≡ returned tt
  unfolding process_evidence validate_process
  process_evidence-accepted is_normal normal observation known =
      rw
        (
          known,
          normal observation.cwd,
          captured_stream-accepted observation.stdout,
          captured_stream-accepted observation.stderr,
        )
        (ending-accepted observation.returncode observation.spawn_error)

  whole_stream :
      (stream : Option CapturedBytes)
      → IsWhole stream
      → complete_captured_output (captured_stream decode resolve show output_format stream) ≡ true
  unfolding captured_stream capture_text
  whole_stream stream (raw, p, q) = rw (p, q) refl

  pub process_evidence-successful :
      (observation : ExecutedProcess)
      → observation.returncode ≡ some (pos 0)
      → IsWhole observation.stdout
      → IsWhole observation.stderr
      → successful_process (process_evidence decode resolve show output_format observation) ≡ true
  unfolding process_evidence successful_process ending
  process_evidence-successful observation z out err =
      rw (z, whole_stream observation.stdout out, whole_stream observation.stderr err) refl
