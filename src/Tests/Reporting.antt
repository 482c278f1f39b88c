-- ===== src/Tests/Reporting.antt =====
-- reporting.py on concrete processes, texts and Checks.
use pyrepo_check.Base.{
  ℕ, code, String, ◌≡◌, refl, ◌↔◌, true, false, Option, none, some, List, [], ◌∷◌, map, arith, ◌==◌,
  nat_eq, string_eq, bool_eq, returned,
}
use pyrepo_check.Base.Int.{ℤ, pos, negsuc}
use pyrepo_check.Planning.{CheckName, CheckInvocation, OutputFormat}
use pyrepo_check.Execution.{
  DependencyName, ExecutedProcess, RepositoryCheckObservation, LockStatus, MutationProtection,
}
use pyrepo_check.Environment.Dependencies.{CheckDependency, supported_dependencies}
use pyrepo_check.Environment.Dependencies.Observation.{
  ParsedDependencyProbe, ProbeStatus, dependency_observation,
}
use pyrepo_check.Reporting.{ProcessResult}
use pyrepo_check.Reporting.Order.{validate_environment_process_order_v2}
use pyrepo_check.Reporting.Order.Laws.{
  EnvironmentRun, roles_of, validate_environment_process_order_v2-roles_of,
}
use pyrepo_check.Reporting.Text.{strip, strip_terminal_sequences}
use pyrepo_check.Reporting.Text.Laws.{strip-strip_terminal_sequences}
use pyrepo_check.Reporting.Text.Laws.Pieces.{Piece, plain, csi, osc, text_of}
use pyrepo_check.Reporting.Text.Stripped.{strip_terminal_sequences-text_of}
use pyrepo_check.Reporting.Process.{process_evidence, validate_process, report_process_role}
use pyrepo_check.Reporting.Process.Laws.{process_evidence-accepted}
use pyrepo_check.Reporting.Dependency.{
  dependency_evidence, validate_dependency_evidence_v2, check_error_evidence,
}
use pyrepo_check.Reporting.Dependency.Laws.{dependency_observation-accepted}
use pyrepo_check.Reporting.Matching.{Matched}
use pyrepo_check.Reporting.Status.{
  CheckStatus, CheckResultV2, RepositoryEnvironmentEvidence, judge, judge_unfailed, judge_primary,
  observation_at, build_check_result_v2, build_check_results, run_complete_v2, overall_status,
  select_exit_code,
}
use pyrepo_check.Reporting.Status.Laws.{IsClean, AllGood, select_exit_code-AllGood}

abbrev decode : List ℕ → List ℕ
decode bytes = bytes

abbrev resolve : String → String
resolve path = "/repo"

abbrev show : ℤ → String
show code = "9"

abbrev process_of : String → Option ℤ → ExecutedProcess
process_of role returncode = record {
  role = role;
  command = "uv" ∷ "run" ∷ [];
  cwd = "/repo";
  returncode = returncode;
  duration_ms = 3;
  stdout = some (record { tail = 123 ∷ 125 ∷ []; omitted_bytes = 0 });
  stderr = some (record { tail = []; omitted_bytes = 0 });
  spawn_error = none;
}

abbrev evidence_of : ExecutedProcess → ProcessResult
evidence_of = process_evidence decode resolve show OutputFormat.json

abbrev prepared : List ProcessResult
prepared = map evidence_of (
    process_of "repository_git_root" (some (pos 0))
    ∷ process_of "uv_version" (some (pos 0))
    ∷ process_of "environment_probe" (some (pos 0))
    ∷ process_of "repository_tracked_snapshot" (some (pos 0))
    ∷ [])

validate_environment_process_order_v2-roles_of_example :
    (validate_environment_process_order_v2 prepared ≡ returned tt) ↔ (
      (n : ℕ) × (run : EnvironmentRun) × (map (λ (process : ProcessResult). process.role) prepared
        ≡ roles_of n run))
validate_environment_process_order_v2-roles_of_example =
    validate_environment_process_order_v2-roles_of prepared

-- "a", red, "b", a title, "c"
abbrev pieces : List Piece
pieces =
    plain 97
    ∷ csi (51 ∷ 49 ∷ []) [] 109
    ∷ plain 98
    ∷ osc (48 ∷ 59 ∷ 116 ∷ []) true
    ∷ plain 99
    ∷ osc (48 ∷ []) false
    ∷ []

strip_terminal_sequences-text_of_example :
    strip_terminal_sequences (text_of pieces) ≡ 97 ∷ 98 ∷ 99 ∷ []
strip_terminal_sequences-text_of_example =
    strip_terminal_sequences-text_of pieces
      (refl, ((refl, refl, refl), (refl, (refl, (refl, (refl, tt))))))

strip-strip_terminal_sequences_example :
    strip 40 (text_of pieces) ≡ strip_terminal_sequences (text_of pieces)
strip-strip_terminal_sequences_example =
    strip-strip_terminal_sequences 40 (text_of pieces) (omega arith)

process_evidence-accepted_example :
    validate_process
      (λ path. path == "/repo")
      (evidence_of (process_of "repository_git_root" (some (negsuc 8))))
    ≡ returned tt
unfolding report_process_role
process_evidence-accepted_example =
    process_evidence-accepted decode resolve show OutputFormat.json (λ path. path == "/repo")
      (λ path. refl) (process_of "repository_git_root" (some (negsuc 8))) refl

abbrev parse : CheckDependency → List ℕ → Option ParsedDependencyProbe
parse dependency content = some (record {
  status = ProbeStatus.available;
  version = some "8.4.1";
  origin = some "/repo/.venv/lib/pytest";
  diagnostic = none;
})

dependency_observation-accepted_example :
    validate_dependency_evidence_v2 false (
      dependency_evidence decode resolve show OutputFormat.json (
        dependency_observation 65536 parse
          (supported_dependencies DependencyName.pytest)
          (process_of "dependency_probe" (some (pos 0)))))
    ≡ returned tt
dependency_observation-accepted_example =
    dependency_observation-accepted decode resolve show OutputFormat.json false 65536 parse
      DependencyName.pytest (process_of "dependency_probe" (some (pos 0))) refl
      (record { tail = []; omitted_bytes = 0 }, refl, refl)

abbrev ruff_check : CheckInvocation
ruff_check = record { name = CheckName.ruff; arguments = "check" ∷ []; pytest = none; targets = [] }

abbrev ruff_observation : RepositoryCheckObservation
ruff_observation = record {
  invocation = ruff_check;
  execution_environment = some "repository";
  analysis_python_authority = none;
  start = none;
  processes = process_of "primary" (some (pos 0)) ∷ [];
  error = none;
  pytest = none;
  coverage = none;
  environment_error = none;
}

abbrev observations : Matched
observations = (0, ruff_observation) ∷ []

abbrev ruff_result : CheckResultV2
ruff_result = record {
  name = CheckName.ruff;
  status = CheckStatus.passed;
  execution_environment = some "repository";
  analysis_python_authority = none;
  start_evidence = none;
  processes = map evidence_of ruff_observation.processes;
  error = none;
}

abbrev environment : RepositoryEnvironmentEvidence
environment = record {
  manager_version = some "0.8.0";
  path = some "/repo/.venv";
  python = none;
  lock_path = "/repo/uv.lock";
  lock_status = LockStatus.current;
  mutation_protection = MutationProtection.tracked_files;
  dependencies = [];
  processes = [];
  error = none;
}

built :
    build_check_results decode resolve show OutputFormat.json 0 (ruff_check ∷ []) observations none
    ≡ returned (ruff_result ∷ [])
unfolding build_check_results build_check_result_v2 judge judge_unfailed judge_primary
    observation_at check_error_evidence
built = refl

exits_zero : select_exit_code (overall_status environment (ruff_result ∷ []) none none) ≡ 0
unfolding select_exit_code overall_status run_complete_v2
exits_zero = refl

select_exit_code-AllGood_example :
    IsClean environment none none × AllGood 0 (ruff_check ∷ []) observations none
select_exit_code-AllGood_example =
    select_exit_code-AllGood decode resolve show OutputFormat.json environment (ruff_check ∷ [])
      observations (ruff_result ∷ []) none none built exits_zero
