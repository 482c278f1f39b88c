-- ===== src/Tests/Preparation.antt =====
-- The preparation of repository_environment.py on a run of uv that succeeds.
use pyrepo_check.Base.{String, true, false, none, some, [], ◌∷◌, returned}
use pyrepo_check.Base.Int.{pos}
use pyrepo_check.Planning.{
  RunPlan, default, strict_aggregate, json, PlannedTestScope, PlannedCoverageScope,
}
use pyrepo_check.Execution.{CapturedBytes, ExecutedProcess}
use pyrepo_check.Environment.Preparation.{PreparationRun, present, prepare_repository_environment}
use pyrepo_check.Environment.Preparation.Laws.{IsSound, prepare_repository_environment-IsSound}

abbrev captured : CapturedBytes
captured = record { tail = 117 ∷ 118 ∷ []; omitted_bytes = 0 }

abbrev finished : String → ExecutedProcess
finished role = record {
  role = role;
  command = "uv" ∷ [];
  cwd = "/repo";
  returncode = some (pos 0);
  duration_ms = 3;
  stdout = some captured;
  stderr = none;
  spawn_error = none;
}

abbrev run : PreparationRun
run = record {
  lock_path = "/repo/uv.lock";
  lock_state = present;
  invalid_presence = none;
  storage_error = none;
  has_uv = true;
  uv_changed = false;
  uv_process = finished "uv_version";
  version_of = λ content. returned "0.9.2";
  uv_changed_again = false;
  probe_process = finished "environment_probe";
  parse_probe = λ process. returned (record {
    python = record {
      implementation = "CPython";
      version = (3, 13, 1);
      executable = "/repo/.venv/bin/python";
    };
    environment_root = "/repo/.venv";
  });
  probe_error = λ parsed. none;
}

abbrev plan : RunPlan
plan = record {
  root = "/repo";
  repository_python = default;
  mode = strict_aggregate;
  targets = [];
  checks = [];
  output_format = json;
  test_shortcut = none;
  pytest_args = none;
  planned_test_scope = PlannedTestScope.complete;
  planned_coverage_scope = PlannedCoverageScope.complete;
  pyproject_sha256 = none;
}

prepare_repository_environment-IsSound_example :
    IsSound 65536 plan run (prepare_repository_environment 65536 plan run)
prepare_repository_environment-IsSound_example =
    prepare_repository_environment-IsSound 65536 plan run
