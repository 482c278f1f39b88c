-- ===== src/Tests/Execution.antt =====
-- execution.py, repository_executor.py and repository_safety.py on concrete processes and bytes.
use pyrepo_check.Base.{
  zero, suc, ℕ, ◌+◌, ◌-◌, ◌*◌, ◌≤◌, ◌<◌, String, ◌≡◌, ◌↔◌, false, Option, none, some, List, [], ◌∷◌,
  if◌then◌else◌, nat_eq, string_eq, bool_eq, All,
}
use pyrepo_check.Base.{concat}
use pyrepo_check.Base.Int.{ℤ, pos, negsuc, is_negative}
use pyrepo_check.Execution.{ExecutedProcess}
use pyrepo_check.Execution.Capture.{empty_accumulator, drain, finish, normalize_buffered_output}
use pyrepo_check.Execution.Capture.Laws.{stream, drain-normalize_buffered_output}
use pyrepo_check.Execution.Legacy.{
  Succeeded, run_commands, execute_legacy_commands, execute_legacy_commands-Succeeded,
}
use pyrepo_check.Execution.Process.{
  duration_ms, duration_ms-bounds, classify_primary_error, IsResult,
  classify_primary_error-IsResult,
}
use pyrepo_check.Safety.Index
use pyrepo_check.Safety.Index.{empty_parser, feed_all, is_complete}
use pyrepo_check.Safety.Index.Laws.{index_of, finish-index_of}

abbrev process_of : Option ℤ → List ℕ → ExecutedProcess
process_of returncode bytes = record {
  role = "primary";
  command = "git" ∷ "ls-files" ∷ [];
  cwd = "/repo";
  returncode = returncode;
  duration_ms = 3;
  stdout = some (record { tail = bytes; omitted_bytes = 0 });
  stderr = none;
  spawn_error = none;
}

drain_example :
    finish (drain 4 ((1 ∷ 2 ∷ 3 ∷ []) ∷ (4 ∷ 5 ∷ []) ∷ [] ∷ (6 ∷ []) ∷ []) empty_accumulator)
    ≡ record { tail = 2 ∷ 3 ∷ 4 ∷ 5 ∷ []; omitted_bytes = 1 }
unfolding stream normalize_buffered_output
drain_example =
    drain-normalize_buffered_output 4 ((1 ∷ 2 ∷ 3 ∷ []) ∷ (4 ∷ 5 ∷ []) ∷ [] ∷ (6 ∷ []) ∷ [])

-- "100644 ab 0\ta" and a NUL, in two chunks
abbrev chunks : List (List ℕ)
chunks = (49 ∷ 48 ∷ 48 ∷ 54 ∷ 52 ∷ 52 ∷ 32 ∷ 97 ∷ []) ∷ (98 ∷ 32 ∷ 48 ∷ 9 ∷ 97 ∷ 0 ∷ []) ∷ []

finish-index_of_example :
    Index.finish (feed_all 100 empty_parser chunks) (process_of (some (pos 0)) (concat chunks)) ≡ (
      if is_complete 14 (process_of (some (pos 0)) (concat chunks))
      then index_of 100 (concat chunks)
      else none)
finish-index_of_example = finish-index_of 100 chunks (process_of (some (pos 0)) (concat chunks))

-- The same command runs, and is then stopped by a signal.
abbrev run : ℕ → List String → ExecutedProcess
run zero command = process_of (some (pos 0)) []
run (suc position) command = process_of (some (negsuc 8)) []

abbrev commands : List (List String)
commands = ("ruff" ∷ []) ∷ ("ruff" ∷ []) ∷ []

execute_legacy_commands_example :
    ((execute_legacy_commands run commands ≡ pos 0) ↔ All Succeeded (run_commands run 0 commands))
    × (is_negative (execute_legacy_commands run commands) ≡ false)
execute_legacy_commands_example = execute_legacy_commands-Succeeded run commands

classify_primary_error_example :
    (classify_primary_error (process_of (some (pos 1)) []) ≡ none) ↔ IsResult none (some (pos 1))
classify_primary_error_example = classify_primary_error-IsResult (process_of (some (pos 1)) [])

duration_ms_example :
    (duration_ms 1000000 4500000 * 1000000 ≤ 4500000 - 1000000 + 500000)
    × (4500000 - 1000000 < duration_ms 1000000 4500000 * 1000000 + 500000)
duration_ms_example = duration_ms-bounds 1000000 4500000
