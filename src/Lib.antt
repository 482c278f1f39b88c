-- ===== src/Lib.antt =====
-- pyrepo-check, the controller that runs the quality checks of a Python repository.
--
-- The program reads pyproject.toml, turns a request into a plan of checks, runs each check's process
-- in the repository's environment, watches that the run does not change the repository, and judges
-- what pytest and Coverage.py leave behind. The files model these parts:
--
--   * Config, Config/*: pyrepo_check/config.py. `validate_project_target` and its syntax, the
--     coverage settings, the Test Shortcuts, and `load_project_config`. The parsed document is
--     `Toml`; the TOML parser and the digest are parameters of `Config.Load`, and the file system is
--     the record `FileTree` of what resolving and inspecting a path come to.
--   * Planning, Planning/*: pyrepo_check/planning.py. `plan_run` composes the splitting of the
--     command line (Positionals), the choice of an interpreter (Python) and the construction and
--     selection of checks (Selection); Run holds the function itself and the laws about it.
--   * Execution, Execution/*: pyrepo_check/execution.py. The types of what is observed, the bounded
--     capture of output (Capture), the exit code of the compatibility interface (Legacy), and durations
--     together with the codes of `_classify_primary_error` of pyrepo_check/repository_executor.py (Process).
--   * Environment, Environment/*: pyrepo_check/repository_environment.py. The dependencies that Checks
--     need (Dependencies), the order and the text of versions (Versions), and what is concluded from the
--     probe of a dependency (Dependencies/Observation); the preparation by uv (Preparation), with what the
--     file system and the processes do in the record `PreparationRun`.
--   * Executor, Executor/*: pyrepo_check/repository_executor.py. One Check in its workspace
--     (Workspace), the loop over the Checks with the verification after it (Checks). What the file
--     system, the processes and pytest do there is in the records `WorkspaceRun` and `LauncherRun`.
--   * Reporting, Reporting/*: pyrepo_check/reporting.py and pyrepo_check/reporting_schema.py. Captured
--     text (Text), processes (Process, Order), dependencies (Dependency), the matching of observations
--     with planned Checks (Matching), the results, the status and the exit code (Status),
--     and whether a pytest result fits its exit code (Pytest).
--   * Safety, Safety/Index: pyrepo_check/repository_safety.py. The incremental parser of the output
--     of `git ls-files`.
--   * Pytest, Pytest/*: pyrepo_check/pytest_evidence.py. From the phases of a test to its outcome
--     (Node), the expected failures of the reports (Expected), from a session to its evidence
--     (Evidence) and to the reported result (Result), the arguments that narrow a session (Options),
--     the checks of a collection (Collection).
--   * Coverage, Coverage/*: pyrepo_check/coverage_evidence.py. The policy of the coverage gate (Gate),
--     which reads the plan and the pytest result, the coverage result (Result), its construction
--     from what was observed (Codes, Build), and the validation of its status (Decision). The parser
--     of the coverage JSON and the two tests of a version are parameters.
--   * Base, Base/*: shared names, Boolean tests, lists, failing computations, text, integers.
--   * Tests, Tests/*: the operations on concrete inputs.
--
-- A function that raises is one into `Outcome`, with a constructor for each exception that it
-- raises itself; where only the text of a message differs, the text is left out. Sets whose order
-- is not observed are lists that only membership tests read. Paths are texts, and are POSIX ones.
-- Bytes are natural numbers. Python's integers are unbounded, as ℕ and ℤ are. The loops are
-- structural recursions on what is left to read, but for three: the removal of CSI sequences and the
-- loop over OSC sequences have the length of the text as fuel, each turn taking a character at least, and
-- the digits of n have n + 1 as fuel, each turn dividing by 10. The limits of 65536 bytes
-- on a capture and on an index record are parameters, for which the results hold in general.
--
-- Not modelled: creating processes, threads and private directories, the calls of uv, git, pytest
-- and Coverage.py, the launchers and the pytest plugin, the Windows files, which are operating
-- system calls; of the report, its rendering and most of the validation of its pytest, coverage and
-- Check parts; of the environment, the validation of its lock, uv's configuration and storage, and
-- the parsing and validation of its probe, which are fields of `PreparationRun`; of the Checks,
-- errors of a workspace other than the three that `execute_in_workspace` tells apart; and the
-- validation of the artifacts' JSON.
pub mod Base
pub mod Config
pub mod Planning
pub mod Execution
pub mod Safety
pub mod Environment
pub mod Executor
pub mod Pytest
pub mod Coverage
pub mod Reporting
pub mod Tests
