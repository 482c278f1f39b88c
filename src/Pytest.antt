-- ===== src/Pytest.antt =====
-- pytest_evidence.py: what is trusted of a pytest session and what is reported of it. The types of a
-- validated session and of the result are here, the children consolidate them.
pub mod Node
pub mod Options
pub mod Evidence
pub mod Result
pub mod Collection
pub mod Expected
use pyrepo_check.Base.{ℕ, String, Bool, Option, List}
use pyrepo_check.Base.Int.{ℤ}

pub data PytestErrorCode : Type 0 where
  unsupported_python module_unavailable unsupported_version preflight_invalid : PytestErrorCode
  unsupported_parallelism unsupported_retries exit_code_mismatch not_started : PytestErrorCode
  spawn_failed terminated_by_signal artifact_missing artifact_invalid : PytestErrorCode
  artifact_not_finalized session_incomplete interrupted internal_error : PytestErrorCode
  usage_error unknown_exit_code : PytestErrorCode

-- `unexpected` is the kind "none".
pub data ExpectedFailureKind : Type 0 where
  unexpected xfail xpass_non_strict xpass_strict : ExpectedFailureKind

pub data PytestStatus : Type 0 where
  passed failed error : PytestStatus

pub data TestScope : Type 0 where
  partial complete : TestScope

pub data TestScopeReason : Type 0 where
  planned_selector effective_narrowing_option unclassified_external_option : TestScopeReason
  deselected_tests collection_reduced incomplete_session : TestScopeReason

-- The six counters of `PytestCounts`, and the outcomes that a node may have
pub data NodeOutcome : Type 0 where
  passed failed errors skipped xfailed xpassed : NodeOutcome

pub record PytestCounts : Type 0 where
  pub passed : ℕ
  pub failed : ℕ
  pub errors : ℕ
  pub skipped : ℕ
  pub xfailed : ℕ
  pub xpassed : ℕ

pub record CollectionIssue : Type 0 where
  pub nodeid : String
  pub message : String

pub record SlowTest : Type 0 where
  pub nodeid : String
  pub duration_ms : ℕ

-- `outcome` is skipped, xfailed or xpassed.
pub record SpecialTestOutcome : Type 0 where
  pub nodeid : String
  pub outcome : NodeOutcome
  pub reason : Option String
  pub strict : Option Bool
  pub affects_exit : Bool
  pub duration_ms : ℕ

pub record PytestEvidence : Type 0 where
  pub effective_args : List String
  pub collected : ℕ
  pub deselected : ℕ
  pub counts : PytestCounts
  pub collection_errors : List CollectionIssue
  pub collection_skips : List CollectionIssue
  pub slowest : List SlowTest
  pub special_outcomes : List SpecialTestOutcome

pub record PytestError : Type 0 where
  pub code : PytestErrorCode
  pub message : String

pub record PytestResult : Type 0 where
  pub status : PytestStatus
  pub complete : Bool
  pub scope : TestScope
  pub scope_reasons : List TestScopeReason
  pub pytest_version : Option String
  pub exit_code : Option ℤ
  pub evidence : Option PytestEvidence
  pub error : Option PytestError

pub data Phase : Type 0 where
  setup call teardown : Phase

pub data PhaseOutcome : Type 0 where
  passed failed skipped : PhaseOutcome

-- A duration is the decimal that `str` prints of the float: `digits` / 10 ^ `scale`.
pub record Decimal : Type 0 where
  pub digits : ℕ
  pub scale : ℕ

pub record ValidatedExpectedFailure : Type 0 where
  pub kind : ExpectedFailureKind
  pub reason : Option String
  pub strict : Option Bool
  pub affects_exit : Bool

pub record ValidatedPhaseReport : Type 0 where
  pub nodeid : String
  pub when : Phase
  pub outcome : PhaseOutcome
  pub duration : Decimal
  pub longrepr : Option String
  pub expected_failure : ValidatedExpectedFailure

-- The mapping that `_validate_semantic_options` returns
pub record SemanticOptions : Type 0 where
  pub collection_paths : List String
  pub keyword : String
  pub markexpr : String
  pub deselect : List String
  pub ignore : List String
  pub ignore_glob : List String
  pub lf : Bool
  pub pyargs : Bool
  pub collectonly : Bool
  pub setuponly : Bool
  pub setupplan : Bool

-- The mapping that `_validate_collection` returns
pub record ValidatedCollection : Type 0 where
  pub initial_nodeids : List String
  pub final_nodeids : List String
  pub deselected_nodeids : List String
  pub uncovered_removed_nodeids : List String
  pub errors : List CollectionIssue
  pub skips : List CollectionIssue

-- `flags` decides whether a session is validated and is not read afterwards, nor are the other
-- entries of `session`.
pub record ValidatedPytestSession : Type 0 where
  pub pytest_version : String
  pub exit_code : ℤ
  pub effective_args : List String
  pub semantic_options : SemanticOptions
  pub collection : ValidatedCollection
  pub reports : List ValidatedPhaseReport
  pub collection_completed : Bool
  pub stopped_early : Bool

pub record PytestValidationFailure : Type 0 where
  pub code : PytestErrorCode
  pub message : String
  pub pytest_version : Option String
  pub exit_code : Option ℤ
